-- ===== src/Sync/Messages.antt =====
-- sqlitersync/subdivide.go, sendHashMessages: one message for each entry of sendHash, as far as
-- its pages exist, and the end of the round. It reports an error as REPLICA_ERROR, which is the byte of
-- a replica's run.
pub mod Keeps
use go_sqlite_rsync.Common.{
  ℕ, ◌+◌, ◌^◌, ◌||◌, leb, ◌&&◌, Option, none, some, List, [], ◌∷◌, ◌==◌, if◌then◌else◌,
}
use go_sqlite_rsync.Common.Act.{Result, ok, err, pure, ◌>>=◌, ◌>>◌, modify, gets}
use go_sqlite_rsync.Common.Words.{u32, u64}
use go_sqlite_rsync.Wire.{replica_hash, replica_config, replica_ready}
use go_sqlite_rsync.Wire.Writer.{Write, write_byte, write_uint32, write_bytes, flush}
use go_sqlite_rsync.Sync.Table.{Range}
use go_sqlite_rsync.Sync.PageHash.{Pages, page_hash, range_hash}
use go_sqlite_rsync.Sync.Run.{
  RunError, DbError, driver, and_close, out_of_range, sql_failed, write_error, call, Run, send_hash,
  delete_send_hash, writing, joined, run, prepare, query,
}

-- The column `hash` of an entry; NULL is `none`.
unfoldable pub entry_hash : Pages → Range → Option (List ℕ)
entry_hash pages r =
    if r.count == 1 then page_hash pages r.first else range_hash pages r.first r.count

unfoldable pub write_config : ℕ → ℕ → Range → Write
write_config i n r =
    if r.first == i && r.count == n
    then pure tt
    else do write_byte replica_config; write_uint32 r.first; write_uint32 r.count

unfoldable pub write_hash : Option (List ℕ) → Write
write_hash none = pure tt
write_hash (some hash) = do write_byte replica_hash; write_bytes hash

-- rows.Scan into variables of 32 bits.
unfoldable pub scan : Range → Run (Unit {0})
scan r =
    if leb (2 ^ 32) r.first || leb (2 ^ 32) r.count
    then write_error (sql_failed send_hash out_of_range)
    else pure tt

-- One entry; it is counted whether or not it can be written.
unfoldable pub send_entry : ℕ → ℕ → Range → Run (Unit {0})
send_entry i n r = do
  query send_hash
  scan r
  modify (λ s. record s { hash_messages = u64 (s.hash_messages + 1) })
  pages ← gets (λ s. s.db.page)
  writing (write_config i n r)
  writing (write_hash (entry_hash pages r))

-- `i` and `n` are what the origin expects; after an entry it expects the next range of as many pages.
unfoldable pub send_entries : ℕ → ℕ → List Range → Run (Unit {0})
send_entries i n [] = pure tt
send_entries i n (r ∷ rs) = do send_entry i n r; send_entries (u32 (r.first + r.count)) r.count rs

-- The round is counted even where its message cannot be written.
unfoldable pub finish_round : Run (Unit {0})
finish_round s =
    let (r, w) = write_byte replica_ready s.writer in
    let (r', w') = flush w in
    (joined r r', record s { writer = w'; hash_rounds = u32 (s.hash_rounds + 1) })

-- The deferred Close of a statement or of its rows, once `m` has ended, whose error is joined to that of
-- `m`.
abbrev pub closed_after :
    Result RunError (Unit {0}) → Result DbError (Unit {0}) → Result RunError (Unit {0})
closed_after r (ok u) = r
closed_after (ok u) (err e) = err (driver e)
closed_after (err x) (err e) = err (and_close x e)

unfoldable pub closing : Run (Unit {0}) → Run (Unit {0})
closing m s = let (r, s1) = m s in let (r', s2) = call s1 in (closed_after r r', s2)

-- What is done with the rows, until their Close.
unfoldable pub send_rows : ℕ → ℕ → Run (Unit {0})
send_rows i_hash n_hash = do
  rows ← gets (λ s. s.db.send_hash_table)
  send_entries i_hash n_hash rows
  query send_hash
  run delete_send_hash (λ d. ok (record d { send_hash_table = [] }))
  finish_round

unfoldable pub send_hash_messages : ℕ → ℕ → Run (Unit {0})
send_hash_messages i_hash n_hash = do
  prepare send_hash
  closing (do query send_hash; closing (send_rows i_hash n_hash))
