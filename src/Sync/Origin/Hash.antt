-- ===== src/Sync/Origin/Hash.antt =====
-- sqlitersync/origin.go, REPLICA_CONFIG and REPLICA_HASH: which pages a hash covers, and what is
-- written down when it does not match.
use go_sqlite_rsync.Common.{
  ℕ, ◌+◌, Bool, true, false, Option, none, some, List, [], ltb, if◌then◌else◌,
}
use go_sqlite_rsync.Common.Act.{Result, ok, err, pure, ◌>>=◌, ◌>>◌, modify, gets}
use go_sqlite_rsync.Common.Int.{pos}
use go_sqlite_rsync.Common.Words.{u32, u64}
use go_sqlite_rsync.Wire.Reader.{read_uint32, read_bytes}
use go_sqlite_rsync.Sync.Table.{insert_row}
use go_sqlite_rsync.Sync.PageHash.{Pages, page_hash, range_hash, same_bytes}
use go_sqlite_rsync.Sync.Run.{
  Run, Database, DbError, constraint, sql_failed, create_bad_hash, check_hash, check_hash_n,
  insert_bad_hash, reading, or_report, change, run, prepare, query, in_bad_hash,
}
use go_sqlite_rsync.Sync.Origin.Loop.{Locals}

unfoldable pub on_config : Locals → Run Locals
on_config v = do
  i ← reading read_uint32
  n ← reading read_uint32
  pure (record v { i_hash = i; n_hash = n })

-- `CREATE TEMP TABLE badHash`: a table that is there already is an error, which the flag
-- `has_check_hash` rules out here.
abbrev pub create : Database → Result DbError Database
create d = elim d.bad_hash [ none ↦ ok (record d { bad_hash = some [] }) | some t ↦ err constraint ]

-- The table and the statements are made on the first hash.
unfoldable pub prepare_checks : Locals → Run Locals
prepare_checks v = if v.has_check_hash then pure v else do
  run create_bad_hash create
  prepare check_hash
  prepare insert_bad_hash
  pure (record v { has_check_hash = true })

unfoldable pub prepare_check_n : Locals → Run Locals
prepare_check_n v =
    if v.has_check_hash_n
    then pure v
    else do prepare check_hash_n; pure (record v { has_check_hash_n = true })

-- The value of `hash == ?`, where no row and NULL are no match.
abbrev pub agrees : Option (List ℕ) → List ℕ → Bool
agrees none received = false
agrees (some h) received = same_bytes h received

unfoldable pub is_match : Pages → ℕ → ℕ → List ℕ → Bool
is_match pages i n received =
    if ltb 1 n then agrees (range_hash pages i n) received else agrees (page_hash pages i) received

unfoldable pub check : Locals → List ℕ → Run (Locals × Bool)
unfolding prepare_check_n
check v received = do
  v' ← (if ltb 1 v.n_hash then prepare_check_n v else pure v)
  query (if ltb 1 v.n_hash then check_hash_n else check_hash)
  matches ← gets (λ s. is_match s.db.page v.i_hash v.n_hash received)
  pure (v', matches)

unfoldable pub note_mismatch : Locals → Bool → Run (Unit {0})
note_mismatch v matches =
    if matches
    then pure tt
    else (or_report
        (change (in_bad_hash (insert_row (record { first = v.i_hash; count = v.n_hash }))))
        (sql_failed insert_bad_hash))

-- `iHash+nHash` on uint32.
unfoldable pub pass_range : Locals → Locals
pass_range v =
    let next = u32 (v.i_hash + v.n_hash) in
    record v { i_hash = next; mx_hash = if ltb v.mx_hash next then next else v.mx_hash }

unfoldable pub count_hash : Run (Unit {0})
count_hash = modify (λ s. record s { hash_messages = u64 (s.hash_messages + 1) })

unfoldable pub on_hash : Locals → Run Locals
on_hash v = do
  v ← prepare_checks v
  count_hash
  received ← reading (read_bytes (pos 20))
  (v, matches) ← check v received
  note_mismatch v matches
  pure (pass_range v)
