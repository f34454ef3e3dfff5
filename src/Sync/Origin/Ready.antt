-- ===== src/Sync/Origin/Ready.antt =====
-- sqlitersync/origin.go, REPLICA_READY: ask for finer hashes, or send the pages.
use go_sqlite_rsync.Common.{
  ℕ, zero, suc, ◌+◌, ◌-◌, Option, none, some, List, [], ◌∷◌, leb, if◌then◌else◌,
}
use go_sqlite_rsync.Common.Act.{Act, Result, ok, err, pure, ◌>>=◌, ◌>>◌, modify, gets}
use go_sqlite_rsync.Common.Words.{u32}
use go_sqlite_rsync.Wire.{origin_page, origin_txn, origin_detail, origin_ready, origin_end}
use go_sqlite_rsync.Wire.Writer.{Write, write_byte, write_uint32, write_bytes, flush}
use go_sqlite_rsync.Sync.Table.{Range, Table, insert_rows, delete_key, multi, drop_multi}
use go_sqlite_rsync.Sync.PageHash.{Pages}
use go_sqlite_rsync.Sync.Run.{
  Rsync, Run, Database, DbError, no_such_table, select_multi, delete_multi, insert_tail,
  delete_lock_page, select_pages, sql_failed, writing, call, or_report, or_driver, run, query,
  in_bad_hash,
}
use go_sqlite_rsync.Sync.Origin.Loop.{Locals}

-- s.db.Query on badHash: its rows `f`.
abbrev pub found : {A : Type 0} → Option A → Result DbError A
found none = err no_such_table
found (some rows) = ok rows

unfoldable pub rows_of : {A : Type 0} → (Database → Option A) → Act Rsync DbError A
rows_of f = do call; λ s. (found (f s.db), s)

-- SELECT pgno, sz FROM badHash WHERE sz>1
abbrev pub multi_rows : Database → Option (List Range)
multi_rows d = elim d.bad_hash [ none ↦ none | some t ↦ some (multi t) ]

unfoldable pub write_detail : Range → Write
write_detail r = do write_byte origin_detail; write_uint32 r.first; write_uint32 r.count

-- One row: it is read, and its message is written.
unfoldable pub send_details : List Range → Run (Unit {0})
send_details [] = pure tt
send_details (r ∷ rs) = do query select_multi; writing (write_detail r); send_details rs

-- `VALUES(mxHash) UNION ALL SELECT n+1 … WHERE n<pageCount`, with one page each.
unfoldable pub tail_rows : ℕ → ℕ → List Range
tail_rows n zero = []
tail_rows n (suc count) = record { first = n; count = 1 } ∷ tail_rows (n + 1) count

unfoldable pub insert_from : ℕ → ℕ → Run (Unit {0})
insert_from mx pages = run insert_tail (in_bad_hash (insert_rows (tail_rows mx (pages + 1 - mx))))

unfoldable pub fill_tail : Locals → Run (Unit {0})
fill_tail v = do
  pages ← gets (λ s. s.pages)
  if leb v.mx_hash pages then insert_from v.mx_hash pages else pure tt

-- badHash JOIN sqlite_dbpage USING(pgno)
unfoldable pub page_rows : Pages → Table → List (ℕ × List ℕ)
page_rows pages [] = []
page_rows pages (r ∷ rs) = elim (pages r.first) [
  | none ↦ page_rows pages rs
  | some content ↦ (r.first, content) ∷ page_rows pages rs
]

abbrev pub joined_rows : Database → Option (List (ℕ × List ℕ))
joined_rows d = elim d.bad_hash [ none ↦ none | some t ↦ some (page_rows d.page t) ]

unfoldable pub write_page : ℕ × List ℕ → Write
write_page (pgno, content) = do write_byte origin_page; write_uint32 pgno; write_bytes content

-- A page is counted before it is written.
unfoldable pub send_pages : List (ℕ × List ℕ) → Run (Unit {0})
send_pages [] = pure tt
send_pages (p ∷ ps) = do
  query select_pages
  modify (λ s. record s { page_updates = u32 (s.page_updates + 1) })
  writing (write_page p)
  send_pages ps

unfoldable pub write_txn : ℕ → Write
write_txn pages = do write_byte origin_txn; write_uint32 pages; write_byte origin_end

unfoldable pub ask_for_detail : Run (Unit {0})
ask_for_detail = do
  run delete_multi (in_bad_hash (λ t. some (drop_multi t)))
  writing (write_byte origin_ready)

unfoldable pub transfer : Locals → Run (Unit {0})
transfer v = do
  fill_tail v
  run delete_lock_page (in_bad_hash (λ t. some (delete_key v.lock_byte_page t)))
  rows ← or_report (rows_of joined_rows) (sql_failed select_pages)
  send_pages rows
  query select_pages
  or_driver call
  pages ← gets (λ s. s.pages)
  writing (write_txn pages)

-- The counter of the details is positive as soon as there is a row.
unfoldable pub after_details : Locals → List Range → Run (Unit {0})
after_details v [] = transfer v
after_details v (r ∷ rs) = ask_for_detail

unfoldable pub on_ready : Locals → Run Locals
on_ready v = do
  modify (λ s. record s { hash_rounds = u32 (s.hash_rounds + 1) })
  rows ← or_report (rows_of multi_rows) (sql_failed select_multi)
  send_details rows
  query select_multi
  or_driver call
  after_details v rows
  writing flush
  pure v
