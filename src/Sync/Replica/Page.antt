-- ===== src/Sync/Replica/Page.antt =====
-- sqlitersync/replica.go, ORIGIN_PAGE and ORIGIN_TXN: the pages of the origin, and the end of the
-- transaction.
use go_sqlite_rsync.Common.{
  ℕ, ◌+◌, ◌-◌, ◌^◌, true, ◌&&◌, Option, none, some, List, ◌∷◌, ◌++◌, length, take, drop, get_or,
  ltb, leb, ◌==◌, if◌then◌else◌,
}
use go_sqlite_rsync.Common.Act.{pure, raise, ◌>>=◌, ◌>>◌, modify, gets}
use go_sqlite_rsync.Common.Int.{pos}
use go_sqlite_rsync.Common.Words.{u32}
use go_sqlite_rsync.Wire.Reader.{read_uint32, read_bytes}
use go_sqlite_rsync.Sync.Run.{
  Run, index_out_of_range, insert_failed, truncate_failed, insert_page, commit, reading, change,
  or_report, run, prepare,
}
use go_sqlite_rsync.Sync.Replica.File.{store_page, truncate, commit_file}
use go_sqlite_rsync.Sync.Replica.Begin.{with_db}

-- The page as it is written. Bytes 18 and 19 of page 1 say whether the file is in WAL mode; an index
-- outside the page is `none`.
unfoldable pub keep_wal : ℕ → ℕ → List ℕ → Option (List ℕ)
keep_wal pgno j_mode page =
    if pgno == 1 && j_mode == 2
    then (if leb (length page) 18
        then none
        else if get_or page 18 0 == 1
        then (if leb (length page) 19 then none else some (take 18 page ++ (2 ∷ 2 ∷ drop 20 page)))
        else some page)
    else some page

abbrev pub or_panic : Option (List ℕ) → Run (List ℕ)
or_panic none = raise index_out_of_range
or_panic (some page) = pure page

unfoldable pub prepare_insert : Run (Unit {0})
prepare_insert = do
  has_insert ← gets (λ s. s.kept.has_insert)
  if has_insert then pure tt else (do
    with_db (prepare insert_page)
    modify (λ s. record s { kept = record s.kept { has_insert = true; closes_insert = true } }))

unfoldable pub insert_received : ℕ → List ℕ → Run (Unit {0})
insert_received pgno page = or_report (change (store_page pgno page)) (insert_failed pgno)

-- The page is counted before it is inserted.
unfoldable pub on_page : Run (Unit {0})
on_page = do
  pgno ← reading read_uint32
  prepare_insert
  page_bytes ← gets (λ s. s.page_bytes)
  received ← reading (read_bytes (pos page_bytes))
  j_mode ← gets (λ s. s.kept.j_mode)
  page ← or_panic (keep_wal pgno j_mode received)
  modify (λ s. record s { page_updates = u32 (s.page_updates + 1) })
  insert_received pgno page

-- 0xffffffff pages: nothing is cut off.
unfoldable pub cut_file : ℕ → Run (Unit {0})
cut_file n_o_page =
    if ltb n_o_page (2 ^ 32 - 1)
    then or_report (change (truncate (n_o_page + 1))) (truncate_failed (u32 (n_o_page + 1)))
    else pure tt

unfoldable pub on_txn : Run (Unit {0})
on_txn = do
  n_o_page ← reading read_uint32
  has_insert ← gets (λ s. s.kept.has_insert)
  if has_insert
      then (do
        cut_file n_o_page
        modify (λ s. record s { pages = n_o_page })
        run commit commit_file)
      else with_db (run commit commit_file)
