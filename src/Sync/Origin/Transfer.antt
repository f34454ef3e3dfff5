-- ===== src/Sync/Origin/Transfer.antt =====
-- sqlitersync/origin.go, REPLICA_READY: the transfer, once no range of several pages is left.
use go_sqlite_rsync.Common.{
  ℕ, zero, suc, ◌+◌, ◌-◌, ◌<◌, ◌≡◌, refl, sym, ap, subst, ◌∙◌, Bool-cases, inl, inr, Option, none,
  some, [], ◌∷◌, ◌++◌, All-append, leb, append-nil, append_assoc, arith,
}
use go_sqlite_rsync.Common.Act.{ok, ◌>>=◌, ◌>>◌, gets}
use go_sqlite_rsync.Sync.Table.{Range, Table, insert_row, insert_rows, delete_key}
use go_sqlite_rsync.Sync.Subdivide.Tiles.{
  has_key-KeysBelow, KeysBelow, KeysBelow-mono, replace_row-last,
}
use go_sqlite_rsync.Sync.Run.{
  call, or_driver, or_report, sql_failed, Rsync, Run, in_bad_hash, with_table, stored, run,
  insert_tail, delete_lock_page, writing, query, select_pages,
}
use go_sqlite_rsync.Sync.Run.Healthy.{Healthy, tick, run-Healthy, or_report-ok}
use go_sqlite_rsync.Sync.Run.Emits.{
  File, Outgoing, Emitted, Emits, Emits-then, Emits-writing, Emits-query, Emits-driver,
}
use go_sqlite_rsync.Sync.Origin.Early.{rows_of-Healthy}
use go_sqlite_rsync.Sync.Origin.Frames.{page_frames, txn_frame, Sends-write_txn, send_pages-Emits}
use go_sqlite_rsync.Sync.Origin.Loop.{Locals}
use go_sqlite_rsync.Sync.Origin.Ledger.{noted, insert_row-free}
use go_sqlite_rsync.Sync.Origin.Ready.{
  tail_rows, insert_from, fill_tail, rows_of, joined_rows, page_rows, send_pages, write_txn,
  transfer,
}

-- The tail goes behind the rows that are there.
pub insert_rows-tail :
    (count k : ℕ) (t : Table)
    → KeysBelow k t
    → insert_rows (tail_rows k count) t ≡ some (t ++ tail_rows k count)
unfolding insert_rows tail_rows
insert_rows-tail zero k t below = ap some (sym (append-nil t))
insert_rows-tail (suc count) k t below =
    let r : Range = record { first = k; count = 1 } in
    let added : insert_row r t ≡ some (t ++ r ∷ []) =
      insert_row-free r t (has_key-KeysBelow k t below) ∙ ap some (replace_row-last r t below) in
    let below' : KeysBelow (k + 1) (t ++ r ∷ []) =
      All-append (λ x. x.first < k + 1) t (r ∷ []) (KeysBelow-mono k (k + 1) t (omega arith) below)
        (omega arith, tt) in
    ap
      (λ o. elim o as (λ x. Option Table) [
        | none ↦ none
        | some t' ↦ insert_rows (tail_rows (k + 1) count) t'
      ])
      added
    ∙ insert_rows-tail count (k + 1) (t ++ r ∷ []) below'
    ∙ ap some (append_assoc t (r ∷ []) (tail_rows (k + 1) count))

fill_tail-Healthy :
    (v : Locals) (s : Rsync) (t : Table)
    → Healthy s.env
    → s.db.bad_hash ≡ some t
    → KeysBelow v.mx_hash t
    → (c : ℕ) × (fill_tail v s
        ≡ (ok tt, noted c (t ++ tail_rows v.mx_hash (s.pages + 1 - v.mx_hash)) s))
unfolding fill_tail insert_from tail_rows
fill_tail-Healthy v s t h there below = elim (Bool-cases (leb v.mx_hash s.pages)) [
  | inl more ↦
      let tail = tail_rows v.mx_hash (s.pages + 1 - v.mx_hash) in
      let d = (tick s).db in
      let filled =
        ap (with_table (insert_rows tail) d) there
        ∙ ap (stored d) (insert_rows-tail (s.pages + 1 - v.mx_hash) v.mx_hash t below) in
      (
        suc s.db.calls,
        simp (
          more,
          run-Healthy insert_tail (in_bad_hash (insert_rows tail)) s
              (record d { bad_hash = some (t ++ tail) }) h filled,
          fill_tail,
          insert_from,
        ),
      )
  | inr all ↦
      let left : s.pages + 1 - v.mx_hash ≡ 0 = ground (arith, all) in
      let nothing : t ++ tail_rows v.mx_hash (s.pages + 1 - v.mx_hash) ≡ t =
        ap (λ c. t ++ tail_rows v.mx_hash c) left ∙ append-nil t in
      (
        s.db.calls,
        simp (all, fill_tail)
            (ap (λ o. (ok tt, record s { db = record s.db { bad_hash = o } }))
              (there ∙ ap some (sym nothing))),
      )
]

-- badHash when the pages are read: the tail added, the lock byte page removed.
abbrev pub resend : Locals → ℕ → Table → Table
resend v pages t = delete_key v.lock_byte_page (t ++ tail_rows v.mx_hash (pages + 1 - v.mx_hash))

-- What follows the pages.
finish : Run (Unit {0})
finish = do
  query select_pages
  or_driver call
  pages ← gets (λ s. s.pages)
  writing (write_txn pages)

finish-Emits : (file : File) → Emits file finish (txn_frame file.count)
unfolding finish
finish-Emits file = Emits-query select_pages (or_driver call >> closing) (txn_frame file.count) (
    Emits-driver closing (txn_frame file.count) (λ s out.
      subst (λ n. Emitted file s.writer (txn_frame file.count) (writing (write_txn n) s))
        (sym out.count)
        (Emits-writing (write_txn file.count) (txn_frame file.count) (Sends-write_txn file.count) s
          out)))
  where
    closing : Run (Unit {0})
    closing s = writing (write_txn s.pages) s

delete_lock-Healthy :
    (v : Locals) (c : ℕ) (t : Table) (s : Rsync)
    → Healthy s.env
    → run delete_lock_page (in_bad_hash (λ t. some (delete_key v.lock_byte_page t))) (noted c t s)
      ≡ (ok tt, noted (suc c) (delete_key v.lock_byte_page t) s)
delete_lock-Healthy v c t s h =
    run-Healthy delete_lock_page (in_bad_hash (λ t. some (delete_key v.lock_byte_page t)))
      (noted c t s)
      (record (tick (noted c t s)).db { bad_hash = some (delete_key v.lock_byte_page t) }) h refl

read_rows-Healthy :
    (c : ℕ) (t : Table) (s : Rsync)
    → Healthy s.env
    → or_report (rows_of joined_rows) (sql_failed select_pages) (noted c t s)
      ≡ (ok (page_rows s.db.page t), tick (noted c t s))
read_rows-Healthy c t s h =
    or_report-ok (rows_of joined_rows) (sql_failed select_pages) (noted c t s) (tick (noted c t s))
      (page_rows s.db.page t) (rows_of-Healthy joined_rows (noted c t s) h)

abbrev pub file_of : Rsync → File
file_of s = record { page = s.db.page; count = s.pages }

-- Where no key of badHash reaches the tail and the database does not fail, the origin writes each page
-- of badHash and of the tail that exists, but for the lock byte page, by its number, and then the page
-- count and ORIGIN_END; or the stream breaks.
pub transfer-Emits :
    (v : Locals) (s : Rsync) (t : Table)
    → Outgoing (file_of s) s
    → s.db.bad_hash ≡ some t
    → KeysBelow v.mx_hash t
    → Emitted
        (file_of s)
        s.writer
        (page_frames (page_rows s.db.page (resend v s.pages t)) ++ txn_frame s.pages)
        (transfer v s)
unfolding transfer finish send_pages
transfer-Emits v s t out there below =
    let (c, filled) = fill_tail-Healthy v s t out.healthy there below in
    let final = resend v s.pages t in
    let rows = page_rows s.db.page final in
    let s' = tick (noted (suc c) final s) in
    let prepared : transfer v s ≡ (send_pages rows >> finish) s' = simp (
      filled,
      delete_lock-Healthy v c (t ++ tail_rows v.mx_hash (s.pages + 1 - v.mx_hash)) s out.healthy,
      read_rows-Healthy (suc c) final s out.healthy,
      transfer,
      finish,
    ) in
    subst (Emitted (file_of s) s.writer (page_frames rows ++ txn_frame s.pages)) (sym prepared) (
      Emits-then (send_pages rows) finish (page_frames rows) (txn_frame s.pages)
        (send_pages-Emits (file_of s) rows) (finish-Emits (file_of s)) s'
        (record {
          healthy = out.healthy;
          page = refl;
          count = refl;
          ready = out.ready;
          fits = out.fits;
        }))
