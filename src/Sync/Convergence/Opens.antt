-- ===== src/Sync/Convergence/Opens.antt =====
-- sqlitersync/origin.go: the beginning of a run on a file that can be read.
use go_sqlite_rsync.Common.{
  ℕ, suc, ◌≤◌, ◌≡◌, ◌⊎◌, inl, inr, refl, ap, ◌∙◌, Bool, true, false, ◌==◌, if◌then◌else◌, arith,
}
use go_sqlite_rsync.Common.Act.{ok, bind, pure, modify, ◌>>=◌, ◌>>◌, gets}
use go_sqlite_rsync.Wire.{protocol_version}
use go_sqlite_rsync.Sync.Run.{
  Rsync, Run, write_error, not_in_wal_mode, journal_mode, page_count, page_size, begin, cannot_open,
  call, run, run_return,
}
use go_sqlite_rsync.Sync.Run.Healthy.{
  Healthy, tick, call-Healthy, query-Healthy, run-Healthy, or_report-ok,
}
use go_sqlite_rsync.Sync.Origin.{open_file, check_journal_mode, open_origin, send_begin}

-- The run once the file is open, after `c` calls of the database.
abbrev pub opened : ℕ → Rsync → Rsync
opened c s = record s {
  db = record s.db { calls = c };
  pages = s.db.file_page_count;
  page_bytes = s.db.file_page_size;
}

-- The question that is asked where only WAL mode will do.
abbrev mode_part : Bool → Run (Unit {0})
mode_part wal_only =
    if wal_only
    then (do
      is_wal ← run_return journal_mode (λ d. d.is_wal)
      if is_wal then pure tt else write_error not_in_wal_mode)
    else pure tt

abbrev after_calls : ℕ → Rsync → Rsync
after_calls c s = record s { db = record s.db { calls = c } }

mode_part-Healthy :
    (b : Bool) (s : Rsync)
    → Healthy s.env
    → (b ≡ false) ⊎ (s.db.is_wal ≡ true)
    → (c : ℕ) × (mode_part b s ≡ (ok tt, after_calls c s))
unfolding run_return
mode_part-Healthy false s h mode = (s.db.calls, refl)
mode_part-Healthy true s h (inl any) = absurd (ground (arith, any))
mode_part-Healthy true s h (inr wal) = (
  suc s.db.calls,
  ap
        (λ r.
          bind (bind r (λ u. gets (λ s. s.db.is_wal)))
            (λ is_wal. if is_wal then pure tt else write_error not_in_wal_mode))
        (query-Healthy journal_mode s h)
      ∙ ap (λ b. (if b then pure tt else write_error not_in_wal_mode) (tick s)) wal,
)

check_journal_mode-Healthy :
    (s : Rsync)
    → Healthy s.env
    → (s.wal_only ≡ false) ⊎ (s.db.is_wal ≡ true)
    → (c : ℕ) × (check_journal_mode s ≡ (ok tt, after_calls c s))
unfolding check_journal_mode
check_journal_mode-Healthy s h mode = mode_part-Healthy s.wal_only s h mode

open_file-Healthy : (s : Rsync) → Healthy s.env → open_file s ≡ (ok tt, tick (tick s))
unfolding open_file
open_file-Healthy s h = simp (
  or_report-ok call cannot_open s (tick s) tt (call-Healthy s h),
  or_report-ok call cannot_open (tick s) (tick (tick s)) tt (call-Healthy (tick s) h),
  open_file,
)

-- What follows the choice of the version.
abbrev file_part : Run (Unit {0})
file_part = do
  open_file
  run begin ok
  check_journal_mode
  pages ← run_return page_count (λ d. d.file_page_count)
  page_bytes ← run_return page_size (λ d. d.file_page_size)
  modify (λ s. record s { pages = pages; page_bytes = page_bytes })
  send_begin

file_part-Healthy :
    (s : Rsync)
    → Healthy s.env
    → (s.wal_only ≡ false) ⊎ (s.db.is_wal ≡ true)
    → (c : ℕ) × (file_part s ≡ send_begin (opened c s))
unfolding run_return
file_part-Healthy s h mode =
    let s3 = tick (tick (tick s)) in
    let (c, checked) = check_journal_mode-Healthy s3 h mode in
    let s4 = after_calls c s in
    (
      suc (suc c),
      simp (
        open_file-Healthy s h,
        run-Healthy begin ok (tick (tick s)) s3.db h refl,
        checked,
        query-Healthy page_count s4 h,
        query-Healthy page_size (tick s4) h,
        run_return,
      ),
    )

pub open_origin-Healthy :
    (s : Rsync)
    → Healthy s.env
    → 1 ≤ s.protocol
    → (s.wal_only ≡ false) ⊎ (s.db.is_wal ≡ true)
    → (c : ℕ) × (open_origin s ≡ send_begin (opened c s))
unfolding open_origin
open_origin-Healthy s h known mode =
    let (c, went) = file_part-Healthy s h mode in
    let version : (if s.protocol == 0 then protocol_version else s.protocol) ≡ s.protocol =
      ground (arith, known) in
    (c, ap (λ p. file_part (record s { protocol = p })) version ∙ went)
