-- ===== src/Sync/Replica/Progress/Begin.antt =====
-- sqlitersync/replica.go: the input before and after ORIGIN_BEGIN.
use go_sqlite_rsync.Common.{ℕ, ◌≡◌, ◌≢◌, refl, Bool, true, false, if◌then◌else◌, arith}
use go_sqlite_rsync.Common.Act.{Result, ok, err, modify}
use go_sqlite_rsync.Sync.Run.{
  Rsync, Run, RunError, DbError, out_of_fuel, nil_pointer, index_out_of_range, call, write_error,
  sql_failed, attach,
}
use go_sqlite_rsync.Sync.Run.Reads.{Shorter, Shorter-trans, Shorter-same}
use go_sqlite_rsync.Sync.Run.Progress.{
  Progress, progress_rules, Quiet-call, Progress-modify, Progress-write_error,
}
use go_sqlite_rsync.Sync.Replica.Progress.Messages.{Progress-send_hash_messages}
use go_sqlite_rsync.Sync.Replica.File.{attached}
use go_sqlite_rsync.Sync.Replica.Attach.{
  is_wrong_encoding, run_attach, attach_third, attach_second, attach_replica,
}
use go_sqlite_rsync.Sync.Replica.Begin.{
  drop_db, close_db, open_replica, size_empty_file, begin_transaction, note_journal_mode,
  check_page_size, subdivide, first_hashes, begin_sync, on_begin,
}

Progress-run_attach : Progress run_attach
unfolding run_attach
Progress-run_attach = record {
  never = λ s. never s (call s);
  shorter = λ s. shorter s (call s) (Quiet-call.at s);
}
  where
    outcome : Rsync → Result DbError (Unit {0}) × Rsync → Result RunError (Unit {0}) × Rsync
    outcome s (r, s') = elim r [
      | ok u ↦ (ok tt, record s' { db = attached s'.db })
      | err e ↦
          if is_wrong_encoding s.env e
          then (ok tt, record s' { wrong_enc = true })
          else write_error (sql_failed attach e) s'
    ]

    refused : (b : Bool) → DbError → Run (Unit {0})
    refused b e s' =
        if b then (ok tt, record s' { wrong_enc = true }) else write_error (sql_failed attach e) s'

    refused-Progress : (b : Bool) (e : DbError) → Progress (refused b e)
    refused-Progress true e = Progress-modify (λ s. record s { wrong_enc = true }) (λ s. refl)
    refused-Progress false e = Progress-write_error (sql_failed attach e)

    never : (s : Rsync) (r : Result DbError (Unit {0}) × Rsync) → (outcome s r).0 ≢ err out_of_fuel
    never s (ok u, s') = λ e. ground (arith, e)
    never s (err x, s') = (refused-Progress (is_wrong_encoding s.env x) x).never s'

    shorter :
        (s : Rsync) (r : Result DbError (Unit {0}) × Rsync)
        → r.1.reader ≡ s.reader
        → Shorter s.reader (outcome s r).1.reader
    shorter s (ok u, s') h = Shorter-same s s'.reader h
    shorter s (err x, s') h =
        Shorter-trans s.reader s'.reader _ (Shorter-same s s'.reader h)
          ((refused-Progress (is_wrong_encoding s.env x) x).shorter s')

-- The assignments to the fields of the run.
Progress-set_wrong_enc :
    (b : Bool) → Progress (modify {S = Rsync} {E = RunError} (λ s. record s { wrong_enc = b }))
Progress-set_wrong_enc b = Progress-modify _ (λ s. refl)

Progress-attach_third : Progress attach_third
unfolding attach_third
Progress-attach_third = search (progress_rules, Progress-run_attach) depth 12

Progress-attach_second : Progress attach_second
unfolding attach_second
Progress-attach_second =
    search (progress_rules, Progress-run_attach, Progress-set_wrong_enc, Progress-attach_third)
      depth 12

Progress-attach_replica : Progress attach_replica
unfolding attach_replica
Progress-attach_replica =
    search (progress_rules, Progress-run_attach, Progress-set_wrong_enc, Progress-attach_second)
      depth 12

pub nil_pointer-ne-out_of_fuel : nil_pointer ≢ out_of_fuel
nil_pointer-ne-out_of_fuel e = ground (arith, e)

pub index_out_of_range-ne-out_of_fuel : index_out_of_range ≢ out_of_fuel
index_out_of_range-ne-out_of_fuel e = ground (arith, e)

Progress-drop_db : Progress (modify {S = Rsync} {E = RunError} drop_db)
Progress-drop_db = Progress-modify drop_db (λ s. refl)

pub Progress-close_db : Progress close_db
unfolding close_db
Progress-close_db = search (progress_rules, Progress-drop_db) depth 12

Progress-note_open : Progress (modify {S = Rsync} {E = RunError} (λ s. record s { db_open = true }))
Progress-note_open = Progress-modify _ (λ s. refl)

Progress-open_replica : Progress open_replica
unfolding open_replica
Progress-open_replica =
    search (progress_rules, Progress-note_open, Progress-attach_replica) depth 14

Progress-size_empty_file : (n : ℕ) → Progress (size_empty_file n)
unfolding size_empty_file
Progress-size_empty_file n = search progress_rules depth 12

Progress-begin_transaction : Progress begin_transaction
unfolding begin_transaction
Progress-begin_transaction = search progress_rules

Progress-set_j_mode :
    (j : ℕ)
    → Progress
        (modify {S = Rsync} {E = RunError} (λ s. record s { kept = record s.kept { j_mode = j } }))
Progress-set_j_mode j = Progress-modify _ (λ s. refl)

Progress-note_journal_mode : (n : ℕ) → Progress (note_journal_mode n)
unfolding note_journal_mode
Progress-note_journal_mode n = search (progress_rules, Progress-set_j_mode) depth 12

Progress-check_page_size : Progress check_page_size
unfolding check_page_size
Progress-check_page_size = search progress_rules depth 12

pub Progress-subdivide : (fpg npg : ℕ) → Progress (subdivide fpg npg)
unfolding subdivide
Progress-subdivide fpg npg = search progress_rules

Progress-first_hashes : (n : ℕ) → Progress (first_hashes n)
unfolding first_hashes
Progress-first_hashes n = search (progress_rules, Progress-subdivide) depth 12

Progress-begin_sync : Progress begin_sync
unfolding begin_sync
Progress-begin_sync =
    search
      (
        progress_rules, Progress-open_replica, Progress-size_empty_file, Progress-begin_transaction,
        Progress-note_journal_mode, Progress-check_page_size, Progress-first_hashes,
        Progress-send_hash_messages,
      )
      depth 14

Progress-forget_insert : Progress (
    modify {S = Rsync} {E = RunError}
      (λ s. record s { kept = record s.kept { has_insert = false } }))
Progress-forget_insert = Progress-modify _ (λ s. refl)

Progress-adopt :
    (protocol pages page_bytes : ℕ)
    → Progress (
        modify {S = Rsync} {E = RunError}
          (λ s. record s { protocol = protocol; pages = pages; page_bytes = page_bytes }))
Progress-adopt protocol pages page_bytes = Progress-modify _ (λ s. refl)

pub Progress-on_begin : Progress on_begin
unfolding on_begin
Progress-on_begin =
    search
      (
        progress_rules, Progress-close_db, Progress-forget_insert, Progress-adopt,
        Progress-begin_sync,
      )
      depth 16
