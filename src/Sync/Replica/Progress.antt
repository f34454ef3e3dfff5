-- ===== src/Sync/Replica/Progress.antt =====
-- sqlitersync/replica.go: the input before and after each handler.
pub mod Messages
pub mod Begin
use go_sqlite_rsync.Common.{
  ℕ, ◌+◌, ◌≡◌, ◌≢◌, refl, ap, Bool, true, false, Option, none, some, List, [], ◌∷◌, length,
  if◌then◌else◌, arith,
}
use go_sqlite_rsync.Common.Act.{Result, ok, err, modify}
use go_sqlite_rsync.Common.Words.{u32, u64}
use go_sqlite_rsync.Wire.{WireError, replica_ready}
use go_sqlite_rsync.Wire.Writer.{write_byte}
use go_sqlite_rsync.Sync.Run.{
  Rsync, Run, RunError, DbError, out_of_fuel, from_peer, nil_pointer, index_out_of_range, call,
  writing, write_error, sql_failed, attach, joined,
}
use go_sqlite_rsync.Sync.Run.Progress.{
  Progress, progress_rules, Progress-bind, Quiet-call, Progress-modify, Progress-writing,
  Progress-write_error, Progress-raise, Progress-pure,
}
use go_sqlite_rsync.Sync.Table.{Range}
use go_sqlite_rsync.Sync.Messages.{send_entry, send_entries, finish_round, send_hash_messages}
use go_sqlite_rsync.Sync.Replica.File.{attached}
use go_sqlite_rsync.Sync.Replica.Attach.{
  is_wrong_encoding, run_attach, attach_third, attach_second, attach_replica,
}
use go_sqlite_rsync.Sync.Replica.Begin.{
  drop_db, close_db, open_replica, size_empty_file, begin_transaction, note_journal_mode,
  check_page_size, subdivide, first_hashes, begin_sync, on_begin,
}
use go_sqlite_rsync.Sync.Replica.Page.{
  or_panic, prepare_insert, insert_received, on_page, cut_file, on_txn,
}
use go_sqlite_rsync.Sync.Replica.{
  drop_message, on_origin_error, on_detail, on_origin_ready, respond, announce,
}
use go_sqlite_rsync.Sync.Replica.Progress.Messages.{Progress-send_hash_messages}
use go_sqlite_rsync.Sync.Replica.Progress.Begin.{
  nil_pointer-ne-out_of_fuel, index_out_of_range-ne-out_of_fuel, Progress-subdivide,
  Progress-on_begin,
}

Progress-or_panic : (page : Option (List ℕ)) → Progress (or_panic page)
Progress-or_panic none = search (progress_rules, index_out_of_range-ne-out_of_fuel)
Progress-or_panic (some page) = search progress_rules

Progress-keep_insert : Progress (
    modify {S = Rsync} {E = RunError}
      (λ s. record s { kept = record s.kept { has_insert = true; closes_insert = true } }))
Progress-keep_insert = Progress-modify _ (λ s. refl)

Progress-prepare_insert : Progress prepare_insert
unfolding prepare_insert
Progress-prepare_insert =
    search (progress_rules, Progress-keep_insert, nil_pointer-ne-out_of_fuel) depth 14

Progress-count_page :
    Progress (
      modify {S = Rsync} {E = RunError} (λ s. record s { page_updates = u32 (s.page_updates + 1) }))
Progress-count_page = Progress-modify _ (λ s. refl)

Progress-on_page : Progress on_page
unfolding on_page insert_received
Progress-on_page =
    search (progress_rules, Progress-prepare_insert, Progress-or_panic, Progress-count_page) depth
      16

Progress-cut_file : (n : ℕ) → Progress (cut_file n)
unfolding cut_file
Progress-cut_file n = search progress_rules

Progress-set_pages :
    (n : ℕ) → Progress (modify {S = Rsync} {E = RunError} (λ s. record s { pages = n }))
Progress-set_pages n = Progress-modify _ (λ s. refl)

Progress-on_txn : Progress on_txn
unfolding on_txn
Progress-on_txn =
    search (progress_rules, Progress-cut_file, Progress-set_pages, nil_pointer-ne-out_of_fuel) depth
      16

Progress-drop_message : Progress drop_message
unfolding drop_message
Progress-drop_message = search progress_rules

from_peer-ne-out_of_fuel : (text : List ℕ) → from_peer text ≢ out_of_fuel
from_peer-ne-out_of_fuel text e = ground (arith, e)

Progress-on_origin_error : Progress on_origin_error
unfolding on_origin_error
Progress-on_origin_error = search (progress_rules, from_peer-ne-out_of_fuel)

Progress-on_detail : Progress on_detail
unfolding on_detail
Progress-on_detail =
    search (progress_rules, Progress-subdivide, nil_pointer-ne-out_of_fuel) depth 12

Progress-on_origin_ready : Progress on_origin_ready
unfolding on_origin_ready
Progress-on_origin_ready =
    search (progress_rules, Progress-send_hash_messages, nil_pointer-ne-out_of_fuel) depth 12

pub Progress-respond : (c : ℕ) → Progress (respond c)
unfolding respond
Progress-respond c =
    search
      (
        progress_rules, Progress-drop_message, Progress-on_origin_error, Progress-on_begin,
        Progress-on_detail, Progress-on_origin_ready, Progress-on_txn, Progress-on_page,
      )
      depth 16
