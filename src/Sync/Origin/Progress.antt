-- ===== src/Sync/Origin/Progress.antt =====
-- sqlitersync/origin.go: the input before and after each handler.
use go_sqlite_rsync.Common.{ℕ, ◌+◌, ◌≢◌, refl, Bool, Option, List, [], ◌∷◌, arith}
use go_sqlite_rsync.Common.Act.{modify}
use go_sqlite_rsync.Common.Words.{u32}
use go_sqlite_rsync.Sync.Run.{
  Database, call, writing, query, select_multi, select_pages, Rsync, RunError, out_of_fuel,
  from_peer,
}
use go_sqlite_rsync.Sync.Run.Progress.{
  Progress, progress_rules, Quiet, Quiet-call, Quiet-bind, Progress-modify, Progress-query,
  Progress-bind, Progress-writing,
}
use go_sqlite_rsync.Sync.Table.{Range}
use go_sqlite_rsync.Sync.Origin.Loop.{Locals}
use go_sqlite_rsync.Sync.Origin.Hash.{
  on_config, prepare_checks, prepare_check_n, check, note_mismatch, count_hash, on_hash,
}
use go_sqlite_rsync.Sync.Origin.Ready.{
  write_detail, write_page, send_details, insert_from, fill_tail, send_pages, ask_for_detail,
  transfer, after_details, on_ready, rows_of,
}
use go_sqlite_rsync.Sync.Origin.{
  send_begin, on_replica_begin, on_message, on_error, handle, write_begin,
}

Progress-on_config : (v : Locals) → Progress (on_config v)
unfolding on_config
Progress-on_config v = search progress_rules

Progress-prepare_checks : (v : Locals) → Progress (prepare_checks v)
unfolding prepare_checks
Progress-prepare_checks v = search progress_rules

Progress-prepare_check_n : (v : Locals) → Progress (prepare_check_n v)
unfolding prepare_check_n
Progress-prepare_check_n v = search progress_rules

Progress-check : (v : Locals) (received : List ℕ) → Progress (check v received)
unfolding check
Progress-check v received = search (progress_rules, Progress-prepare_check_n)

Progress-note_mismatch : (v : Locals) (matches : Bool) → Progress (note_mismatch v matches)
unfolding note_mismatch
Progress-note_mismatch v matches = search progress_rules

Progress-count_hash : Progress count_hash
unfolding count_hash
Progress-count_hash = Progress-modify _ (λ s. refl)

Progress-on_hash : (v : Locals) → Progress (on_hash v)
unfolding on_hash
Progress-on_hash v =
    search
      (
        progress_rules, Progress-prepare_checks, Progress-count_hash, Progress-check,
        Progress-note_mismatch,
      )
      depth 12

Quiet-rows_of : {A : Type 0} (f : Database → Option A) → Quiet (rows_of f)
unfolding rows_of
Quiet-rows_of f = Quiet-bind call _ Quiet-call (λ u. record { at = λ s. refl })

Progress-send_details : (rs : List Range) → Progress (send_details rs)
unfolding send_details
Progress-send_details [] = search progress_rules
Progress-send_details (r ∷ rs) =
    Progress-bind (query select_multi) _ (Progress-query select_multi) (λ u.
      Progress-bind (writing (write_detail r)) _ (Progress-writing (write_detail r))
        (λ u. Progress-send_details rs))

Progress-fill_tail : (v : Locals) → Progress (fill_tail v)
unfolding fill_tail insert_from
Progress-fill_tail v = search progress_rules depth 12

Progress-count_page :
    Progress (
      modify {S = Rsync} {E = RunError} (λ s. record s { page_updates = u32 (s.page_updates + 1) }))
Progress-count_page = Progress-modify _ (λ s. refl)

Progress-send_pages : (ps : List (ℕ × List ℕ)) → Progress (send_pages ps)
unfolding send_pages
Progress-send_pages [] = search progress_rules
Progress-send_pages (p ∷ ps) =
    Progress-bind (query select_pages) _ (Progress-query select_pages) (λ u.
      Progress-bind _ _ Progress-count_page (λ u.
        Progress-bind (writing (write_page p)) _ (Progress-writing (write_page p))
          (λ u. Progress-send_pages ps)))

Progress-ask_for_detail : Progress ask_for_detail
unfolding ask_for_detail
Progress-ask_for_detail = search progress_rules depth 12

pub Progress-transfer : (v : Locals) → Progress (transfer v)
unfolding transfer
Progress-transfer v =
    search (progress_rules, Progress-fill_tail, Progress-send_pages, Quiet-rows_of) depth 12

Progress-after_details : (v : Locals) (rs : List Range) → Progress (after_details v rs)
unfolding after_details
Progress-after_details v [] = Progress-transfer v
Progress-after_details v (r ∷ rs) = Progress-ask_for_detail

Progress-count_round :
    Progress
      (modify {S = Rsync} {E = RunError} (λ s. record s { hash_rounds = u32 (s.hash_rounds + 1) }))
Progress-count_round = Progress-modify _ (λ s. refl)

Progress-on_ready : (v : Locals) → Progress (on_ready v)
unfolding on_ready
Progress-on_ready v =
    search
      (
        progress_rules, Progress-count_round, Progress-send_details, Progress-after_details,
        Quiet-rows_of,
      )
      depth 12

pub Progress-send_begin : Progress send_begin
unfolding send_begin
Progress-send_begin = record {
  never = λ s. (Progress-writing (write_begin s)).never s;
  shorter = λ s. (Progress-writing (write_begin s)).shorter s;
}

Progress-downgrade :
    (n : ℕ) → Progress (modify {S = Rsync} {E = RunError} (λ s. record s { protocol = n }))
Progress-downgrade n = Progress-modify _ (λ s. refl)

Progress-on_replica_begin : (v : Locals) → Progress (on_replica_begin v)
unfolding on_replica_begin
Progress-on_replica_begin v =
    search (progress_rules, Progress-send_begin, Progress-downgrade) depth 12

Progress-on_message : (v : Locals) → Progress (on_message v)
unfolding on_message
Progress-on_message v = search progress_rules

from_peer-ne-out_of_fuel : (text : List ℕ) → from_peer text ≢ out_of_fuel
from_peer-ne-out_of_fuel text e = ground (arith, e)

Progress-on_error : Progress on_error
unfolding on_error
Progress-on_error = search (progress_rules, from_peer-ne-out_of_fuel)

pub Progress-handle : (c : ℕ) (v : Locals) → Progress (handle c v)
unfolding handle
Progress-handle c v =
    search
      (
        progress_rules, Progress-on_message, Progress-on_error, Progress-on_replica_begin,
        Progress-on_config, Progress-on_hash, Progress-on_ready,
      )
      depth 14
