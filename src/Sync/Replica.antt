-- ===== src/Sync/Replica.antt =====
-- sqlitersync/replica.go, replicaSide.
pub mod File
pub mod Attach
pub mod Begin
pub mod Page
pub mod Progress
pub mod Fuel
pub mod Untouched
pub mod Atomic
pub mod Receive
pub mod Finish
pub mod Commit
pub mod Identical
pub mod FirstHashes
pub mod KeepWal
pub mod Closed
pub mod Tests
pub mod BeginTests
use go_sqlite_rsync.Common.{
  ℕ, zero, suc, ◌+◌, Bool, true, false, Option, none, some, List, [], ◌∷◌, ◌++◌, length, ◌==◌,
  if◌then◌else◌,
}
use go_sqlite_rsync.Common.Act.{Act, Result, ok, err, pure, raise, ◌>>=◌, ◌>>◌, modify, gets}
use go_sqlite_rsync.Wire.{
  protocol_version, origin_begin, origin_end, origin_error, origin_page, origin_txn, origin_msg,
  origin_detail, origin_ready, replica_msg, replica_end,
}
use go_sqlite_rsync.Wire.Reader.{read_uint32, read_message}
use go_sqlite_rsync.Wire.Writer.{write_byte, write_message, flush}
use go_sqlite_rsync.Sync.Run.{
  Rsync, Run, RunError, driver, from_peer, nil_pointer, out_of_fuel, unknown_message, reading,
  writing, write_error, call, or_driver,
}
use go_sqlite_rsync.Sync.Messages.{send_hash_messages}
use go_sqlite_rsync.Sync.Origin.{next_message}
use go_sqlite_rsync.Sync.Replica.Begin.{with_db, close_db, subdivide, on_begin}
use go_sqlite_rsync.Sync.Replica.Page.{on_page, on_txn}

unfoldable pub drop_message : Run (Unit {0})
drop_message = do text ← reading read_message; pure tt

unfoldable pub on_origin_error : Run (Unit {0})
on_origin_error = do text ← reading read_message; raise (from_peer text)

unfoldable pub on_detail : Run (Unit {0})
on_detail = do fpg ← reading read_uint32; npg ← reading read_uint32; with_db (subdivide fpg npg)

unfoldable pub on_origin_ready : Run (Unit {0})
on_origin_ready = with_db (send_hash_messages 0 0)

-- A handler, after which the loop goes on.
abbrev pub answered : Run (Unit {0}) → Run Bool
answered m = do m; pure true

-- The answer to one message, and whether the loop goes on.
unfoldable pub respond : ℕ → Run Bool
respond c =
    if c == origin_msg
    then answered drop_message
    else if c == origin_error
    then answered on_origin_error
    else if c == origin_end
    then pure false
    else if c == origin_begin
    then answered on_begin
    else if c == origin_detail
    then answered on_detail
    else if c == origin_ready
    then answered on_origin_ready
    else if c == origin_txn
    then answered on_txn
    else if c == origin_page
    then answered on_page
    else write_error (unknown_message c)

unfoldable pub replica_loop : ℕ → Run (Unit {0})
replica_loop zero = raise out_of_fuel
replica_loop (suc f) = do
  c ← next_message
  elim c [
    | none ↦ pure tt
    | some c ↦ (do goes_on ← respond c; if goes_on then replica_loop f else pure tt)
  ]

-- The commcheck message and REPLICA_END.
unfoldable pub announce : Run (Unit {0})
announce s =
    writing
      (do write_message replica_msg (s.env.announcement s.protocol); write_byte replica_end; flush)
      s

-- Each pass takes a byte from the input, so its length is fuel enough.
unfoldable pub answer_messages : Run (Unit {0})
answer_messages = do
  modify (λ s. record s { protocol = if s.protocol == 0 then protocol_version else s.protocol })
  λ s. replica_loop (length s.reader.input + 1) s

-- The errors that errors.Join puts together; none is nil.
abbrev pub errors : {A : Type 0} → Result RunError A → List RunError
errors (ok a) = []
errors (err e) = e ∷ []

-- The deferred call that closes pIns, which ORIGIN_BEGIN may have set to nil.
unfoldable pub close_insert : Run (Unit {0})
close_insert = do
  kept ← gets (λ s. s.kept)
  if kept.closes_insert
      then (if kept.has_insert then or_driver call else raise nil_pointer)
      else pure tt

-- The deferred calls, the last one first.
unfoldable pub run_deferred : Result RunError (Unit {0}) × Rsync → List RunError × Rsync
run_deferred (r, s) =
    let (r1, s1) = close_insert s in
    let (r2, s2) = close_db s1 in (errors r ++ (errors r1 ++ errors r2), s2)

-- hash.Register, and which of the two runs it is.
unfoldable pub start_replica : Run Bool
start_replica = do
  or_driver call
  modify (λ s. record s { is_replica = true })
  gets (λ s. s.comm_check)

abbrev pub chosen_run : Result RunError Bool × Rsync → List RunError × Rsync
chosen_run (ok true, s) = let (r, s') = announce s in (errors r, s')
chosen_run (ok false, s) = run_deferred (answer_messages s)
chosen_run (err e, s) = (e ∷ [], s)

unfoldable pub replica_side : Rsync → List RunError × Rsync
replica_side s = chosen_run (start_replica s)
