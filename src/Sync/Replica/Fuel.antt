-- ===== src/Sync/Replica/Fuel.antt =====
-- sqlitersync/replica.go: the fuel of the message loop.
use go_sqlite_rsync.Common.{
  ℕ, zero, suc, ◌+◌, ◌<◌, ◌≡◌, ◌≢◌, refl, ap, Bool, true, false, Option, none, some, ◌++◌, length,
  ◌==◌, arith, if◌then◌else◌, All, All-append,
}
use go_sqlite_rsync.Common.Act.{Result, ok, err, pure, ◌>>=◌, ◌>>◌, bind, modify}
use go_sqlite_rsync.Common.Act.Steps.{Never, Never-bind}
use go_sqlite_rsync.Wire.{replica_msg, replica_end, protocol_version}
use go_sqlite_rsync.Wire.Writer.{Write, write_byte, write_message, flush}
use go_sqlite_rsync.Sync.Run.{Rsync, Run, RunError, out_of_fuel}
use go_sqlite_rsync.Sync.Run.Progress.{Progress, progress_rules, Progress-modify, Progress-writing}
use go_sqlite_rsync.Sync.Origin.{next_message}
use go_sqlite_rsync.Sync.Origin.Fuel.{next_message-shorter, next_message-Never}
use go_sqlite_rsync.Sync.Replica.Begin.{close_db}
use go_sqlite_rsync.Sync.Replica.Progress.{Progress-respond}
use go_sqlite_rsync.Sync.Replica.Progress.Begin.{Progress-close_db, nil_pointer-ne-out_of_fuel}
use go_sqlite_rsync.Sync.Replica.{
  respond, replica_loop, answer_messages, announce, errors, close_insert, run_deferred,
  start_replica, chosen_run, replica_side,
}

-- With more fuel than the input has bytes, the loop returns or reports an error of the program.
replica_loop-enough :
    (f : ℕ) (s : Rsync) → length s.reader.input < f → (replica_loop f s).0 ≢ err out_of_fuel
unfolding replica_loop
replica_loop-enough zero s h = absurd (omega arith)
replica_loop-enough (suc f) s h = pass (λ s' le. replica_loop-enough f s' le) (next_message s) refl
  where
    after : Bool → Run (Unit {0})
    after goes_on = if goes_on then replica_loop f else pure tt

    Enough : Type 0
    Enough = (s' : Rsync) → length s'.reader.input < f → (replica_loop f s').0 ≢ err out_of_fuel

    go_on :
        Enough
        → (r : Result RunError Bool × Rsync) → r.0 ≢ err out_of_fuel
        → length r.1.reader.input < f
        → (bind r after).0 ≢ err out_of_fuel
    go_on loop (ok false, s') never shorter e = ground (arith, e)
    go_on loop (ok true, s') never shorter e = loop s' shorter e
    go_on loop (err x, s') never shorter e = ground (arith, never, e)

    pass :
        Enough
        → (r : Result RunError (Option ℕ) × Rsync) → next_message s ≡ r
        → (bind r (λ c. elim c [ none ↦ pure tt | some c ↦ respond c >>= after ])).0
          ≢ err out_of_fuel
    pass loop (ok none, s') eq e = ground (arith, e)
    pass loop (ok (some c), s') eq e =
        let taken = next_message-shorter s c s.reader.input refl (ap (λ r. r.0) eq) in
        let p = Progress-respond c in
        go_on loop (respond c s') (p.never s')
          (omega (arith, p.shorter s', taken, h, ap (λ r. length r.1.reader.input) eq)) e
    pass loop (err x, s') eq e = ground (arith, next_message-Never s, eq, e)

pub Progress-announce : Progress announce
unfolding announce
Progress-announce = record {
  never = λ s. (Progress-writing (say s)).never s;
  shorter = λ s. (Progress-writing (say s)).shorter s;
}
  where
    say : Rsync → Write
    say s = do
      write_message replica_msg (s.env.announcement s.protocol)
      write_byte replica_end
      flush

pub Progress-close_insert : Progress close_insert
unfolding close_insert
Progress-close_insert = search (progress_rules, nil_pointer-ne-out_of_fuel) depth 12

Progress-set_role :
    Progress (modify {S = Rsync} {E = RunError} (λ s. record s { is_replica = true }))
Progress-set_role = Progress-modify _ (λ s. refl)

pub Progress-start_replica : Progress start_replica
unfolding start_replica
Progress-start_replica = search (progress_rules, Progress-set_role) depth 12

answer_messages-Never : Never out_of_fuel answer_messages
unfolding answer_messages
answer_messages-Never =
    Never-bind set_protocol (λ u s. replica_loop (length s.reader.input + 1) s)
      (Progress-modify default (λ s. refl)).never
      (λ u s. replica_loop-enough (length s.reader.input + 1) s (omega arith))
  where
    default : Rsync → Rsync
    default s = record s { protocol = if s.protocol == 0 then protocol_version else s.protocol }

    set_protocol : Run (Unit {0})
    set_protocol = modify default

-- What runs at the end, and the errors that come of it.
errors-Never :
    {A : Type 0} (r : Result RunError A)
    → r ≢ err out_of_fuel
    → All (λ e. e ≢ out_of_fuel) (errors r)
errors-Never (ok a) h = tt
errors-Never (err e) h = (λ x. h (ap err x), tt)

run_deferred-Never :
    (r : Result RunError (Unit {0}) × Rsync)
    → r.0 ≢ err out_of_fuel
    → All (λ e. e ≢ out_of_fuel) (run_deferred r).0
unfolding run_deferred
run_deferred-Never (r, s) h =
    let (r1, s1) = close_insert s in
    let (r2, s2) = close_db s1 in
    All-append (λ e. e ≢ out_of_fuel) (errors r) (errors r1 ++ errors r2) (errors-Never r h)
      (All-append (λ e. e ≢ out_of_fuel) (errors r1) (errors r2)
        (errors-Never r1 (Progress-close_insert.never s))
        (errors-Never r2 (Progress-close_db.never s1)))

-- replicaSide always ends: with what stands in its input, it returns or reports errors of the
-- program, for every database and every stream.
pub replica_side-returns : (s : Rsync) → All (λ e. e ≢ out_of_fuel) (replica_side s).0
unfolding replica_side
replica_side-returns s = chosen (start_replica s) (Progress-start_replica.never s)
  where
    chosen :
        (r : Result RunError Bool × Rsync)
        → r.0 ≢ err out_of_fuel
        → All (λ e. e ≢ out_of_fuel) (chosen_run r).0
    chosen (ok true, s') h = errors-Never (announce s').0 (Progress-announce.never s')
    chosen (ok false, s') h = run_deferred-Never (answer_messages s') (answer_messages-Never s')
    chosen (err e, s') h = (λ x. h (ap err x), tt)
