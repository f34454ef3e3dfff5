-- ===== src/Sync/Public/Received.antt =====
-- sqlitersync/sync.go: the bytes that a run counts as received.
use go_sqlite_rsync.Common.{
  ℕ, zero, suc, ◌+◌, ◌≤◌, ◌≡◌, refl, Bool, true, false, Option, none, some, length, length-take,
  ◌==◌, min, if◌then◌else◌, arith,
}
use go_sqlite_rsync.Common.Act.{Result, ok, err, pure, ◌>>=◌, ◌>>◌, modify, gets}
use go_sqlite_rsync.Common.Act.Steps.{Moves, Moves-bind}
use go_sqlite_rsync.Wire.{protocol_version}
use go_sqlite_rsync.Sync.Run.{Rsync, Run, RunError, Env, Database, call, or_driver}
use go_sqlite_rsync.Sync.Run.Reads.{Shorter, Shorter-refl, Shorter-trans, Moves-read_byte}
use go_sqlite_rsync.Sync.Run.Progress.{Progress-or_driver, Quiet-call}
use go_sqlite_rsync.Sync.Options.{Options, new_rsync, stats}
use go_sqlite_rsync.Sync.Origin.Loop.{Locals, first_locals}
use go_sqlite_rsync.Sync.Origin.Progress.{Progress-handle}
use go_sqlite_rsync.Sync.Origin.Fuel.{
  Progress-comm_check, Progress-open_origin, Progress-lock_byte_page,
}
use go_sqlite_rsync.Sync.Origin.{
  next_message, Next, done, again, handle, origin_loop, message_loop, comm_check, open_origin,
  lock_byte_page, synchronize, origin_side,
}
use go_sqlite_rsync.Sync.Replica.Progress.{Progress-respond}
use go_sqlite_rsync.Sync.Replica.Progress.Begin.{Progress-close_db}
use go_sqlite_rsync.Sync.Replica.Fuel.{
  Progress-announce, Progress-close_insert, Progress-start_replica,
}
use go_sqlite_rsync.Sync.Replica.Begin.{close_db}
use go_sqlite_rsync.Sync.Replica.{
  respond, replica_loop, answer_messages, announce, close_insert, run_deferred, start_replica,
  chosen_run, replica_side,
}
use go_sqlite_rsync.Sync.Public.{Context, Stream, ctx_read, new_run, origin, replica}

-- Nothing is counted that was not taken from the input.
abbrev Counts : Rsync → Rsync → Type 0
Counts s s' = Shorter s.reader s'.reader

Counts-trans : (a b c : Rsync) → Counts a b → Counts b c → Counts a c
Counts-trans a b c = Shorter-trans a.reader b.reader c.reader

Counts-bind :
    {A B : Type 0} (m : Run A) (k : A → Run B)
    → Moves Counts m
    → ((a : A) → Moves Counts (k a))
    → Moves Counts (m >>= k)
Counts-bind m k = Moves-bind m k Counts-trans

Counts-next_message : Moves Counts next_message
unfolding next_message
Counts-next_message s = Moves-read_byte s.reader

Counts-origin_loop : (f : ℕ) (v : Locals) → Moves Counts (origin_loop f v)
unfolding origin_loop
Counts-origin_loop zero v = λ s. Shorter-refl s.reader
Counts-origin_loop (suc f) v =
    Counts-bind next_message answer Counts-next_message (pass (λ v. Counts-origin_loop f v))
  where
    after : Next → Run (Unit {0})
    after next = elim next [ done ↦ pure tt | again v ↦ origin_loop f v ]

    answer : Option ℕ → Run (Unit {0})
    answer c = elim c [ none ↦ pure tt | some c ↦ handle c v >>= after ]

    Counts-after :
        ((v : Locals) → Moves Counts (origin_loop f v)) → (n : Next) → Moves Counts (after n)
    Counts-after loop done = λ s. Shorter-refl s.reader
    Counts-after loop (again v) = loop v

    pass :
        ((v : Locals) → Moves Counts (origin_loop f v)) → (c : Option ℕ) → Moves Counts (answer c)
    pass loop none = λ s. Shorter-refl s.reader
    pass loop (some c) =
        Counts-bind (handle c v) after (Progress-handle c v).shorter (Counts-after loop)

Counts-message_loop : (v : Locals) → Moves Counts (message_loop v)
unfolding message_loop
Counts-message_loop v s = Counts-origin_loop (length s.reader.input + 1) v s

Counts-synchronize : Moves Counts synchronize
unfolding synchronize
Counts-synchronize =
    Counts-bind open_origin (λ u. gets (λ s. s.page_bytes) >>= with_size)
      Progress-open_origin.shorter
      (λ u.
        Counts-bind (gets (λ s. s.page_bytes)) with_size (λ s. Shorter-refl s.reader)
          (λ n.
            Counts-bind (lock_byte_page n) (λ lock. message_loop (first_locals lock))
              (Progress-lock_byte_page n).shorter
              (λ lock. Counts-message_loop (first_locals lock))))
  where
    with_size : ℕ → Run (Unit {0})
    with_size n = lock_byte_page n >>= λ lock. message_loop (first_locals lock)

Counts-origin_side : Moves Counts origin_side
unfolding origin_side
Counts-origin_side =
    Counts-bind (or_driver call) (λ u. set_role >> (gets (λ s. s.comm_check) >>= choose))
      (Progress-or_driver call Quiet-call).shorter
      (λ u.
        Counts-bind set_role (λ u. gets (λ s. s.comm_check) >>= choose) (λ s. Shorter-refl s.reader)
          (λ u. Counts-bind (gets (λ s. s.comm_check)) choose (λ s. Shorter-refl s.reader) chosen))
  where
    set_role : Run (Unit {0})
    set_role = modify (λ s. record s { is_replica = false })

    choose : Bool → Run (Unit {0})
    choose b = if b then comm_check else synchronize

    chosen : (b : Bool) → Moves Counts (choose b)
    chosen true = Progress-comm_check.shorter
    chosen false = Counts-synchronize

Counts-replica_loop : (f : ℕ) → Moves Counts (replica_loop f)
unfolding replica_loop
Counts-replica_loop zero = λ s. Shorter-refl s.reader
Counts-replica_loop (suc f) =
    Counts-bind next_message answer Counts-next_message (pass (Counts-replica_loop f))
  where
    after : Bool → Run (Unit {0})
    after goes_on = if goes_on then replica_loop f else pure tt

    answer : Option ℕ → Run (Unit {0})
    answer c = elim c [ none ↦ pure tt | some c ↦ respond c >>= after ]

    Counts-after : Moves Counts (replica_loop f) → (b : Bool) → Moves Counts (after b)
    Counts-after loop true = loop
    Counts-after loop false = λ s. Shorter-refl s.reader

    pass : Moves Counts (replica_loop f) → (c : Option ℕ) → Moves Counts (answer c)
    pass loop none = λ s. Shorter-refl s.reader
    pass loop (some c) =
        Counts-bind (respond c) after (Progress-respond c).shorter (Counts-after loop)

Counts-answer_messages : Moves Counts answer_messages
unfolding answer_messages
Counts-answer_messages =
    Counts-bind (modify default) looping (λ s. Shorter-refl s.reader)
      (λ u s. Counts-replica_loop (length s.reader.input + 1) s)
  where
    default : Rsync → Rsync
    default s = record s { protocol = if s.protocol == 0 then protocol_version else s.protocol }

    looping : Unit {0} → Run (Unit {0})
    looping u s = replica_loop (length s.reader.input + 1) s

Counts-run_deferred : (r : Result RunError (Unit {0}) × Rsync) → Counts r.1 (run_deferred r).1
unfolding run_deferred
Counts-run_deferred (r, s) =
    Counts-trans s (close_insert s).1 (close_db (close_insert s).1).1
      (Progress-close_insert.shorter s) (Progress-close_db.shorter (close_insert s).1)

Counts-replica_side : (s : Rsync) → Counts s (replica_side s).1
unfolding replica_side
Counts-replica_side s = chosen (start_replica s) (Progress-start_replica.shorter s)
  where
    chosen : (r : Result RunError Bool × Rsync) → Counts s r.1 → Counts s (chosen_run r).1
    chosen (ok true, s') h = Counts-trans s s' (announce s').1 h (Progress-announce.shorter s')
    chosen (ok false, s') h = Counts-trans s s' (run_deferred (answer_messages s')).1 h (
        Counts-trans s' (answer_messages s').1 (run_deferred (answer_messages s')).1
          (Counts-answer_messages s') (Counts-run_deferred (answer_messages s')))
    chosen (err e, s') h = h

-- The bytes that came in before the context was found cancelled.
abbrev pub came_in : Context → Stream → ℕ
came_in ctx rw = elim ctx.at_read [ none ↦ length rw.input | some (n, e) ↦ min n (length rw.input) ]

length-ctx_read :
    (o : Option (ℕ × ℕ)) (rw : Stream)
    → length (ctx_read o rw).0
      ≡ (elim o as (λ x. ℕ) [ none ↦ length rw.input | some (n, e) ↦ min n (length rw.input) ])
unfolding ctx_read
length-ctx_read none rw = refl
length-ctx_read (some (n, e)) rw = ground (arith, length-take n rw.input)

-- Origin and Replica count no more bytes as received than came in before the context was found
-- cancelled, whatever the run does.
pub bytes_received_bound :
    (env : Env) (db : Database) (ctx : Context) (rw : Stream) (opts : Options)
    → ((origin env db ctx rw opts).0.bytes_received ≤ came_in ctx rw)
      × ((replica env db ctx rw opts).0.bytes_received ≤ came_in ctx rw)
unfolding origin replica new_run new_rsync stats
bytes_received_bound env db ctx rw opts =
    let s = new_run env db ctx rw opts in
    let came = length-ctx_read ctx.at_read rw in
    (
      omega (arith, came, (Counts-origin_side s).counted),
      omega (arith, came, (Counts-replica_side s).counted),
    )
