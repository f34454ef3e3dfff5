-- ===== src/Sync/Origin/Fuel.antt =====
-- sqlitersync/origin.go: the fuel of the message loop.
use go_sqlite_rsync.Common.{
  ℕ, zero, suc, ◌+◌, ◌<◌, ◌≡◌, ◌≢◌, refl, ap, Bool, true, false, Option, none, some, List, [], ◌∷◌,
  length, ◌==◌, leb, arith, if◌then◌else◌,
}
use go_sqlite_rsync.Common.Act.{Result, ok, err, pure, ◌>>=◌, ◌>>◌, bind, modify, gets}
use go_sqlite_rsync.Common.Act.Steps.{Never, Never-bind}
use go_sqlite_rsync.Wire.{WireError, eof, origin_msg, origin_end, protocol_version}
use go_sqlite_rsync.Wire.Writer.{Write, write_byte, write_message, flush}
use go_sqlite_rsync.Wire.Reader.{read_byte, read_full, Ending, closed, fails, short_read}
use go_sqlite_rsync.Sync.Run.{call, or_driver, Rsync, Run, RunError, out_of_fuel, divide_by_zero}
use go_sqlite_rsync.Sync.Run.Progress.{
  Progress, progress_rules, Progress-or_driver, Quiet-call, Progress-modify, Progress-writing,
  Progress-gets,
}
use go_sqlite_rsync.Sync.Origin.Progress.{Progress-handle, Progress-send_begin}
use go_sqlite_rsync.Sync.Origin.Loop.{Locals, first_locals}
use go_sqlite_rsync.Sync.Origin.{
  or_end, done, again, handle, Next, next_message, origin_loop, comm_check, open_file,
  check_journal_mode, lock_byte_page, open_origin, synchronize, message_loop, origin_side,
}

-- A pass that goes on has taken a byte.
pub next_message-shorter :
    (s : Rsync) (c : ℕ) (xs : List ℕ)
    → s.reader.input ≡ xs
    → (next_message s).0 ≡ ok (some c)
    → length (next_message s).1.reader.input < length s.reader.input
unfolding next_message read_byte read_full
next_message-shorter s c [] e h = absurd (no_byte s.reader.ending (rw e at h))
  where
    no_byte : (end : Ending) → or_end (err (short_read end [])) ≢ ok (some c)
    no_byte closed x = ground (arith, x)
    no_byte (fails n) x = ground (arith, x)
next_message-shorter s c (x ∷ xs) e h =
    let more : leb 1 (length (x ∷ xs)) ≡ true = ground arith in rw (e, more) (omega arith)

pub next_message-Never : Never out_of_fuel next_message
unfolding next_message
next_message-Never s = never (read_byte s.reader).0
  where
    never : (r : Result WireError ℕ) → or_end r ≢ err out_of_fuel
    never (ok c) e = ground (arith, e)
    never (err eof) e = ground (arith, e)
    never (err _) e = ground (arith, e)

-- With more fuel than the input has bytes, the loop returns or reports an error of the program.
pub origin_loop-enough :
    (f : ℕ) (v : Locals) (s : Rsync)
    → length s.reader.input < f
    → (origin_loop f v s).0 ≢ err out_of_fuel
unfolding origin_loop
origin_loop-enough zero v s h = absurd (omega arith)
origin_loop-enough (suc f) v s h =
    pass (λ v' s' le. origin_loop-enough f v' s' le) (next_message s) refl
  where
    after : (next : Next) → Run (Unit {0})
    after next = elim next [ done ↦ pure tt | again v ↦ origin_loop f v ]

    Enough : Type 0
    Enough =
        (v' : Locals) (s' : Rsync)
        → length s'.reader.input < f
        → (origin_loop f v' s').0 ≢ err out_of_fuel

    go_on :
        Enough
        → (r : Result RunError Next × Rsync) → r.0 ≢ err out_of_fuel
        → length r.1.reader.input < f
        → (bind r after).0 ≢ err out_of_fuel
    go_on loop (ok done, s') never shorter e = ground (arith, e)
    go_on loop (ok (again v'), s') never shorter e = loop v' s' shorter e
    go_on loop (err x, s') never shorter e = ground (arith, never, e)

    pass :
        Enough
        → (r : Result RunError (Option ℕ) × Rsync) → next_message s ≡ r
        → (bind r (λ c. elim c [ none ↦ pure tt | some c ↦ handle c v >>= after ])).0
          ≢ err out_of_fuel
    pass loop (ok none, s') eq e = ground (arith, e)
    pass loop (ok (some c), s') eq e =
        let taken = next_message-shorter s c s.reader.input refl (ap (λ r. r.0) eq) in
        let p = Progress-handle c v in
        go_on loop (handle c v s') (p.never s')
          (omega (arith, p.shorter s', taken, h, ap (λ r. length r.1.reader.input) eq)) e
    pass loop (err x, s') eq e = ground (arith, next_message-Never s, eq, e)

pub Progress-comm_check : Progress comm_check
unfolding comm_check
Progress-comm_check = record {
  never = λ s. (Progress-writing (say s)).never s;
  shorter = λ s. (Progress-writing (say s)).shorter s;
}
  where
    say : Rsync → Write
    say s = do
      write_message origin_msg (s.env.announcement s.protocol)
      write_byte origin_end
      flush

Progress-open_file : Progress open_file
unfolding open_file
Progress-open_file = search progress_rules

Progress-check_journal_mode : Progress check_journal_mode
unfolding check_journal_mode
Progress-check_journal_mode = search progress_rules depth 12

divide_by_zero-ne-out_of_fuel : divide_by_zero ≢ out_of_fuel
divide_by_zero-ne-out_of_fuel e = ground (arith, e)

pub Progress-lock_byte_page : (n : ℕ) → Progress (lock_byte_page n)
unfolding lock_byte_page
Progress-lock_byte_page n = search (progress_rules, divide_by_zero-ne-out_of_fuel)

Progress-set_protocol : Progress (
    modify {S = Rsync} {E = RunError}
      (λ s. record s { protocol = if s.protocol == 0 then protocol_version else s.protocol }))
Progress-set_protocol = Progress-modify _ (λ s. refl)

Progress-set_shape :
    (pages page_bytes : ℕ)
    → Progress (
        modify {S = Rsync} {E = RunError}
          (λ s. record s { pages = pages; page_bytes = page_bytes }))
Progress-set_shape pages page_bytes = Progress-modify _ (λ s. refl)

pub Progress-open_origin : Progress open_origin
unfolding open_origin
Progress-open_origin =
    search
      (
        progress_rules, Progress-set_protocol, Progress-open_file, Progress-check_journal_mode,
        Progress-send_begin, Progress-set_shape,
      )
      depth 14

message_loop-Never : (v : Locals) → Never out_of_fuel (message_loop v)
unfolding message_loop
message_loop-Never v s = origin_loop-enough (length s.reader.input + 1) v s (omega arith)

synchronize-Never : Never out_of_fuel synchronize
unfolding synchronize
synchronize-Never =
    Never-bind open_origin (λ u. gets (λ s. s.page_bytes) >>= with_size) Progress-open_origin.never
      (λ u.
        Never-bind (gets (λ s. s.page_bytes)) with_size (Progress-gets (λ s. s.page_bytes)).never
          (λ n.
            Never-bind (lock_byte_page n) (λ lock. message_loop (first_locals lock))
              (Progress-lock_byte_page n).never (λ lock. message_loop-Never (first_locals lock))))
  where
    with_size : ℕ → Run (Unit {0})
    with_size n = lock_byte_page n >>= λ lock. message_loop (first_locals lock)

-- originSide always ends: with what stands in its input, it returns or reports an error of the
-- program, for every database and every stream.
pub origin_side-returns : (s : Rsync) → (origin_side s).0 ≢ err out_of_fuel
unfolding origin_side
origin_side-returns =
    Never-bind (or_driver call) (λ u. prepared) (Progress-or_driver call Quiet-call).never
      (λ u.
        Never-bind set_role (λ u. gets (λ s. s.comm_check) >>= choose)
          (Progress-modify (λ s. record s { is_replica = false }) (λ s. refl)).never
          (λ u.
            Never-bind (gets (λ s. s.comm_check)) choose (Progress-gets (λ s. s.comm_check)).never
              choose-Never))
  where
    choose : Bool → Run (Unit {0})
    choose b = if b then comm_check else synchronize

    set_role : Run (Unit {0})
    set_role = modify (λ s. record s { is_replica = false })

    prepared : Run (Unit {0})
    prepared = set_role >> (gets (λ s. s.comm_check) >>= choose)

    choose-Never : (b : Bool) → Never out_of_fuel (choose b)
    choose-Never true = Progress-comm_check.never
    choose-Never false = synchronize-Never
