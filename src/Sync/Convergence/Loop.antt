-- ===== src/Sync/Convergence/Loop.antt =====
-- sqlitersync/origin.go: the message loop on a round and its end.
use go_sqlite_rsync.Common.{
  ℕ, suc, ◌+◌, ◌≤◌, ◌≡◌, ◌⊎◌, inl, inr, refl, sym, ap, subst, ◌∙◌, Option, none, some, List, [],
  ◌∷◌, ◌++◌, length, arith,
}
use go_sqlite_rsync.Common.Act.{Result, ok, err, bind, pure, ◌>>=◌, ◌>>◌}
use go_sqlite_rsync.Common.Words.{u32}
use go_sqlite_rsync.Wire.{replica_ready}
use go_sqlite_rsync.Wire.Writer.{Writer, flush}
use go_sqlite_rsync.Wire.Writer.Pending.{pending}
use go_sqlite_rsync.Wire.RoundTrip.{after_read}
use go_sqlite_rsync.Sync.Table.{Table, multi}
use go_sqlite_rsync.Sync.Subdivide.Tiles.{KeysBelow}
use go_sqlite_rsync.Sync.Run.{Rsync, Run, RunError, writing}
use go_sqlite_rsync.Sync.Run.Healthy.{Healthy, tick}
use go_sqlite_rsync.Sync.Run.Progress.{Progress, Progress-bind, Progress-writing}
use go_sqlite_rsync.Sync.Run.Emits.{Outgoing}
use go_sqlite_rsync.Sync.Exchange.Finish.{Delivered}
use go_sqlite_rsync.Sync.Exchange.Receive.{next_message-byte}
use go_sqlite_rsync.Sync.Origin.Fuel.{next_message-shorter}
use go_sqlite_rsync.Sync.Origin.Progress.{Progress-handle, Progress-transfer}
use go_sqlite_rsync.Sync.Origin.Loop.{Locals}
use go_sqlite_rsync.Sync.Origin.Passes.{Passes, here, pass, passes}
use go_sqlite_rsync.Sync.Origin.Transfer.{file_of}
use go_sqlite_rsync.Sync.Origin.Ready.{transfer}
use go_sqlite_rsync.Sync.Origin.{done, again, next_message, handle, origin_loop}
use go_sqlite_rsync.Sync.Convergence.Answer.{answer_bytes, on_ready-transfer, on_ready-Delivered}

-- Each pass takes a byte at least.
pub passes-input :
    {v v' : Locals} {s s' : Rsync} (p : Passes v s v' s')
    → passes p + length s'.reader.input ≤ length s.reader.input
passes-input here = omega arith
passes-input (pass {c} {v} {v1} {v'} {s} {s1} {s2} {s'} m h p) =
    let taken = next_message-shorter s c s.reader.input refl (ap (λ r. r.0) m) in
    omega (
      arith,
      taken,
      passes-input p,
      ((Progress-handle c v).shorter s1).input,
      ap (λ r. length r.1.reader.input) m,
      ap (λ r. length r.1.reader.input) h,
    )

-- With nothing left to read, the loop ends and sends nothing.
origin_loop-end :
    (f : ℕ) (v : Locals) (s : Rsync)
    → length s.reader.input ≤ 0
    → (origin_loop (suc f) v s).1.writer ≡ s.writer
unfolding origin_loop
origin_loop-end f v s h = ended (next_message s) refl (same_writer s)
  where
    same_writer : (s : Rsync) → (next_message s).1.writer ≡ s.writer
    same_writer s = unfold next_message in refl

    pass_on : Option ℕ → Run (Unit {0})
    pass_on c = elim c [
      | none ↦ pure tt
      | some c ↦ handle c v >>= λ next. elim next [ done ↦ pure tt | again v ↦ origin_loop f v ]
    ]

    ended :
        (r : Result RunError (Option ℕ) × Rsync)
        → next_message s ≡ r
        → r.1.writer ≡ s.writer
        → (bind r pass_on).1.writer ≡ s.writer
    ended (ok none, s1) e w = w
    ended (ok (some c), s1) e w =
        absurd (omega (arith, h, next_message-shorter s c s.reader.input refl (ap (λ r. r.0) e)))
    ended (err x, s1) e w = w

-- The stream has all of `p` after what `w` had accepted, or an error came back and it has a first part.
abbrev pub Sent : Writer → List ℕ → Result RunError (Unit {0}) × Rsync → Type 0
Sent w p r =
    (r.1.writer.delivered ≡ pending w ++ p)
    ⊎ ((x : RunError) × (lost : List ℕ) × (r.0 ≡ err x)
        × (r.1.writer.delivered ++ lost ≡ pending w ++ p))

-- The last message of a round, and the loop after it.
after_ready :
    (f : ℕ) (v : Locals) (s s1 : Rsync) (t : Table)
    → next_message s ≡ (ok (some replica_ready), s1)
    → Healthy s1.env
    → s1.db.bad_hash ≡ some t
    → multi t ≡ []
    → origin_loop (suc f) v s
      ≡ bind
          ((transfer v >> writing flush)
            (tick (tick (tick (record s1 { hash_rounds = u32 (s1.hash_rounds + 1) })))))
          (λ u. origin_loop f v)
unfolding origin_loop handle
after_ready f v s s1 t m h there single =
    let s' = tick (tick (tick (record s1 { hash_rounds = u32 (s1.hash_rounds + 1) }))) in
    simp (m, on_ready-transfer v s1 t h there single, origin_loop, handle) (assoc (transfer v s'))
  where
    assoc_flush :
        (r : Result RunError (Unit {0}) × Rsync)
        → bind (bind (bind r (λ u. pure v)) (λ v. pure (again v))) (λ next.
          elim next as (λ x. Run (Unit {0})) [ done ↦ pure tt | again v ↦ origin_loop f v ])
          ≡ bind r (λ u. origin_loop f v)
    assoc_flush (ok u, s) = refl
    assoc_flush (err e, s) = refl

    assoc :
        (r : Result RunError (Unit {0}) × Rsync)
        → bind (bind (bind r (λ u. writing flush >> pure v)) (λ v. pure (again v))) (λ next.
          elim next as (λ x. Run (Unit {0})) [ done ↦ pure tt | again v ↦ origin_loop f v ])
          ≡ bind (bind r (λ u. writing flush)) (λ u. origin_loop f v)
    assoc (ok u, s) = assoc_flush (writing flush s)
    assoc (err e, s) = refl

Progress-sent : (v : Locals) → Progress (transfer v >> writing flush)
Progress-sent v =
    Progress-bind (transfer v) (λ u. writing flush) (Progress-transfer v)
      (λ u. Progress-writing flush)

-- REPLICA_READY at the end of the input.
pub round_end :
    (f : ℕ) (v : Locals) (s : Rsync) (t : Table)
    → Outgoing (file_of s) s
    → s.reader.input ≡ replica_ready ∷ []
    → s.db.bad_hash ≡ some t
    → multi t ≡ []
    → KeysBelow v.mx_hash t
    → Sent s.writer (answer_bytes v s t) (origin_loop (suc (suc f)) v s)
round_end f v s t out input there single below =
    let s1 = record s { reader = after_read s.reader 1 [] } in
    let s' = tick (tick (tick (record s1 { hash_rounds = u32 (s1.hash_rounds + 1) }))) in
    let sent = (transfer v >> writing flush) s' in
    subst (Sent s.writer (answer_bytes v s t))
      (sym (
        after_ready (suc f) v s s1 t (next_message-byte s replica_ready [] input) out.healthy there
          single))
      (go sent
        (on_ready-Delivered v s1 t
          (record {
            healthy = out.healthy;
            page = refl;
            count = refl;
            ready = out.ready;
            fits = out.fits;
          })
          there single below)
        ((Progress-sent v).shorter s').input)
  where
    w : Writer
    w = s.writer

    p : List ℕ
    p = answer_bytes v s t

    go :
        (r : Result RunError (Unit {0}) × Rsync)
        → Delivered w p r
        → length r.1.reader.input ≤ 0
        → Sent w p (bind r (λ u. origin_loop (suc f) v))
    go (ok u, s2) (inl (d, a)) empty =
        inl (ap (λ w. w.delivered) (origin_loop-end f v s2 empty) ∙ a)
    go (err x, s2) (inl (d, a)) empty = absurd (ground (arith, d))
    go (ok u, s2) (inr (x, lost, d, a)) empty = absurd (ground (arith, d))
    go (err y, s2) (inr (x, lost, d, a)) empty = inr (y, lost, refl, a)
