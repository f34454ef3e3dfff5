-- ===== src/Sync/Replica/Atomic/Loop.antt =====
-- sqlitersync/replica.go: the message loop until ORIGIN_TXN.
use go_sqlite_rsync.Common.{
  ℕ, zero, suc, ◌≡◌, ◌≢◌, ◌⊎◌, inl, inr, refl, sym, ap, subst, ◌∙◌, Bool, true, false, Option, none,
  some, ◌==◌, if◌then◌else◌, arith,
}
use go_sqlite_rsync.Common.Act.{Result, ok, err, bind, pure, ◌>>=◌}
use go_sqlite_rsync.Wire.{
  origin_begin, origin_end, origin_error, origin_page, origin_txn, origin_msg, origin_detail,
  origin_ready,
}
use go_sqlite_rsync.Sync.Run.{Rsync, Run, RunError, unknown_message}
use go_sqlite_rsync.Sync.Run.Keeps.{Keeps-pure, Keeps-write_error}
use go_sqlite_rsync.Sync.Origin.{next_message}
use go_sqlite_rsync.Sync.Replica.Begin.{on_begin}
use go_sqlite_rsync.Sync.Replica.Page.{on_page}
use go_sqlite_rsync.Sync.Replica.Untouched.{
  standing, Frame-standing, Keeps-drop_message, Keeps-on_origin_error, Keeps-on_detail,
  Keeps-on_origin_ready,
}
use go_sqlite_rsync.Sync.Replica.Atomic.{Leaves, Leaves-Keeps, Leaves-bind, Leaves-if, Safe}
use go_sqlite_rsync.Sync.Replica.Atomic.Page.{Leaves-on_page}
use go_sqlite_rsync.Sync.Replica.Atomic.Begin.{Leaves-on_begin}
use go_sqlite_rsync.Sync.Replica.{
  drop_message, on_origin_error, on_detail, on_origin_ready, answered, respond, replica_loop,
}

Leaves-answered : (m : Run (Unit {0})) → Leaves Safe Safe m → Leaves Safe Safe (answered m)
Leaves-answered m h = Leaves-bind m (λ u. pure true) h (λ u. Leaves-Keeps _ (Keeps-pure true))

-- Every message but ORIGIN_TXN leaves the file on disk as it is.
Leaves-respond : (c : ℕ) → c ≢ origin_txn → Leaves Safe Safe (respond c)
unfolding respond
Leaves-respond c other =
    Leaves-if (c == origin_msg) _ _
      (λ e. Leaves-answered drop_message (Leaves-Keeps _ Keeps-drop_message))
      (λ e.
        Leaves-if (c == origin_error) _ _
          (λ e. Leaves-answered on_origin_error (Leaves-Keeps _ Keeps-on_origin_error))
          (λ e.
            Leaves-if (c == origin_end) _ _ (λ e. Leaves-Keeps _ (Keeps-pure false))
              (λ e.
                Leaves-if (c == origin_begin) _ _ (λ e. Leaves-answered on_begin Leaves-on_begin)
                  (λ e.
                    Leaves-if (c == origin_detail) _ _
                      (λ e. Leaves-answered on_detail (Leaves-Keeps _ Keeps-on_detail))
                      (λ e.
                        Leaves-if (c == origin_ready) _ _
                          (λ e.
                            Leaves-answered on_origin_ready (Leaves-Keeps _ Keeps-on_origin_ready))
                          (λ e.
                            Leaves-if (c == origin_txn) _ _
                              (λ e. absurd (other (ground (arith, e))))
                              (λ e.
                                Leaves-if (c == origin_page) _ _
                                  (λ e. Leaves-answered on_page Leaves-on_page)
                                  (λ e.
                                    Leaves-Keeps _
                                      (Keeps-write_error (unknown_message c) Frame-standing)))))))))

-- From `s` the loop gets to `s'`, message by message.
pub data Answers : Rsync → Rsync → Type 0 where
  here : {s : Rsync} → Answers s s
  answer :
      {c : ℕ} {s s1 s2 s' : Rsync}
      → next_message s ≡ (ok (some c), s1)
      → respond c s1 ≡ (ok true, s2)
      → Answers s2 s'
      → Answers s s'

-- The loop that begins at `s` comes to ORIGIN_TXN, with `file` on disk.
pub record Commits (s : Rsync) : Type 0 where
  pub before : Rsync
  pub taken : Rsync
  pub answers : Answers s before
  pub asked : next_message before ≡ (ok (some origin_txn), taken)
  pub saved : before.db.saved ≡ s.db.saved

abbrev pub OnlyCommits : Rsync → Rsync → Type 0
OnlyCommits s s' = (s'.db.saved ≡ s.db.saved) ⊎ Commits s

next_message-standing : (s : Rsync) → standing (next_message s).1 ≡ standing s
unfolding next_message
next_message-standing s = refl

pub replica_loop-OnlyCommits :
    (f : ℕ) (s : Rsync) → Safe (standing s) → OnlyCommits s (replica_loop f s).1
unfolding replica_loop
replica_loop-OnlyCommits zero s safe = inl refl
replica_loop-OnlyCommits (suc f) s safe =
    pass (λ s' p. replica_loop-OnlyCommits f s' p) (next_message s) refl (next_message-standing s)
  where
    after : Bool → Run (Unit {0})
    after goes_on = if goes_on then replica_loop f else pure tt

    Rest : Type 0
    Rest = (s' : Rsync) → Safe (standing s') → OnlyCommits s' (replica_loop f s').1

    later :
        {c : ℕ} {s1 s2 : Rsync} (s' : Rsync)
        → next_message s ≡ (ok (some c), s1)
        → respond c s1 ≡ (ok true, s2)
        → s2.db.saved ≡ s.db.saved
        → OnlyCommits s2 s'
        → OnlyCommits s s'
    later s' m h e (inl same) = inl (same ∙ e)
    later s' m h e (inr c) = inr (record {
      before = c.before;
      taken = c.taken;
      answers = answer m h c.answers;
      asked = c.asked;
      saved = c.saved ∙ e;
    })

    go_on :
        Rest
        → {c : ℕ} {s1 : Rsync} → next_message s ≡ (ok (some c), s1)
        → (r : Result RunError Bool × Rsync) → respond c s1 ≡ r
        → r.1.db.saved ≡ s.db.saved
        → ((b : Bool) → r.0 ≡ ok b → Safe (standing r.1))
        → OnlyCommits s (bind r after).1
    go_on loop m (ok true, s2) h e safe' =
        later (replica_loop f s2).1 m h e (loop s2 (safe' true refl))
    go_on loop m (ok false, s2) h e safe' = inl e
    go_on loop m (err x, s2) h e safe' = inl e

    handled :
        Rest
        → (c : ℕ) (s1 : Rsync) → next_message s ≡ (ok (some c), s1)
        → standing s1 ≡ standing s
        → (b : Bool) → (c == origin_txn) ≡ b
        → OnlyCommits s (bind (respond c s1) after).1
    handled loop c s1 m e true is_txn =
        let same : c ≡ origin_txn = ground (arith, is_txn) in
        inr (record {
          before = s;
          taken = s1;
          answers = here;
          asked = m ∙ ap (λ n. (ok (some n), s1)) same;
          saved = refl;
        })
    handled loop c s1 m e false other =
        let step = Leaves-respond c (λ same. ground (arith, other, same)) in
        let safe1 = subst Safe (sym e) safe in
        go_on loop m (respond c s1) refl (step.saved s1 safe1 ∙ ap (λ v. v.saved) e)
          (step.ends s1 safe1)

    pass :
        Rest
        → (r : Result RunError (Option ℕ) × Rsync) → next_message s ≡ r
        → standing r.1 ≡ standing s
        → OnlyCommits s (bind r (λ c. elim c [ none ↦ pure tt | some c ↦ respond c >>= after ])).1
    pass loop (ok none, s') m e = inl (ap (λ v. v.saved) e)
    pass loop (ok (some c), s') m e = handled loop c s' m e (c == origin_txn) refl
    pass loop (err x, s') m e = inl (ap (λ v. v.saved) e)
