-- ===== src/Sync/Origin/Passes.antt =====
-- sqlitersync/origin.go: the message loop as a step relation, one pass for each message.
use go_sqlite_rsync.Common.{ℕ, suc, ◌+◌, ◌≡◌, ap, ◌∙◌, some, arith}
use go_sqlite_rsync.Common.Act.{ok}
use go_sqlite_rsync.Sync.Run.{Rsync}
use go_sqlite_rsync.Sync.Origin.Loop.{Locals}
use go_sqlite_rsync.Sync.Origin.{again, next_message, handle, origin_loop}

-- From variables `v` and state `s` the loop gets to `v'` and `s'`, message by message.
pub data Passes : Locals → Rsync → Locals → Rsync → Type 0 where
  here : {v : Locals} {s : Rsync} → Passes v s v s
  pass :
      {c : ℕ} {v v1 v' : Locals} {s s1 s2 s' : Rsync}
      → next_message s ≡ (ok (some c), s1)
      → handle c v s1 ≡ (ok (again v1), s2)
      → Passes v1 s2 v' s'
      → Passes v s v' s'

pub Passes-trans :
    {v v1 v2 : Locals} {s s1 s2 : Rsync} → Passes v s v1 s1 → Passes v1 s1 v2 s2 → Passes v s v2 s2
Passes-trans here q = q
Passes-trans (pass m h p) q = pass m h (Passes-trans p q)

one_pass :
    (f c : ℕ) (v v1 : Locals) (s s1 s2 : Rsync)
    → next_message s ≡ (ok (some c), s1)
    → handle c v s1 ≡ (ok (again v1), s2)
    → origin_loop (suc f) v s ≡ origin_loop f v1 s2
unfolding origin_loop
one_pass f c v v1 s s1 s2 m h = simp (m, h, origin_loop)

abbrev pub passes : {v v' : Locals} {s s' : Rsync} → Passes v s v' s' → ℕ
passes here = 0
passes (pass m h p) = suc (passes p)

-- Along a chain of passes, the loop of the origin goes on from where the chain ends.
pub origin_loop-passes :
    {v v' : Locals} {s s' : Rsync} (p : Passes v s v' s') (f : ℕ)
    → origin_loop (passes p + f) v s ≡ origin_loop f v' s'
origin_loop-passes (here {v} {s}) f =
    let same : 0 + f ≡ f = omega arith in ap (λ n. origin_loop n v s) same
origin_loop-passes (pass {c} {v} {v1} {v'} {s} {s1} {s2} {s'} m h p) f =
    let next : suc (passes p) + f ≡ suc (passes p + f) = omega arith in
    ap (λ n. origin_loop n v s) next
    ∙ one_pass (passes p + f) c v v1 s s1 s2 m h
    ∙ origin_loop-passes p f
