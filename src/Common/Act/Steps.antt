-- ===== src/Common/Act/Steps.antt =====
-- What actions never report, and how their state moves, part by part.
use mathlib.Core.Logic.{◌≢◌}
use native.Mathlib.Omega.{arith}
use go_sqlite_rsync.Common.Act.{Act, Result, ok, err, bind, ◌>>=◌}

-- `m` never ends with error `e`.
abbrev pub Never : {S E A : Type 0} → E → Act S E A → Type 0
Never e m = (s : _) → (m s).0 ≢ err e

-- Every state that `m` leaves is related to the state it found.
abbrev pub Moves : {S E A : Type 0} → (S → S → Type 0) → Act S E A → Type 0
Moves R m = (s : _) → R s (m s).1

pub Never-bind :
    {S E A B : Type 0} {e : E} (m : Act S E A) (k : A → Act S E B)
    → Never e m
    → ((a : A) → Never e (k a))
    → Never e (m >>= k)
Never-bind {S} {E} {A} {B} {e} m k hm hk s = go (m s) (hm s)
  where
    go : (r : Result E A × S) → r.0 ≢ err e → (bind r k).0 ≢ err e
    go (ok a, s') h = hk a s'
    go (err x, s') h = λ eq. ground (arith, h, eq)

pub Moves-bind :
    {S E A B : Type 0} {R : S → S → Type 0} (m : Act S E A) (k : A → Act S E B)
    → ((a b c : S) → R a b → R b c → R a c)
    → Moves R m
    → ((a : A) → Moves R (k a))
    → Moves R (m >>= k)
Moves-bind {S} {E} {A} {B} {R} m k trans hm hk s = go (m s) (hm s)
  where
    go : (r : Result E A × S) → R s r.1 → R s (bind r k).1
    go (ok a, s') h = trans s s' (k a s').1 h (hk a s')
    go (err x, s') h = h
