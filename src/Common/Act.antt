-- ===== src/Common/Act.antt =====
-- Stateful code that can fail: an action returns its result or an error, and the state it leaves,
-- which a failure keeps as far as it got.
pub mod Steps
use mathlib.Core.Path.{◌≡◌, refl}
use native.Mathlib.Omega.{arith}

pub data Result (E A : Type 0) : Type 0 where
  ok : A → Result E A
  err : E → Result E A

abbrev pub Act : Type 0 → Type 0 → Type 0 → Type 0
Act S E A = S → Result E A × S

module _ {S E A : Type 0} where
  abbrev pub pure : A → Act S E A
  pure a s = (ok a, s)

  abbrev pub raise : E → Act S E A
  raise e s = (err e, s)

  abbrev pub bind : {B : Type 0} → Result E A × S → (A → Act S E B) → Result E B × S
  bind (ok a, s) f = f a s
  bind (err e, s) f = (err e, s)

infixl 5 ◌>>=◌ ◌>>◌
abbrev pub ◌>>=◌ : {S E A B : Type 0} → Act S E A → (A → Act S E B) → Act S E B
◌>>=◌ m f s = bind (m s) f

abbrev pub ◌>>◌ : {S E B : Type 0} → Act S E (Unit {0}) → Act S E B → Act S E B
m >> k = m >>= λ _. k

abbrev pub modify : {S E : Type 0} → (S → S) → Act S E (Unit {0})
modify f s = (ok tt, f s)

abbrev pub gets : {S E A : Type 0} → (S → A) → Act S E A
gets f s = (ok (f s), s)

-- A step that succeeded: what each part of a chain returned.
pub bind-eq-ok :
    {S E A B : Type 0} (m : Result E A × S) (f : A → Act S E B) {b : B} {s' : S}
    → bind m f ≡ (ok b, s')
    → (a : A) × (s : S) × (m ≡ (ok a, s)) × (f a s ≡ (ok b, s'))
bind-eq-ok (ok a, s) f h = (a, s, refl, h)
bind-eq-ok (err e, s) f h = ground arith
