-- ===== src/Common/Bits.antt =====
-- Laws of the bitwise operations at variables, from one equation for the lowest digit.
use Prim.Native.Nat.{ℕ, zero, suc, ◌+◌, ◌*◌, ◌/◌, ◌%◌, ◌^◌, ◌≤◌, ◌<◌, min, max, differ}
use Prim.Native.Nat.{bit_and, bit_or, bit_xor, digits, bitwise}
use Prim.Native.Nat.{bit_and-bitwise, bit_or-bitwise, bit_xor-bitwise}
use mathlib.Core.Path.{◌≡◌, refl, ap}
use native.Mathlib.Nat.{le_refl, pow-suc}
use native.Mathlib.Omega.{arith}

-- The library's recursion on binary digits is given fuel; from the number itself on, the amount
-- does not matter.
module _ (tail : ℕ → ℕ) (digit : ℕ → ℕ → ℕ) where
  same_digits : (a b n m : ℕ) → a ≤ n → a ≤ m → digits tail digit n a b ≡ digits tail digit m a b
  same_digits zero b zero zero lo hi = refl
  same_digits zero b zero (suc m) lo hi = refl
  same_digits zero b (suc n) zero lo hi = refl
  same_digits zero b (suc n) (suc m) lo hi = refl
  same_digits (suc a) b zero m lo hi = elim lo [ ]
  same_digits (suc a) b (suc n) zero lo hi = elim hi [ ]
  same_digits (suc a) b (suc n) (suc m) lo hi =
      let half : suc a / 2 ≤ a = omega arith in
      ap (λ t. t * 2 + digit (suc a % 2) (b % 2))
        (same_digits (suc a / 2) (b / 2) n m (omega (arith, half)) (omega (arith, half)))

  lowest_digit :
      (a b : ℕ)
      → bitwise tail digit (suc a) b
        ≡ digit (suc a % 2) (b % 2) + 2 * bitwise tail digit (suc a / 2) (b / 2)
  lowest_digit a b =
      omega (arith, same_digits (suc a / 2) (b / 2) a (suc a / 2) (omega arith) (omega arith))

-- Each operation by its lowest digit and the halves.
pub bit_and_step : (a b : ℕ) → bit_and a b ≡ min (a % 2) (b % 2) + 2 * bit_and (a / 2) (b / 2)
bit_and_step zero b = rw bit_and-bitwise (rw bit_and-bitwise (omega arith))
bit_and_step (suc a) b = simp bit_and-bitwise (lowest_digit (λ _. 0) min a b)

pub bit_or_step : (a b : ℕ) → bit_or a b ≡ max (a % 2) (b % 2) + 2 * bit_or (a / 2) (b / 2)
bit_or_step zero b = rw bit_or-bitwise (rw bit_or-bitwise (omega arith))
bit_or_step (suc a) b = simp bit_or-bitwise (lowest_digit (λ d. d) max a b)

pub bit_xor_step : (a b : ℕ) → bit_xor a b ≡ differ (a % 2) (b % 2) + 2 * bit_xor (a / 2) (b / 2)
bit_xor_step zero b = rw bit_xor-bitwise (rw bit_xor-bitwise (omega arith))
bit_xor_step (suc a) b = simp bit_xor-bitwise (lowest_digit (λ d. d) differ a b)

-- All of them keep to the width of their arguments.
module _ (op : ℕ → ℕ → ℕ) (digit : ℕ → ℕ → ℕ)
    (step : (a b : ℕ) → op a b ≡ digit (a % 2) (b % 2) + 2 * op (a / 2) (b / 2))
    (small : (a b : ℕ) → a < 2 → b < 2 → digit a b < 2) (start : op 0 0 ≡ 0) where
  op-lt_two_pow : (k a b : ℕ) → a < 2 ^ k → b < 2 ^ k → op a b < 2 ^ k
  op-lt_two_pow zero a b ha hb =
      let ea : a ≡ 0 = omega arith in
      let eb : b ≡ 0 = omega arith in rw (ea, eb, start) (omega arith)
  op-lt_two_pow (suc k) a b ha hb = omega (
    arith,
    step a b,
    small (a % 2) (b % 2) (omega arith) (omega arith),
    pow-suc 2 k,
    op-lt_two_pow k (a / 2) (b / 2) (omega (arith, pow-suc 2 k)) (omega (arith, pow-suc 2 k)),
  )

differ-lt_two : (a b : ℕ) → a < 2 → b < 2 → differ a b < 2
differ-lt_two zero b p q = q
differ-lt_two (suc zero) zero p q = omega arith
differ-lt_two (suc zero) (suc zero) p q = omega arith
differ-lt_two (suc zero) (suc (suc b)) p q = absurd (omega arith)
differ-lt_two (suc (suc a)) b p q = absurd (omega arith)

pub bit_xor-lt : (k a b : ℕ) → a < 2 ^ k → b < 2 ^ k → bit_xor a b < 2 ^ k
bit_xor-lt k a b = op-lt_two_pow bit_xor differ bit_xor_step differ-lt_two refl k a b

pub bit_and-lt : (k a b : ℕ) → a < 2 ^ k → b < 2 ^ k → bit_and a b < 2 ^ k
bit_and-lt k a b = op-lt_two_pow bit_and min bit_and_step (λ a b p q. omega arith) refl k a b

pub bit_or-lt : (k a b : ℕ) → a < 2 ^ k → b < 2 ^ k → bit_or a b < 2 ^ k
bit_or-lt k a b = op-lt_two_pow bit_or max bit_or_step (λ a b p q. omega arith) refl k a b

-- A number below `n` in binary digits, for recursions that halve it.
module _ (P : ℕ → Type 0) (start : P 0) (halve : (a : ℕ) → P (suc a / 2) → P (suc a)) where
  halving_fuel : (n a : ℕ) → a < n → P a
  halving_fuel zero a h = elim h [ ]
  halving_fuel (suc n) zero h = start
  halving_fuel (suc n) (suc a) h = halve a (halving_fuel n (suc a / 2) (omega arith))

  pub halving_induction : (a : ℕ) → P a
  halving_induction a = halving_fuel (suc a) a (le_refl _)

differ-zero : (a : ℕ) → differ a 0 ≡ a
differ-zero zero = refl
differ-zero (suc a) = refl

pub bit_xor-zero : (a : ℕ) → bit_xor a 0 ≡ a
bit_xor-zero =
    halving_induction (λ a. bit_xor a 0 ≡ a) refl
      (λ a ih. omega (arith, bit_xor_step (suc a) 0, ih, differ-zero (suc a % 2)))

pub bit_or-zero : (a : ℕ) → bit_or a 0 ≡ a
bit_or-zero =
    halving_induction (λ a. bit_or a 0 ≡ a) refl (λ a ih. omega (arith, bit_or_step (suc a) 0, ih))

-- `|` of a number shifted left by `k` and a number of `k` digits is their sum.
pub bit_or_disjoint : (k q r : ℕ) → r < 2 ^ k → bit_or (q * 2 ^ k) r ≡ q * 2 ^ k + r
bit_or_disjoint zero q r h = ground (arith, bit_or-zero q)
bit_or_disjoint (suc k) q r h =
    let e : q * 2 ^ suc k ≡ 2 * (q * 2 ^ k) = omega (arith, ap (λ (t : ℕ). q * t) (pow-suc 2 k)) in
    ground (
      arith,
      bit_or_step (q * 2 ^ suc k) r,
      e,
      pow-suc 2 k,
      bit_or_disjoint k q (r / 2) (omega arith),
    )
