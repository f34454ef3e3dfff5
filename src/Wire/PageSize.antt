-- ===== src/Wire/PageSize.antt =====
-- wire/wire.go: WritePow2 and ReadPow2.
use go_sqlite_rsync.Common.{
  ltb→lt, all_below, all_below_sound, ◌&&◌, ◌⊎◌, ℕ, suc, ◌-◌, ◌*◌, ◌/◌, ◌%◌, ◌^◌, ◌≤◌, ◌<◌, ◌∙◌, ap,
  bit_and, ◌≡◌, ◌≢◌, refl, inl, inr, List, [], ◌∷◌, Bool, Bool-cases, true, false, not, ◌||◌, ◌==◌,
  ltb, if◌then◌else◌, arith, subst,
}
use go_sqlite_rsync.Common.Act.{ok, err}
use go_sqlite_rsync.Common.Bits.{bit_and_step, halving_induction}
use go_sqlite_rsync.Common.Int.{ℤ, pos, negsuc}
use go_sqlite_rsync.Common.Words.{u8}
use go_sqlite_rsync.Wire.{bad_page_size, bad_exponent}
use go_sqlite_rsync.Wire.Reader.{Reader, read_pow2}
use go_sqlite_rsync.Wire.RoundTrip.{after_read, read_byte_lem}
use go_sqlite_rsync.Wire.Writer.{Writer, write_byte, write_pow2, exponent_loop}
use go_sqlite_rsync.Wire.Writer.Sends.{Sends, Sends-write_byte}
use native.Mathlib.Nat.{pow-suc, pow-le-pow_right}

bit_and_self : (a : ℕ) → bit_and a a ≡ a
bit_and_self =
    halving_induction (λ a. bit_and a a ≡ a) refl
      (λ a ih. omega (arith, bit_and_step (suc a) (suc a), ih))

-- A number of one binary digit 1.
abbrev IsPower : ℕ → Type 0
IsPower v = (k : ℕ) × (v ≡ 2 ^ k)

double-IsPower : (q : ℕ) → IsPower q → IsPower (2 * q)
double-IsPower q (k, e) = (suc k, omega (arith, pow-suc 2 k))

half_zero :
    (a : ℕ)
    → suc a % 2 ≡ 0
    → bit_and (suc a) (suc a - 1) ≡ 0
    → bit_and (suc a / 2) (suc a / 2 - 1) ≡ 0
half_zero a even e =
    let p : (suc a - 1) / 2 ≡ suc a / 2 - 1 = omega arith in
    subst (λ t. bit_and (suc a / 2) t ≡ 0) p (omega (arith, bit_and_step (suc a) (suc a - 1), e))

one_of_odd : (a : ℕ) → suc a % 2 ≢ 0 → bit_and (suc a) (suc a - 1) ≡ 0 → suc a ≡ 2 ^ 0
one_of_odd a odd e =
    let p : (suc a - 1) / 2 ≡ suc a / 2 = omega arith in
    let z : bit_and (suc a / 2) (suc a / 2) ≡ 0 =
      subst (λ t. bit_and (suc a / 2) t ≡ 0) p
        (omega (arith, bit_and_step (suc a) (suc a - 1), e)) in
    omega (arith, z, bit_and_self (suc a / 2))

one_digit : (v : ℕ) → bit_and v (v - 1) ≡ 0 → (v ≡ 0) ⊎ IsPower v
one_digit =
    halving_induction (λ v. bit_and v (v - 1) ≡ 0 → (v ≡ 0) ⊎ IsPower v) (λ e. inl refl) step
  where
    step :
        (a : ℕ)
        → (bit_and (suc a / 2) (suc a / 2 - 1) ≡ 0 → (suc a / 2 ≡ 0) ⊎ IsPower (suc a / 2))
        → bit_and (suc a) (suc a - 1) ≡ 0
        → (suc a ≡ 0) ⊎ IsPower (suc a)
    step a ih e = elim (Bool-cases (suc a % 2 == 0)) [
      | inl even ↦ elim (ih (half_zero a (ground arith) e)) [
        | inl z ↦ absurd (ground arith)
        | inr p ↦ inr (subst IsPower (ground arith) (double-IsPower (suc a / 2) p))
      ]
      | inr odd ↦ inr (0, one_of_odd a (ground arith) e)
    ]

not-false : (b : Bool) → not b ≡ true → b ≡ false
not-false b h = ground arith

not-true : (b : Bool) → not b ≡ false → b ≡ true
not-true b h = ground arith

abbrev fits : ℕ → Bool
fits v = not (ltb 65536 v || not (bit_and v (v - 1) == 0))

power_table : all_below 17 (λ k. fits (2 ^ k) && exponent_loop (2 ^ k) (2 ^ k) 0 == k) ≡ true
unfolding all_below exponent_loop
power_table = refl

power_fits : (k : ℕ) → k ≤ 16 → (fits (2 ^ k) ≡ true) × (exponent_loop (2 ^ k) (2 ^ k) 0 ≡ k)
power_fits k h = ground (
  arith,
  all_below_sound 17 (λ k. fits (2 ^ k) && exponent_loop (2 ^ k) (2 ^ k) 0 == k) k power_table,
)

write_pow2-fits :
    (v : ℕ) (w : Writer)
    → fits v ≡ true
    → write_pow2 (pos v) w ≡ write_byte (u8 (exponent_loop v v 0)) w
unfolding write_pow2
write_pow2-fits v w h =
    let e : (ltb 65536 v || not (bit_and v (v - 1) == 0)) ≡ false = not-false _ h in rw e

write_pow2-refused :
    (v : ℕ) (w : Writer) → fits v ≡ false → write_pow2 (pos v) w ≡ (err bad_page_size, w)
unfolding write_pow2
write_pow2-refused v w h =
    let e : (ltb 65536 v || not (bit_and v (v - 1) == 0)) ≡ true = not-true _ h in rw e

-- Every power of two up to 65536 is sent as its exponent in one byte.
pub write_pow2-Sends : (k : ℕ) → k ≤ 16 → Sends (write_pow2 (pos (2 ^ k))) (k ∷ [])
write_pow2-Sends k h w ready small =
    let (good, exponent) = power_fits k h in
    let byte : u8 (exponent_loop (2 ^ k) (2 ^ k) 0) ≡ k = omega (arith, exponent) in
    rw (write_pow2-fits (2 ^ k) w good, byte) (Sends-write_byte k w ready small)

exponent_small : (k : ℕ) → 2 ^ k ≤ 65536 → k ≤ 16
exponent_small k h = elim (Bool-cases (ltb 16 k)) [
  | inl big ↦
      absurd
        (omega (arith, pow-le-pow_right {n = 2} (omega arith) {i = 17} {j = k} (ltb→lt 16 k big)))
  | inr small ↦ ground arith
]

refuses_natural :
    (v : ℕ)
    → v ≢ 0
    → ((k : ℕ) → k ≤ 16 → v ≢ 2 ^ k)
    → (w : Writer) → write_pow2 (pos v) w ≡ (err bad_page_size, w)
refuses_natural v nonzero no_power w = elim (Bool-cases (fits v)) [
  | inr bad ↦ write_pow2-refused v w bad
  | inl good ↦ elim (one_digit v (ground arith)) [
    | inl z ↦ absurd (nonzero z)
    | inr (k, e) ↦ absurd (no_power k (exponent_small k (ground arith)) e)
  ]
]

-- WritePow2 refuses every integer, negative ones too, that is neither 0 nor a power of two up to 65536,
-- before a byte is written.
pub write_pow2_refuses :
    (v : ℤ)
    → v ≢ pos 0
    → ((k : ℕ) → k ≤ 16 → v ≢ pos (2 ^ k))
    → (w : Writer) → write_pow2 v w ≡ (err bad_page_size, w)
unfolding write_pow2
write_pow2_refuses (negsuc n) nonzero no_power w = refl
write_pow2_refuses (pos v) nonzero no_power w =
    refuses_natural v (λ e. nonzero (ap pos e)) (λ k h e. no_power k h (ap pos e)) w

pub read_pow2_cases :
    (r : Reader) (b : ℕ) (rest : List ℕ)
    → r.input ≡ b ∷ rest
    → read_pow2 r ≡ (if ltb 16 b then err (bad_exponent b) else ok (2 ^ b), after_read r 1 rest)
unfolding read_pow2
read_pow2_cases r b rest e = rw (read_byte_lem r rest b e) (ground arith)

-- ReadPow2 refuses a byte above 16, and gives a number for any other one, for which WritePow2 sends this
-- byte again.
pub read_pow2-write_pow2 :
    (r : Reader) (b : ℕ) (rest : List ℕ)
    → r.input ≡ b ∷ rest
    → ((16 < b) × (read_pow2 r ≡ (err (bad_exponent b), after_read r 1 rest)))
      ⊎ ((v : ℕ) × (read_pow2 r ≡ (ok v, after_read r 1 rest))
          × Sends (write_pow2 (pos v)) (b ∷ []))
read_pow2-write_pow2 r b rest e = elim (Bool-cases (ltb 16 b)) [
  | inl big ↦ inl (
    ltb→lt 16 b big,
    read_pow2_cases r b rest e
        ∙ ap (λ c. (if c then err (bad_exponent b) else ok (2 ^ b), after_read r 1 rest)) big,
  )
  | inr small ↦ inr (
    2 ^ b,
    read_pow2_cases r b rest e
        ∙ ap (λ c. (if c then err (bad_exponent b) else ok (2 ^ b), after_read r 1 rest)) small,
    write_pow2-Sends b (ground (arith, small)),
  )
]
