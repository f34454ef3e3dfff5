-- ===== src/Hash/Keccak/Reference.antt =====
-- Keccak-f as FIPS 202 defines it, step by step on the 5 × 5 array of lanes.
use go_sqlite_rsync.Common.{
  ℕ, zero, suc, ◌∙◌, ◌+◌, ◌*◌, ◌/◌, ◌%◌, bit_and, bit_xor, ◌≡◌, refl, ap, List, [], ◌∷◌, foldl, set,
}
use go_sqlite_rsync.Hash.Keccak.{rol64, not64, lane, rc, keccak_round, keccak_f1600_step}

-- The lane at column `x` and row `y`, both modulo 5.
abbrev at : List ℕ → ℕ → ℕ → ℕ
at s x y = lane s (x % 5 + 5 * (y % 5))

abbrev build : ℕ → ℕ → (ℕ → ℕ → ℕ) → List ℕ
build zero i f = []
build (suc n) i f = f (i % 5) (i / 5) ∷ build n (i + 1) f

-- The array whose lane (x, y) is `f x y`.
abbrev array : (ℕ → ℕ → ℕ) → List ℕ
array f = build 25 0 f

abbrev parity : List ℕ → ℕ → ℕ
parity s x =
    bit_xor (bit_xor (bit_xor (bit_xor (at s x 0) (at s x 1)) (at s x 2)) (at s x 3)) (at s x 4)

abbrev theta : List ℕ → List ℕ
theta s =
    array (λ x y. bit_xor (at s x y) (bit_xor (parity s (x + 4)) (rol64 (parity s (x + 1)) 1)))

-- The offsets of the rho step modulo 64, with rows for y.
abbrev offsets : List ℕ
offsets =
    0 ∷ 1 ∷ 62 ∷ 28 ∷ 27 ∷ 36 ∷ 44 ∷ 6 ∷ 55 ∷ 20 ∷ 3 ∷ 10 ∷ 43 ∷ 25 ∷ 39 ∷ 41 ∷ 45 ∷ 15 ∷ 21 ∷ 8
    ∷ 18 ∷ 2 ∷ 61 ∷ 56 ∷ 14 ∷ []

-- A rotation by nothing is no rotation.
abbrev rotate : ℕ → ℕ → ℕ
rotate a zero = a
rotate a (suc x) = rol64 a (suc x)

abbrev rho : List ℕ → List ℕ
rho s = array (λ x y. rotate (at s x y) (lane offsets (x + 5 * y)))

abbrev pi : List ℕ → List ℕ
pi s = array (λ x y. at s (x + 3 * y) x)

abbrev chi : List ℕ → List ℕ
chi s = array (λ x y. bit_xor (at s x y) (bit_and (not64 (at s (x + 1) y)) (at s (x + 2) y)))

abbrev iota : ℕ → List ℕ → List ℕ
iota k s = set s 0 (bit_xor (at s 0 0) k)

-- The round of FIPS 202.
abbrev pub reference_round : ℕ → List ℕ → List ℕ
reference_round k s = iota k (chi (pi (rho (theta s))))

-- The places at which the source leaves the lanes of a round: each stays in its column.
abbrev pub relabel : List ℕ → List ℕ
relabel s = array (λ x y. at s x (2 * x + 3 * y))

-- Four rounds in that layout would bring every lane back to its own place.
relabel_four :
    (a b c d e f g h i j k l m n o p q r s t u v w x y : ℕ)
    → let lanes =
        a ∷ b ∷ c ∷ d ∷ e ∷ f ∷ g ∷ h ∷ i ∷ j ∷ k ∷ l ∷ m ∷ n ∷ o ∷ p ∷ q ∷ r ∷ s ∷ t ∷ u ∷ v ∷ w
        ∷ x ∷ y ∷ [] in
      relabel (relabel (relabel (relabel lanes))) ≡ lanes
relabel_four a b c d e f g h i j k l m n o p q r s t u v w x y = refl

-- Each pass of the loop is the round of FIPS 202 but for the places of the lanes.
pub keccak_round-Reference : (s : List ℕ) (k : ℕ) → keccak_round s k ≡ relabel (reference_round k s)
unfolding keccak_round
keccak_round-Reference s k = refl

unfoldable pub reference_rounds : List ℕ → List ℕ → List ℕ
reference_rounds s [] = s
reference_rounds s (k ∷ ks) = reference_rounds (relabel (reference_round k s)) ks

foldl-keccak_round : (s ks : List ℕ) → foldl keccak_round s ks ≡ reference_rounds s ks
unfolding reference_rounds
foldl-keccak_round s [] = refl
foldl-keccak_round s (k ∷ ks) =
    foldl-keccak_round (keccak_round s k) ks
    ∙ ap (λ t. reference_rounds t ks) (keccak_round-Reference s k)

-- The mixing function is six times the round of FIPS 202 with its lanes relabelled.
pub keccak_f1600_step-Reference : (s : List ℕ) → keccak_f1600_step s ≡ reference_rounds s rc
unfolding keccak_f1600_step
keccak_f1600_step-Reference s = foldl-keccak_round s rc
