-- ===== src/Hash/Keccak/Bounds.antt =====
-- hash/hash.go, keccakF1600Step: the widths of its lanes.
use go_sqlite_rsync.Common.{
  ℕ, ◌-◌, ◌^◌, bit_xor, ◌≡◌, refl, List, [], ◌∷◌, foldl, length, All, All-get_or, arith,
}
use go_sqlite_rsync.Common.Bits.{bit_xor-lt, bit_and-lt, bit_or-lt}
use go_sqlite_rsync.Common.Words.{IsU64}
use go_sqlite_rsync.Hash.Keccak.{
  rol64, not64, lane, rc, xor5, chi3, keccak_round, keccak_f1600_step,
}
use native.Mathlib.Nat.{div-le_self}

xor_IsU64 : (a b : ℕ) → IsU64 a → IsU64 b → IsU64 (bit_xor a b)
xor_IsU64 = bit_xor-lt 64

pub rol64-IsU64 : (a x : ℕ) → IsU64 a → IsU64 (rol64 a x)
unfolding rol64
rol64-IsU64 a x h = bit_or-lt 64 _ _ (omega arith) (ground (arith, div-le_self a (2 ^ (64 - x))))

chi3-IsU64 : (a b c : ℕ) → IsU64 a → IsU64 c → IsU64 (chi3 a b c)
chi3-IsU64 a b c ha hc = xor_IsU64 a _ ha (bit_and-lt 64 (not64 b) c (omega arith) hc)

module _ (s : List ℕ) (k : ℕ) (h : All IsU64 s) (hk : IsU64 k) where
  lane-IsU64 : (i : ℕ) → IsU64 (lane s i)
  lane-IsU64 i = All-get_or IsU64 s i 0 (omega arith) h

  column-IsU64 :
      (a b c d e : ℕ) → IsU64 (xor5 (lane s a) (lane s b) (lane s c) (lane s d) (lane s e))
  column-IsU64 a b c d e = search (xor_IsU64, lane-IsU64)

  theta-IsU64 :
      (i a b c d e f g j l m : ℕ)
      → IsU64 (
          bit_xor (lane s i) (
            bit_xor
              (xor5 (lane s a) (lane s b) (lane s c) (lane s d) (lane s e))
              (rol64 (xor5 (lane s f) (lane s g) (lane s j) (lane s l) (lane s m)) 1)))
  theta-IsU64 i a b c d e f g j l m =
      xor_IsU64 _ _ (lane-IsU64 i)
        (xor_IsU64 _ _ (column-IsU64 a b c d e) (rol64-IsU64 _ 1 (column-IsU64 f g j l m)))

  mixed-IsU64 :
      (i a b c d e f g j l m x : ℕ)
      → IsU64 (
          rol64
            (bit_xor (lane s i) (
              bit_xor
                (xor5 (lane s a) (lane s b) (lane s c) (lane s d) (lane s e))
                (rol64 (xor5 (lane s f) (lane s g) (lane s j) (lane s l) (lane s m)) 1)))
            x)
  mixed-IsU64 i a b c d e f g j l m x = rol64-IsU64 _ x (theta-IsU64 i a b c d e f g j l m)

  keccak_round-IsU64 : All IsU64 (keccak_round s k)
  unfolding keccak_round
  keccak_round-IsU64 = search (xor_IsU64, chi3-IsU64, theta-IsU64, mixed-IsU64)

foldl-keccak_round-IsU64 :
    (s ks : List ℕ) → All IsU64 s → All IsU64 ks → All IsU64 (foldl keccak_round s ks)
foldl-keccak_round-IsU64 s [] h hk = h
foldl-keccak_round-IsU64 s (k ∷ ks) h (hk, hks) =
    foldl-keccak_round-IsU64 (keccak_round s k) ks (keccak_round-IsU64 s k h hk) hks

length-keccak_round : (s : List ℕ) (k : ℕ) → length (keccak_round s k) ≡ 25
unfolding keccak_round
length-keccak_round s k = refl

-- The step gives 25 lanes, each a uint64 if the lanes before were.
pub length-keccak_f1600_step : (s : List ℕ) → length (keccak_f1600_step s) ≡ 25
unfolding keccak_f1600_step
length-keccak_f1600_step s = refl

pub keccak_f1600_step-IsU64 : (s : List ℕ) → All IsU64 s → All IsU64 (keccak_f1600_step s)
unfolding keccak_f1600_step
keccak_f1600_step-IsU64 s h = foldl-keccak_round-IsU64 s rc h (omega arith)
