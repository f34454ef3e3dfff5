-- ===== src/Hash/Keccak.antt =====
-- hash/hash.go, the mixing function. A lane is a uint64; the state [25]uint64 is a list of lanes,
-- lane 5 * y + x first by rows, as in the source's names `a<y><x>`.
pub mod Reference
pub mod Bounds
use go_sqlite_rsync.Common.{
  ℕ, ◌-◌, ◌*◌, ◌/◌, ◌^◌, bit_and, bit_or, bit_xor, List, [], ◌∷◌, foldl, get_or, leb, if◌then◌else◌,
}
use go_sqlite_rsync.Common.Words.{u64}

-- `64-x` is unsigned: above 64 it wraps to a shift by more than the width, which gives 0.
unfoldable pub rol64 : ℕ → ℕ → ℕ
rol64 a x = bit_or (u64 (a * 2 ^ x)) (if leb x 64 then a / 2 ^ (64 - x) else 0)

-- `^a` on a uint64.
abbrev pub not64 : ℕ → ℕ
not64 a = 2 ^ 64 - 1 - a

-- The index is always a numeral below 25, so on an array of 25 lanes the default is not used.
abbrev pub lane : List ℕ → ℕ → ℕ
lane s i = get_or s i 0

abbrev pub rc : List ℕ
rc =
    0x0000000000000001 ∷ 0x0000000000008082 ∷ 0x800000000000808a ∷ 0x8000000080008000
    ∷ 0x000000000000808b ∷ 0x0000000080000001 ∷ []

-- `a ^ b ^ c ^ d ^ e`, and `a ^ (^b & c)`.
abbrev pub xor5 : ℕ → ℕ → ℕ → ℕ → ℕ → ℕ
xor5 a b c d e = bit_xor (bit_xor (bit_xor (bit_xor a b) c) d) e

abbrev pub chi3 : ℕ → ℕ → ℕ → ℕ
chi3 a b c = bit_xor a (bit_and (not64 b) c)

-- One pass of the loop over `i`, with `k` for `rc[i]`. The five groups reuse the names b0 to b4;
-- no lane is read after it is written, so the lanes of the result are given at the end.
pub keccak_round : List ℕ → ℕ → List ℕ
keccak_round s k =
    let a00 = lane s 0 in
    let a01 = lane s 1 in
    let a02 = lane s 2 in
    let a03 = lane s 3 in
    let a04 = lane s 4 in
    let a10 = lane s 5 in
    let a11 = lane s 6 in
    let a12 = lane s 7 in
    let a13 = lane s 8 in
    let a14 = lane s 9 in
    let a20 = lane s 10 in
    let a21 = lane s 11 in
    let a22 = lane s 12 in
    let a23 = lane s 13 in
    let a24 = lane s 14 in
    let a30 = lane s 15 in
    let a31 = lane s 16 in
    let a32 = lane s 17 in
    let a33 = lane s 18 in
    let a34 = lane s 19 in
    let a40 = lane s 20 in
    let a41 = lane s 21 in
    let a42 = lane s 22 in
    let a43 = lane s 23 in
    let a44 = lane s 24 in
    let c0 = xor5 a00 a10 a20 a30 a40 in
    let c1 = xor5 a01 a11 a21 a31 a41 in
    let c2 = xor5 a02 a12 a22 a32 a42 in
    let c3 = xor5 a03 a13 a23 a33 a43 in
    let c4 = xor5 a04 a14 a24 a34 a44 in
    let d0 = bit_xor c4 (rol64 c1 1) in
    let d1 = bit_xor c0 (rol64 c2 1) in
    let d2 = bit_xor c1 (rol64 c3 1) in
    let d3 = bit_xor c2 (rol64 c4 1) in
    let d4 = bit_xor c3 (rol64 c0 1) in
    let p0 = bit_xor a00 d0 in
    let p1 = rol64 (bit_xor a11 d1) 44 in
    let p2 = rol64 (bit_xor a22 d2) 43 in
    let p3 = rol64 (bit_xor a33 d3) 21 in
    let p4 = rol64 (bit_xor a44 d4) 14 in
    let q2 = rol64 (bit_xor a20 d0) 3 in
    let q3 = rol64 (bit_xor a31 d1) 45 in
    let q4 = rol64 (bit_xor a42 d2) 61 in
    let q0 = rol64 (bit_xor a03 d3) 28 in
    let q1 = rol64 (bit_xor a14 d4) 20 in
    let r4 = rol64 (bit_xor a40 d0) 18 in
    let r0 = rol64 (bit_xor a01 d1) 1 in
    let r1 = rol64 (bit_xor a12 d2) 6 in
    let r2 = rol64 (bit_xor a23 d3) 25 in
    let r3 = rol64 (bit_xor a34 d4) 8 in
    let s1 = rol64 (bit_xor a10 d0) 36 in
    let s2 = rol64 (bit_xor a21 d1) 10 in
    let s3 = rol64 (bit_xor a32 d2) 15 in
    let s4 = rol64 (bit_xor a43 d3) 56 in
    let s0 = rol64 (bit_xor a04 d4) 27 in
    let t3 = rol64 (bit_xor a30 d0) 41 in
    let t4 = rol64 (bit_xor a41 d1) 2 in
    let t0 = rol64 (bit_xor a02 d2) 62 in
    let t1 = rol64 (bit_xor a13 d3) 55 in
    let t2 = rol64 (bit_xor a24 d4) 39 in
    (bit_xor (chi3 p0 p1 p2) k)
    ∷ (chi3 r1 r2 r3)
    ∷ (chi3 t2 t3 t4)
    ∷ (chi3 q3 q4 q0)
    ∷ (chi3 s4 s0 s1)
    ∷ (chi3 s0 s1 s2)
    ∷ (chi3 p1 p2 p3)
    ∷ (chi3 r2 r3 r4)
    ∷ (chi3 t3 t4 t0)
    ∷ (chi3 q4 q0 q1)
    ∷ (chi3 q0 q1 q2)
    ∷ (chi3 s1 s2 s3)
    ∷ (chi3 p2 p3 p4)
    ∷ (chi3 r3 r4 r0)
    ∷ (chi3 t4 t0 t1)
    ∷ (chi3 t0 t1 t2)
    ∷ (chi3 q1 q2 q3)
    ∷ (chi3 s2 s3 s4)
    ∷ (chi3 p3 p4 p0)
    ∷ (chi3 r4 r0 r1)
    ∷ (chi3 r0 r1 r2)
    ∷ (chi3 t1 t2 t3)
    ∷ (chi3 q2 q3 q4)
    ∷ (chi3 s3 s4 s0)
    ∷ (chi3 p4 p0 p1)
    ∷ []

-- The 6 rounds; p.s is read before the first and written after the last.
unfoldable pub keccak_f1600_step : List ℕ → List ℕ
unfolding keccak_round
keccak_f1600_step s = foldl keccak_round s rc
