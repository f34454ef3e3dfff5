-- ===== src/Hash/Sponge.antt =====
-- hash/hash.go, HashContext and the three calls HashInit, HashUpdate, HashFinal.
-- A panic is `none`: an index out of the 25 lanes, or a context of another size in HashFinal.
pub mod Ready
pub mod Reference
pub mod Absorb
pub mod Digest
use go_sqlite_rsync.Common.{
  ℕ, zero, suc, ◌+◌, ◌-◌, ◌*◌, ◌/◌, ◌%◌, ◌^◌, bit_and, bit_xor, Bool, ◌&&◌, Option, none, some,
  List, [], ◌∷◌, get_elem?, set, replicate, leb, ◌==◌, if◌then◌else◌,
}
use go_sqlite_rsync.Common.Words.{u8, u32, u64}
use go_sqlite_rsync.Hash.Keccak.{keccak_f1600_step, lane}
use mathlib.Core.Option

pub record HashContext : Type 0 where
  pub s : List ℕ  -- [25]uint64
  pub n_rate : ℕ  -- uint32
  pub n_loaded : ℕ  -- uint32
  pub i_size : ℕ  -- uint32

infixl 5 ◌>>=◌
abbrev pub ◌>>=◌ {ℓ κ} : {A : Type ℓ} {B : Type κ} → Option A → (A → Option B) → Option B
none >>= f = none
some a >>= f = f a

-- `(x + 31) &^ 31` on uint32: the five low bits are cleared.
abbrev round_up_32 : ℕ → ℕ
round_up_32 x = bit_and (u32 (x + 31)) (2 ^ 32 - 1 - 31)

unfoldable pub rate_of : ℕ → ℕ
rate_of i_size =
    if leb 128 i_size && leb i_size 512
    then u32 (1600 + 2 ^ 32 - u32 (round_up_32 i_size * 2)) / 8
    else (1600 - 2 * 256) / 8

unfoldable pub hash_init : ℕ → HashContext
unfolding rate_of
hash_init i_size = record {
  s = replicate 25 0;
  n_rate = rate_of i_size;
  n_loaded = 0;
  i_size = i_size;
}

-- `p.s[p.nLoaded/8] ^= uint64(b) << (8 * (p.nLoaded % 8))`
unfoldable pub xor_byte : List ℕ → ℕ → ℕ → List ℕ
xor_byte s n b = set s (n / 8) (bit_xor (lane s (n / 8)) (u64 (b * 2 ^ (8 * (n % 8)))))

unfoldable pub advance : HashContext → HashContext
advance p =
    let n = u32 (p.n_loaded + 1) in
    if n == p.n_rate
    then record p { s = keccak_f1600_step p.s; n_loaded = 0 }
    else record p { n_loaded = n }

-- One pass of the loop of HashUpdate.
unfoldable pub update_byte : HashContext → ℕ → Option HashContext
update_byte p b = elim (get_elem? p.s (p.n_loaded / 8)) [
  | none ↦ none
  | some _ ↦ some (advance (record p { s = xor_byte p.s p.n_loaded b }))
]

unfoldable pub hash_update : HashContext → List ℕ → Option HashContext
hash_update p [] = some p
hash_update p (b ∷ bs) = do q ← update_byte p b; hash_update q bs

-- `byte(p.s[i/8] >> (8 * (i % 8)))`
abbrev pub state_byte : List ℕ → ℕ → ℕ
state_byte s i = u8 (lane s (i / 8) / 2 ^ (8 * (i % 8)))

abbrev output_from : ℕ → ℕ → List ℕ → List ℕ
output_from zero i s = []
output_from (suc n) i s = state_byte s i ∷ output_from n (i + 1) s

-- The first 20 bytes of the state.
unfoldable pub output : List ℕ → List ℕ
output s = output_from 20 0 s

-- `p.nRate-1` on uint32.
abbrev last_place : HashContext → ℕ
last_place p = u32 (p.n_rate + 2 ^ 32 - 1)

unfoldable pub pad : HashContext → Option HashContext
pad p = if p.n_loaded == last_place p then hash_update p (0x86 ∷ []) else do
  q ← hash_update p (0x06 ∷ [])
  hash_update (record q { n_loaded = last_place q }) (0x80 ∷ [])

-- HashFinal changes its argument: the result is the digest and the context left behind.
unfoldable pub hash_final : HashContext → Option (List ℕ × HashContext)
hash_final p = if p.i_size == 160 then (do q ← pad p; some (output q.s, q)) else none
