-- ===== src/Hash/Sponge/Reference.antt =====
-- The sponge construction of FIPS 202 over the mixing function, with the suffix 01 and the
-- padding 10*1, at a rate of `r` bytes.
use go_sqlite_rsync.Common.{
  ℕ, zero, suc, ◌+◌, ◌-◌, ◌/◌, ◌%◌, List, [], ◌∷◌, ◌++◌, length, take, drop, replicate, ◌==◌,
  if◌then◌else◌,
}
use go_sqlite_rsync.Hash.Keccak.{keccak_f1600_step}
use go_sqlite_rsync.Hash.Sponge.{xor_byte, output}

-- What follows a message that has `n` bytes in its last block.
unfoldable pub padding : ℕ → ℕ → List ℕ
padding r n = if n + 1 == r then 0x86 ∷ [] else 0x06 ∷ (replicate (r - 2 - n) 0 ++ 0x80 ∷ [])

unfoldable pub xor_block : List ℕ → ℕ → List ℕ → List ℕ
xor_block s i [] = s
xor_block s i (b ∷ bs) = xor_block (xor_byte s i b) (i + 1) bs

-- Each block is added to the state, and the state mixed.
unfoldable pub absorb_blocks : ℕ → ℕ → List ℕ → List ℕ → List ℕ
absorb_blocks zero r s m = s
absorb_blocks (suc k) r s m =
    absorb_blocks k r (keccak_f1600_step (xor_block s 0 (take r m))) (drop r m)

unfoldable pub sponge : List ℕ → List ℕ
sponge m =
    output
      (absorb_blocks (length m / 160 + 1) 160 (replicate 25 0) (m ++ padding 160 (length m % 160)))
