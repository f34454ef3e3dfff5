-- ===== src/Wire/Uint32.antt =====
-- wire/wire.go: the big-endian layout of a uint32 in ReadUint32 and WriteUint32.
use go_sqlite_rsync.Common.{ℕ, ◌+◌, ◌*◌, ◌/◌, ◌^◌, bit_or, ◌≡◌, List, [], ◌∷◌, get_or, arith}
use go_sqlite_rsync.Common.Bits.{bit_or_disjoint}
use go_sqlite_rsync.Common.Words.{u8, u32, IsByte, IsU32}

-- The four bytes that WriteUint32 puts into its buffer.
unfoldable pub bytes_of_uint32 : ℕ → List ℕ
bytes_of_uint32 x = u8 (x / 2 ^ 24) ∷ u8 (x / 2 ^ 16) ∷ u8 (x / 2 ^ 8) ∷ u8 x ∷ []

-- `uint32(b0)<<24 | uint32(b1)<<16 | uint32(b2)<<8 | uint32(b3)`
unfoldable pub uint32_of_bytes : List ℕ → ℕ
uint32_of_bytes b =
    bit_or
      (bit_or (bit_or (u32 (get_or b 0 0 * 2 ^ 24)) (u32 (get_or b 1 0 * 2 ^ 16)))
        (u32 (get_or b 2 0 * 2 ^ 8)))
      (get_or b 3 0)

four_bytes :
    (a b c d : ℕ)
    → IsByte a
    → IsByte b
    → IsByte c
    → IsByte d
    → uint32_of_bytes (a ∷ b ∷ c ∷ d ∷ []) ≡ a * 2 ^ 24 + b * 2 ^ 16 + c * 2 ^ 8 + d
unfolding uint32_of_bytes
four_bytes a b c d ha hb hc hd = ground (
  arith,
  bit_or_disjoint 24 a (b * 2 ^ 16),
  bit_or_disjoint 16 (a * 2 ^ 8 + b) (c * 2 ^ 8),
  bit_or_disjoint 8 (a * 2 ^ 16 + b * 2 ^ 8 + c) d,
)

-- What was written is what is read.
pub uint32_of_bytes-bytes_of_uint32 : (x : ℕ) → IsU32 x → uint32_of_bytes (bytes_of_uint32 x) ≡ x
unfolding bytes_of_uint32
uint32_of_bytes-bytes_of_uint32 x h = omega (
  arith,
  four_bytes (u8 (x / 2 ^ 24)) (u8 (x / 2 ^ 16)) (u8 (x / 2 ^ 8)) (u8 x) (omega arith) (omega arith)
      (omega arith) (omega arith),
)
