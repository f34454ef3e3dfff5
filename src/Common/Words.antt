-- ===== src/Common/Words.antt =====
-- Go's unsigned integers: values are natural numbers, and each operation wraps as the type does.
use Prim.Native.Nat.{ℕ, ◌%◌, ◌^◌, ◌<◌}

abbrev pub u8 : ℕ → ℕ
u8 n = n % 2 ^ 8

abbrev pub u32 : ℕ → ℕ
u32 n = n % 2 ^ 32

abbrev pub u64 : ℕ → ℕ
u64 n = n % 2 ^ 64

abbrev pub IsByte : ℕ → Type 0
IsByte n = n < 2 ^ 8

abbrev pub IsU32 : ℕ → Type 0
IsU32 n = n < 2 ^ 32

abbrev pub IsU64 : ℕ → Type 0
IsU64 n = n < 2 ^ 64
