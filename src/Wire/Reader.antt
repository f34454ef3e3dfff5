-- ===== src/Wire/Reader.antt =====
-- wire/wire.go, type Reader. Buffering decides when the stream below is read, not which bytes
-- arrive: a reader is the bytes still to come, and how the stream ends after them.
use go_sqlite_rsync.Common.{
  ℕ, ◌+◌, ◌^◌, List, [], ◌∷◌, length, take, drop, get_or, leb, ltb, if◌then◌else◌,
}
use go_sqlite_rsync.Common.Act.{Act, ok, err, pure, raise, ◌>>=◌, ◌>>◌, modify}
use go_sqlite_rsync.Common.Int.{ℤ, pos, negsuc}
use go_sqlite_rsync.Common.Words.{u64}
use go_sqlite_rsync.Wire.{
  WireError, eof, unexpected_eof, broken, bad_exponent, negative_count, message_too_long,
  max_message_len,
}
use go_sqlite_rsync.Wire.Uint32.{uint32_of_bytes}

pub data Ending : Type 0 where
  closed : Ending
  fails : ℕ → Ending

pub record Reader : Type 0 where
  pub input : List ℕ
  pub ending : Ending
  pub bytes_read : ℕ  -- uint64

abbrev pub Read : Type 0 → Type 0
Read A = Act Reader WireError A

-- The error of io.ReadFull when the stream ends after too few bytes.
abbrev pub short_read : Ending → List ℕ → WireError
short_read closed [] = eof
short_read closed (b ∷ bs) = unexpected_eof
short_read (fails e) bs = broken e

-- io.ReadFull: all `n` bytes, or what there is and an error.
unfoldable pub read_full : ℕ → Read (List ℕ)
read_full n r =
    if leb n (length r.input)
    then (ok (take n r.input), record r { input = drop n r.input })
    else (err (short_read r.ending r.input), record r { input = [] })

abbrev pub count_read : ℕ → Read (Unit {0})
count_read n = modify (λ r. record r { bytes_read = u64 (r.bytes_read + n) })

unfoldable pub read_byte : Read ℕ
read_byte = do buf ← read_full 1; count_read 1; pure (get_or buf 0 0)

unfoldable pub read_uint32 : Read ℕ
read_uint32 = do buf ← read_full 4; count_read 4; pure (uint32_of_bytes buf)

unfoldable pub read_pow2 : Read ℕ
read_pow2 = do b ← read_byte; if ltb 16 b then raise (bad_exponent b) else pure (2 ^ b)

unfoldable pub read_bytes : ℤ → Read (List ℕ)
read_bytes (negsuc n) = raise negative_count
read_bytes (pos n) = do buf ← read_full n; count_read n; pure buf

unfoldable pub read_message : Read (List ℕ)
read_message = do
  n ← read_uint32
  if ltb max_message_len n then raise (message_too_long n) else read_bytes (pos n)
