-- ===== src/Sync/Run/Reads.antt =====
-- wire/wire.go: the input before and after each operation of a Reader, in a run.
use go_sqlite_rsync.Common.{
  ℕ, ◌+◌, ◌^◌, ◌≤◌, ◌≡◌, sym, subst, Bool, Bool-cases, inl, inr, List, [], take, drop, leb, ltb,
  get_or, length, length-drop, if◌then◌else◌, arith,
}
use go_sqlite_rsync.Common.Act.{Result, ok, err, bind, pure, raise, ◌>>=◌, ◌>>◌}
use go_sqlite_rsync.Common.Act.Steps.{Moves, Moves-bind}
use go_sqlite_rsync.Common.Int.{ℤ, pos, negsuc}
use go_sqlite_rsync.Wire.{WireError, bad_exponent, message_too_long, max_message_len}
use go_sqlite_rsync.Wire.Uint32.{uint32_of_bytes}
use go_sqlite_rsync.Wire.Reader.{
  Reader, Read, short_read, count_read, read_full, read_byte, read_uint32, read_pow2, read_bytes,
  read_message,
}
use go_sqlite_rsync.Sync.Run.{Rsync}

-- From `r` to `r'`: the input is no longer, and no more is counted than was taken from it.
pub record Shorter (r r' : Reader) : Type 0 where
  pub input : length r'.input ≤ length r.input
  pub counted : r'.bytes_read + length r'.input ≤ r.bytes_read + length r.input

pub Shorter-refl : (r : Reader) → Shorter r r
Shorter-refl r = record { input = omega arith; counted = omega arith }

pub Shorter-trans : (a b c : Reader) → Shorter a b → Shorter b c → Shorter a c
Shorter-trans a b c h k = record {
  input = omega (arith, h.input, k.input);
  counted = omega (arith, h.counted, k.counted);
}

-- Bytes that are read, and counted or not.
counted_read :
    {A : Type 0} (n : ℕ) (f : List ℕ → A) (r : Reader)
    → Shorter r ((do buf ← read_full n; count_read n; pure (f buf)) r).1
unfolding read_full
counted_read n f r = elim (Bool-cases (leb n (length r.input))) [
  | inl enough ↦
      let le : n ≤ length r.input = ground (arith, enough) in
      subst (λ b. Shorter r (after (whole b))) (sym enough)
        (record {
          input = omega (arith, length-drop n r.input);
          counted = omega (arith, length-drop n r.input, le);
        })
  | inr short ↦
      subst (λ b. Shorter r (after (whole b))) (sym short)
        (record { input = omega arith; counted = omega arith })
]
  where
    whole : Bool → Result WireError (List ℕ) × Reader
    whole b =
        if b
        then (ok (take n r.input), record r { input = drop n r.input })
        else (err (short_read r.ending r.input), record r { input = [] })

    after : Result WireError (List ℕ) × Reader → Reader
    after x = (bind x (λ buf. count_read n >> pure (f buf))).1

pub Moves-read_byte : Moves Shorter read_byte
unfolding read_byte
Moves-read_byte = counted_read 1 (λ buf. get_or buf 0 0)

pub Moves-read_uint32 : Moves Shorter read_uint32
unfolding read_uint32
Moves-read_uint32 = counted_read 4 uint32_of_bytes

pub Moves-read_pow2 : Moves Shorter read_pow2
unfolding read_pow2
Moves-read_pow2 = Moves-bind read_byte _ Shorter-trans Moves-read_byte (λ b r. checked b r)
  where
    checked : (b : ℕ) → Moves Shorter (if ltb 16 b then raise (bad_exponent b) else pure (2 ^ b))
    checked b r = elim (Bool-cases (ltb 16 b)) [
      | inl big ↦
          subst (λ c. Shorter r ((if c then raise (bad_exponent b) else pure (2 ^ b)) r).1)
            (sym big) (Shorter-refl r)
      | inr fits ↦
          subst (λ c. Shorter r ((if c then raise (bad_exponent b) else pure (2 ^ b)) r).1)
            (sym fits) (Shorter-refl r)
    ]

pub Moves-read_bytes : (n : ℤ) → Moves Shorter (read_bytes n)
unfolding read_bytes
Moves-read_bytes (negsuc n) = Shorter-refl
Moves-read_bytes (pos n) = counted_read n (λ buf. buf)

pub Moves-read_message : Moves Shorter read_message
unfolding read_message
Moves-read_message = Moves-bind read_uint32 _ Shorter-trans Moves-read_uint32 (λ n r. checked n r)
  where
    payload : ℕ → Bool → Read (List ℕ)
    payload n c = if c then raise (message_too_long n) else read_bytes (pos n)

    checked : (n : ℕ) → Moves Shorter (payload n (ltb max_message_len n))
    checked n r = elim (Bool-cases (ltb max_message_len n)) [
      | inl long ↦ subst (λ c. Shorter r (payload n c r).1) (sym long) (Shorter-refl r)
      | inr fits ↦ subst (λ c. Shorter r (payload n c r).1) (sym fits) (Moves-read_bytes (pos n) r)
    ]

pub Shorter-same : (s : Rsync) (r : Reader) → r ≡ s.reader → Shorter s.reader r
Shorter-same s r h = subst (Shorter s.reader) (sym h) (Shorter-refl s.reader)
