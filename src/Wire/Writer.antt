-- ===== src/Wire/Writer.antt =====
-- wire/wire.go, type Writer, over bufio.Writer with its buffer of 4096 bytes.
pub mod Pending
pub mod Loop
pub mod Sends
use go_sqlite_rsync.Common.{
  ℕ, zero, suc, ◌+◌, ◌-◌, ◌/◌, ◌^◌, bit_and, Bool, true, false, not, ◌&&◌, ◌||◌, Option, none, some,
  List, [], ◌∷◌, ◌++◌, length, take, drop, leb, ltb, ◌==◌, if◌then◌else◌,
}
use go_sqlite_rsync.Common.Act.{Act, Result, ok, err, pure, raise, ◌>>=◌, ◌>>◌, bind, modify}
use go_sqlite_rsync.Common.Int.{ℤ, pos, negsuc}
use go_sqlite_rsync.Common.Words.{u8, u32, u64}
use go_sqlite_rsync.Wire.{WireError, broken, bad_page_size}
use go_sqlite_rsync.Wire.Uint32.{bytes_of_uint32}

-- The stream below: given what it was handed before and one chunk, it takes the chunk (`none`) or
-- the first `n` bytes of it and fails with error `e`. A Go io.Writer that takes less than the whole
-- chunk must report an error.
abbrev pub Sink : Type 0
Sink = List ℕ → List ℕ → Option (ℕ × ℕ)

pub record Writer : Type 0 where
  pub sink : Sink
  pub delivered : List ℕ  -- what the stream below has taken
  pub buf : List ℕ  -- bufio: buffered bytes
  pub fault : Option ℕ  -- bufio: the first error, which stays
  pub bytes_written : ℕ  -- uint64

abbrev pub Write : Type 0
Write = Act Writer WireError (Unit {0})

abbrev pub buffer_size : ℕ
buffer_size = 4096

-- What the stream below does with one chunk.
abbrev pub hand_down : Writer → List ℕ → Option (ℕ × ℕ) → Writer × List ℕ
hand_down w chunk none = (record w { delivered = w.delivered ++ chunk }, [])
hand_down w chunk (some (n, e)) =
    (record w { delivered = w.delivered ++ take n chunk; fault = some e }, drop n chunk)

-- bufio.Writer.Flush, on a writer without a fault: what could not be delivered stays buffered.
abbrev pub push_buffer : Writer → Writer
push_buffer w = elim w.buf [
  | [] ↦ w
  | b ∷ bs ↦
      let (w', left) = hand_down w (b ∷ bs) (w.sink w.delivered (b ∷ bs)) in
      record w' { buf = left }
]

abbrev pub status : Writer → Result WireError (Unit {0}) × Writer
status w = elim w.fault [ none ↦ (ok tt, w) | some e ↦ (err (broken e), w) ]

unfoldable pub flush : Write
flush w = elim w.fault [ some e ↦ (err (broken e), w) | none ↦ status (push_buffer w) ]

-- One pass of the loop in bufio.Writer.Write: an empty buffer is passed over, another is filled and
-- flushed. What is left of `p` comes back.
abbrev pub spill : List ℕ → Writer → Writer × List ℕ
spill p w = elim w.buf [
  | [] ↦ hand_down w p (w.sink w.delivered p)
  | b ∷ bs ↦
      let room = buffer_size - length (b ∷ bs) in
      (push_buffer (record w { buf = (b ∷ bs) ++ take room p }), drop room p)
]

abbrev pub is_full : List ℕ → Writer → Bool
is_full p w = ltb (buffer_size - length w.buf) (length p)

-- The loop runs while `p` does not fit and there is no fault: at most twice, since after one pass
-- without a fault either `p` is used up or the buffer is empty.
unfoldable pub write_loop : ℕ → List ℕ → Writer → Writer × List ℕ
write_loop zero p w = (w, p)
write_loop (suc f) p w = elim w.fault [
  | some e ↦ (w, p)
  | none ↦ elim (is_full p w) [
    | false ↦ (w, p)
    | true ↦ let (w', left) = spill p w in write_loop f left w'
  ]
]

-- bufio.Writer.Write
unfoldable pub write : List ℕ → Write
write p w =
    let (w', left) = write_loop 2 p w in
    elim w'.fault [
      | some e ↦ (err (broken e), w')
      | none ↦ (ok tt, record w' { buf = w'.buf ++ left })
    ]

abbrev pub count_written : ℕ → Write
count_written n = modify (λ w. record w { bytes_written = u64 (w.bytes_written + n) })

-- The byte is counted whether or not it could be written.
unfoldable pub write_byte : ℕ → Write
write_byte b w =
    let (r, w') = write (b ∷ []) w in (r, record w' { bytes_written = u64 (w'.bytes_written + 1) })

unfoldable pub write_bytes : List ℕ → Write
write_bytes p = do write p; count_written (length p)

unfoldable pub write_uint32 : ℕ → Write
write_uint32 x = write_bytes (bytes_of_uint32 x)

-- `for v > 1 { v /= 2; n++ }`; each pass halves v, so v passes are enough.
unfoldable pub exponent_loop : ℕ → ℕ → ℕ → ℕ
exponent_loop zero v n = n
exponent_loop (suc f) v n = elim (ltb 1 v) [ true ↦ exponent_loop f (v / 2) (n + 1) | false ↦ n ]

-- `v&(v-1) != 0`; at 0 the source computes 0 & -1, which is 0 too.
unfoldable pub write_pow2 : ℤ → Write
unfolding exponent_loop
write_pow2 (negsuc n) = raise bad_page_size
write_pow2 (pos v) =
    if ltb 65536 v || not (bit_and v (v - 1) == 0)
    then raise bad_page_size
    else write_byte (u8 (exponent_loop v v 0))

-- The message byte goes out uncounted; the frame is flushed only after it was written whole.
unfoldable pub write_message : ℕ → List ℕ → Write
write_message msg_byte payload = do
  write (msg_byte ∷ [])
  write_uint32 (u32 (length payload))
  write_bytes payload
  flush
