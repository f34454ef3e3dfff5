-- ===== src/Wire/RoundTrip.antt =====
-- wire/wire.go: a Reader on what a Writer put together.
use go_sqlite_rsync.Common.{
  ℕ, ◌+◌, ◌≤◌, ◌<◌, ◌≡◌, refl, ap, ◌∙◌, List, [], ◌∷◌, ◌++◌, length, length-append, take, drop,
  take-append_left, drop-append_left, ltb, true, false, arith,
}
use go_sqlite_rsync.Common.Act.{ok, err}
use go_sqlite_rsync.Common.Int.{pos}
use go_sqlite_rsync.Common.Words.{u32, u64, IsU32}
use go_sqlite_rsync.Wire.{message_too_long, max_message_len}
use go_sqlite_rsync.Wire.Uint32.{bytes_of_uint32, uint32_of_bytes-bytes_of_uint32}
use go_sqlite_rsync.Wire.Reader.{
  Reader, short_read, read_full, read_byte, read_uint32, read_bytes, read_message,
}

-- The reader after `n` more bytes were taken and counted, with `rest` still to come.
abbrev pub after_read : Reader → ℕ → List ℕ → Reader
after_read r n rest = record r { input = rest; bytes_read = u64 (r.bytes_read + n) }

module _ (r : Reader) (rest : List ℕ) where
  pub read_full-enough :
      (bs : List ℕ)
      → r.input ≡ bs ++ rest
      → read_full (length bs) r ≡ (ok bs, record r { input = rest })
  unfolding read_full
  read_full-enough bs e = ground (
    arith,
    ap length e,
    length-append bs rest,
    ap (take (length bs)) e,
    take-append_left (length bs) bs rest refl,
    ap (drop (length bs)) e,
    drop-append_left (length bs) bs rest refl,
  )

  pub read_byte_lem : (b : ℕ) → r.input ≡ b ∷ rest → read_byte r ≡ (ok b, after_read r 1 rest)
  unfolding read_byte
  read_byte_lem b e = rw (read_full-enough (b ∷ []) e)

  pub read_bytes_lem :
      (bs : List ℕ)
      → r.input ≡ bs ++ rest
      → read_bytes (pos (length bs)) r ≡ (ok bs, after_read r (length bs) rest)
  unfolding read_bytes
  read_bytes_lem bs e = rw (read_full-enough bs e)

  four_read :
      (x : ℕ)
      → r.input ≡ bytes_of_uint32 x ++ rest
      → read_full 4 r ≡ (ok (bytes_of_uint32 x), record r { input = rest })
  unfolding bytes_of_uint32
  four_read x e = read_full-enough (bytes_of_uint32 x) e

  pub read_uint32-bytes_of_uint32 :
      (x : ℕ)
      → IsU32 x
      → r.input ≡ bytes_of_uint32 x ++ rest
      → read_uint32 r ≡ (ok x, after_read r 4 rest)
  unfolding read_uint32
  read_uint32-bytes_of_uint32 x small e =
      rw (four_read x e, uint32_of_bytes-bytes_of_uint32 x small)

-- ReadMessage on a frame whose payload is at most 1 MiB gives the payload and leaves what follows.
pub read_message-frame :
    (r : Reader) (payload rest : List ℕ)
    → length payload ≤ max_message_len
    → r.input ≡ bytes_of_uint32 (u32 (length payload)) ++ (payload ++ rest)
    → read_message r
      ≡ (ok payload, after_read (after_read r 4 (payload ++ rest)) (length payload) rest)
unfolding read_message
read_message-frame r payload rest small e =
    let n : u32 (length payload) ≡ length payload = omega arith in
    let fits : ltb max_message_len (length payload) ≡ false = ground arith in
    rw
      (
        read_uint32-bytes_of_uint32 r (payload ++ rest) (u32 (length payload)) (omega arith) e,
        n,
        fits,
      )
      (read_bytes_lem (after_read r 4 (payload ++ rest)) rest payload refl)

-- An announced length above 1 MiB is refused before any of the payload is read.
pub read_message_too_long :
    (r : Reader) (n : ℕ) (rest : List ℕ)
    → max_message_len < n
    → IsU32 n
    → r.input ≡ bytes_of_uint32 n ++ rest
    → read_message r ≡ (err (message_too_long n), after_read r 4 rest)
unfolding read_message
read_message_too_long r n rest big small e =
    let refused : ltb max_message_len n ≡ true = ground arith in
    rw (read_uint32-bytes_of_uint32 r rest n small e, refused)

read_full_short :
    (r : Reader) (n : ℕ)
    → length r.input < n
    → read_full n r ≡ (err (short_read r.ending r.input), record r { input = [] })
unfolding read_full
read_full_short r n h = ground arith

read_bytes_short :
    (r : Reader) (n : ℕ)
    → length r.input < n
    → read_bytes (pos n) r ≡ (err (short_read r.ending r.input), record r { input = [] })
unfolding read_bytes
read_bytes_short r n h = rw (read_full_short r n h)

no_length :
    (r : Reader)
    → length r.input < 4
    → read_message r ≡ (err (short_read r.ending r.input), record r { input = [] })
unfolding read_message read_uint32
no_length r h = rw (read_full_short r 4 h)

no_payload :
    (r : Reader) (n : ℕ) (front : List ℕ)
    → n ≤ max_message_len
    → length front < n
    → r.input ≡ bytes_of_uint32 n ++ front
    → read_message r
      ≡ (err (short_read r.ending front), record (after_read r 4 front) { input = [] })
unfolding read_message
no_payload r n front small cut e =
    let fits : ltb max_message_len n ≡ false = ground arith in
    rw (read_uint32-bytes_of_uint32 r front n (omega arith) e, fits)
      (read_bytes_short (after_read r 4 front) n cut)

-- A frame that is cut off anywhere is never read as a message: ReadMessage has read all there was and
-- fails, with the error of a read that the end of the stream met after the last bytes of the frame that
-- came.
pub read_message_cut :
    (r : Reader) (payload front lost : List ℕ)
    → length payload ≤ max_message_len
    → front ++ lost ≡ bytes_of_uint32 (u32 (length payload)) ++ payload
    → 1 ≤ length lost
    → r.input ≡ front
    → (skipped came : List ℕ) × (skipped ++ came ≡ front)
      × ((read_message r).0 ≡ err (short_read r.ending came))
      × ((read_message r).1.input ≡ [])
unfolding bytes_of_uint32
read_message_cut r payload front lost small whole some_lost e = cut front whole e
  where
    early :
        (front : List ℕ)
        → length r.input < 4
        → r.input ≡ front
        → (skipped came : List ℕ) × (skipped ++ came ≡ front)
          × ((read_message r).0 ≡ err (short_read r.ending came))
          × ((read_message r).1.input ≡ [])
    early front h e =
        ([], r.input, e, ap (λ x. x.0) (no_length r h), ap (λ x. x.1.input) (no_length r h))

    cut :
        (front : List ℕ)
        → front ++ lost ≡ bytes_of_uint32 (u32 (length payload)) ++ payload
        → r.input ≡ front
        → (skipped came : List ℕ) × (skipped ++ came ≡ front)
          × ((read_message r).0 ≡ err (short_read r.ending came))
          × ((read_message r).1.input ≡ [])
    cut [] whole e = early [] (omega (arith, ap length e)) e
    cut (a ∷ []) whole e = early (a ∷ []) (omega (arith, ap length e)) e
    cut (a ∷ b ∷ []) whole e = early (a ∷ b ∷ []) (omega (arith, ap length e)) e
    cut (a ∷ b ∷ c ∷ []) whole e = early (a ∷ b ∷ c ∷ []) (omega (arith, ap length e)) e
    cut (a ∷ b ∷ c ∷ d ∷ front) whole e =
        let rest : front ++ lost ≡ payload = ap (drop 4) whole in
        let four : a ∷ b ∷ c ∷ d ∷ [] ≡ bytes_of_uint32 (u32 (length payload)) =
          ap (take 4) whole in
        let n : u32 (length payload) ≡ length payload = omega arith in
        let read =
          no_payload r (u32 (length payload)) front (omega (arith, n))
            (omega (arith, n, ap length rest, length-append front lost, some_lost))
            (e ∙ ap (λ x. x ++ front) four) in
        (a ∷ b ∷ c ∷ d ∷ [], front, refl, ap (λ x. x.0) read, ap (λ x. x.1.input) read)
