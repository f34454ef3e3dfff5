-- ===== src/Wire/Writer/Sends.antt =====
-- wire/wire.go: what the operations of a Writer send, put together from bufio's Write and Flush.
use go_sqlite_rsync.Common.{
  ◌⊎◌, subst, ℕ, ◌+◌, ◌%◌, ◌^◌, ◌≡◌, refl, sym, ap, ◌∙◌, inl, inr, none, some, Option-cases, List,
  [], ◌∷◌, ◌++◌, append-nil, append_assoc, length, arith,
}
use go_sqlite_rsync.Common.Act.{Result, ok, err, bind, ◌>>◌}
use go_sqlite_rsync.Common.Words.{u32}
use go_sqlite_rsync.Wire.{WireError, broken}
use go_sqlite_rsync.Wire.Uint32.{bytes_of_uint32}
use go_sqlite_rsync.Wire.Writer.{
  Writer, Write, push_buffer, status, flush, write, count_written, write_byte, write_bytes,
  write_uint32, write_message,
}
use go_sqlite_rsync.Wire.Writer.Pending.{
  pending, Fits, push_buffer-pending, push_buffer-healthy, length-push_buffer,
}
use go_sqlite_rsync.Wire.Writer.Loop.{Wrote, whole, cut_off, write-Wrote}

-- On every writer without a fault, `m` sends `p`.
abbrev pub Sends : Write → List ℕ → Type 0
Sends m p = (w : Writer) → w.fault ≡ none → Fits w → Wrote w p (m w)

-- Two in a row send one string after the other; the second is not begun after a fault.
pub Sends-then : (m k : Write) (p q : List ℕ) → Sends m p → Sends k q → Sends (m >> k) (p ++ q)
Sends-then m k p q sm sk w ready small = go (m w) (sm w ready small)
  where
    go :
        (r : Result WireError (Unit {0}) × Writer)
        → Wrote w p r
        → Wrote w (p ++ q) (bind r (λ _. k))
    go (r, w') (whole done healthy all fits) = rw done (after (k w') (sk w' healthy fits))
      where
        after : (r : Result WireError (Unit {0}) × Writer) → Wrote w' q r → Wrote w (p ++ q) r
        after r (whole d h a f) =
            whole d h (a ∙ ap (λ t. t ++ q) all ∙ append_assoc (pending w) p q) f
        after r (cut_off e lost d h a) =
            cut_off e lost d h (a ∙ ap (λ t. t ++ q) all ∙ append_assoc (pending w) p q)
    go (r, w') (cut_off e lost failed fault all) = rw failed (
        cut_off e (lost ++ q) refl fault (
          sym (append_assoc w'.delivered lost q)
          ∙ ap (λ t. t ++ q) all
          ∙ append_assoc (pending w) p q))

pub Sends-write : (p : List ℕ) → Sends (write p) p
Sends-write p w ready small = write-Wrote p w small

pub Sends-count : (n : ℕ) → Sends (count_written n) []
Sends-count n w ready small = whole refl ready (sym (append-nil (pending w))) small

pub Sends-write_byte : (b : ℕ) → Sends (write_byte b) (b ∷ [])
unfolding write_byte
Sends-write_byte b w ready small = go (write (b ∷ []) w) (write-Wrote (b ∷ []) w small)
  where
    go :
        (r : Result WireError (Unit {0}) × Writer)
        → Wrote w (b ∷ []) r
        → Wrote w (b ∷ []) (r.0, record (r.1) { bytes_written = (r.1.bytes_written + 1) % 2 ^ 64 })
    go r (whole d h a f) = whole d h a f
    go r (cut_off e lost d h a) = cut_off e lost d h a

pub Sends-write_bytes : (p : List ℕ) → Sends (write_bytes p) p
unfolding write_bytes
Sends-write_bytes p w ready small =
    let sent =
      Sends-then (write p) (count_written (length p)) p [] (Sends-write p) (Sends-count (length p))
        w ready small in
    rw append-nil at sent

pub Sends-write_uint32 : (x : ℕ) → Sends (write_uint32 x) (bytes_of_uint32 x)
unfolding write_uint32
Sends-write_uint32 x = Sends-write_bytes (bytes_of_uint32 x)

status-healthy : (w : Writer) → w.fault ≡ none → status w ≡ (ok tt, w)
status-healthy w h = simp (h, status)

status-faulty : (w : Writer) {e : ℕ} → w.fault ≡ some e → status w ≡ (err (broken e), w)
status-faulty w h = simp (h, status)

flush-healthy :
    (w : Writer) → w.fault ≡ none → (push_buffer w).fault ≡ none → flush w ≡ (ok tt, push_buffer w)
unfolding flush
flush-healthy w e h = simp (e, flush, status-healthy (push_buffer w) h)

flush-faulty :
    (w : Writer) {e : ℕ}
    → w.fault ≡ none
    → (push_buffer w).fault ≡ some e
    → flush w ≡ (err (broken e), push_buffer w)
unfolding flush
flush-faulty w n h = simp (n, flush, status-faulty (push_buffer w) h)

pub Sends-flush : Sends flush []
Sends-flush w ready small = elim (Option-cases ((push_buffer w).fault)) [
  | inl h ↦ rw (flush-healthy w ready h) (
      whole refl h (push_buffer-pending w ∙ sym (append-nil (pending w)))
        (omega (arith, length-push_buffer w)))
  | inr (e, h) ↦
      rw (flush-faulty w ready h) (
        cut_off e (push_buffer w).buf refl h (push_buffer-pending w ∙ sym (append-nil (pending w))))
]

-- A flush that reports no error leaves the buffer empty.
pub flush-empties : (w : Writer) → w.fault ≡ none → (flush w).0 ≡ ok tt → (flush w).1.buf ≡ []
flush-empties w ready done = elim (Option-cases ((push_buffer w).fault)) [
  | inl h ↦ rw (flush-healthy w ready h) (push_buffer-healthy w h)
  | inr (e, h) ↦ absurd (ground (arith, done, flush-faulty w ready h))
]

-- The bytes of a *_MSG or *_ERROR message.
abbrev pub frame : ℕ → List ℕ → List ℕ
frame msg_byte payload = msg_byte ∷ (bytes_of_uint32 (u32 (length payload)) ++ payload)

pub Sends-flushed : (m : Write) (p : List ℕ) → Sends m p → Sends (m >> flush) p
Sends-flushed m p s =
    subst (Sends (m >> flush)) (append-nil p) (Sends-then m flush p [] s Sends-flush)

pub Sends-write_message :
    (msg_byte : ℕ) (payload : List ℕ)
    → Sends (write_message msg_byte payload) (frame msg_byte payload)
unfolding write_message
Sends-write_message b payload =
    let x : ℕ = u32 (length payload) in
    Sends-then (write (b ∷ [])) (write_uint32 x >> (write_bytes payload >> flush)) (b ∷ []) _
      (Sends-write (b ∷ []))
      (Sends-then (write_uint32 x) (write_bytes payload >> flush) (bytes_of_uint32 x) payload
        (Sends-write_uint32 x)
        (Sends-flushed (write_bytes payload) payload (Sends-write_bytes payload)))

-- An action that leaves the buffer empty where it reports no error.
abbrev pub Empties : Write → Type 0
Empties m = (w : Writer) → w.fault ≡ none → Fits w → (m w).0 ≡ ok tt → (m w).1.buf ≡ []

pub Empties-flush : Empties flush
Empties-flush w ready small = flush-empties w ready

pub Empties-then : (m k : Write) (p : List ℕ) → Sends m p → Empties k → Empties (m >> k)
Empties-then m k p s e w ready small = go (m w) (s w ready small)
  where
    go :
        (r : Result WireError (Unit {0}) × Writer)
        → Wrote w p r
        → (bind r (λ _. k)).0 ≡ ok tt
        → (bind r (λ _. k)).1.buf ≡ []
    go (ok u, w') (whole d h a f) done = e w' h f done
    go (ok u, w') (cut_off x lost d h a) done = cc
    go (err x, w') s done = cc

Empties-write_message : (b : ℕ) (payload : List ℕ) → Empties (write_message b payload)
unfolding write_message
Empties-write_message b payload =
    let x : ℕ = u32 (length payload) in
    Empties-then (write (b ∷ [])) (write_uint32 x >> (write_bytes payload >> flush)) (b ∷ [])
      (Sends-write (b ∷ []))
      (Empties-then (write_uint32 x) (write_bytes payload >> flush) (bytes_of_uint32 x)
        (Sends-write_uint32 x)
        (Empties-then (write_bytes payload) flush payload (Sends-write_bytes payload)
          Empties-flush))

-- WriteMessage either delivers all that was accepted before and then the whole frame, or reports
-- the stream's error, and then the stream has some first part of these bytes and nothing else.
pub write_message_delivers :
    (b : ℕ) (payload : List ℕ) (w : Writer)
    → w.fault ≡ none
    → Fits w
    → let r = write_message b payload w in
      ((r.0 ≡ ok tt) × (r.1.delivered ≡ pending w ++ frame b payload))
      ⊎ ((e : ℕ) × (lost : List ℕ) × (r.0 ≡ err (broken e))
          × (r.1.delivered ++ lost ≡ pending w ++ frame b payload))
write_message_delivers b payload w ready small = go (Sends-write_message b payload w ready small)
  where
    go :
        Wrote w (frame b payload) (write_message b payload w)
        → ((write_message b payload w).0 ≡ ok tt)
            × ((write_message b payload w).1.delivered ≡ pending w ++ frame b payload)
          ⊎ ((e : ℕ) × (lost : List ℕ) × ((write_message b payload w).0 ≡ err (broken e))
              × ((write_message b payload w).1.delivered ++ lost ≡ pending w ++ frame b payload))
    go (whole d h a f) = inl (
      d,
      sym (append-nil _)
          ∙ ap (◌++◌ (write_message b payload w).1.delivered)
              (sym (Empties-write_message b payload w ready small d))
          ∙ a,
    )
    go (cut_off e lost d h a) = inr (e, lost, d, a)
