-- ===== src/Wire/Writer/Pending.antt =====
-- bufio.Writer, below wire/wire.go: the bytes that it has accepted, delivered or buffered.
use go_sqlite_rsync.Common.{
  ℕ, ◌-◌, ◌≤◌, ◌≡◌, refl, sym, ap, ◌∙◌, Option, none, some, List, [], ◌∷◌, ◌++◌, append-nil,
  append_assoc, length, take, drop, take-append-drop, length-drop, arith,
}
use go_sqlite_rsync.Wire.Writer.{Writer, buffer_size, hand_down, push_buffer, spill}

-- All that was accepted: delivered, or still in the buffer.
abbrev pub pending : Writer → List ℕ
pending w = w.delivered ++ w.buf

-- The buffer is not overfull.
abbrev pub Fits : Writer → Type 0
Fits w = length w.buf ≤ buffer_size

module _ (w : Writer) (chunk : List ℕ) where
  hand_down-all :
      (o : Option (ℕ × ℕ))
      → (hand_down w chunk o).0.delivered ++ (hand_down w chunk o).1 ≡ w.delivered ++ chunk
  hand_down-all none = append-nil _
  hand_down-all (some (n, e)) =
      append_assoc w.delivered (take n chunk) (drop n chunk)
      ∙ ap (◌++◌ w.delivered) (take-append-drop n chunk)

  hand_down-healthy :
      (o : Option (ℕ × ℕ)) → (hand_down w chunk o).0.fault ≡ none → (hand_down w chunk o).1 ≡ []
  hand_down-healthy none h = refl
  hand_down-healthy (some (n, e)) h = cc

  length-hand_down : (o : Option (ℕ × ℕ)) → length (hand_down w chunk o).1 ≤ length chunk
  length-hand_down none = omega arith
  length-hand_down (some (n, e)) = omega (arith, length-drop n chunk)

  hand_down-buf : (o : Option (ℕ × ℕ)) → (hand_down w chunk o).0.buf ≡ w.buf
  hand_down-buf none = refl
  hand_down-buf (some (n, e)) = refl

-- A property of `push_buffer w` from its two cases.
push_buffer_cases {ℓ} :
    (P : Writer → Type ℓ) (w : Writer)
    → (w.buf ≡ [] → P w)
    → ((b : ℕ) (bs : List ℕ)
        → w.buf ≡ b ∷ bs
        → P (record ((hand_down w (b ∷ bs) (w.sink w.delivered (b ∷ bs))).0) {
          buf = (hand_down w (b ∷ bs) (w.sink w.delivered (b ∷ bs))).1;
        }))
    → P (push_buffer w)
push_buffer_cases P w empty full = go w.buf refl
  where
    go : (l : List ℕ) → w.buf ≡ l → P (push_buffer w)
    go [] e = rw (e, push_buffer) (empty e)
    go (b ∷ bs) e = rw (e, push_buffer) (full b bs e)

pub push_buffer-pending : (w : Writer) → pending (push_buffer w) ≡ pending w
push_buffer-pending w =
    push_buffer_cases (λ v. pending v ≡ pending w) w (λ e. refl)
      λ b bs e. hand_down-all w (b ∷ bs) _ ∙ ap (◌++◌ w.delivered) (sym e)

-- Without a fault the buffer is empty afterwards.
pub push_buffer-healthy : (w : Writer) → (push_buffer w).fault ≡ none → (push_buffer w).buf ≡ []
push_buffer-healthy w =
    push_buffer_cases (λ v. v.fault ≡ none → v.buf ≡ []) w (λ e h. e)
      λ b bs e h. hand_down-healthy w (b ∷ bs) _ h

pub length-push_buffer : (w : Writer) → length (push_buffer w).buf ≤ length w.buf
length-push_buffer w =
    push_buffer_cases (λ v. length v.buf ≤ length w.buf) w (λ e. omega arith)
      λ b bs e.
        omega (arith, ap length e, length-hand_down w (b ∷ bs) (w.sink w.delivered (b ∷ bs)))

spill_cases {ℓ} :
    (P : Writer × List ℕ → Type ℓ) (p : List ℕ) (w : Writer)
    → (w.buf ≡ [] → P (hand_down w p (w.sink w.delivered p)))
    → (let room = buffer_size - length w.buf in
        P (push_buffer (record w { buf = w.buf ++ take room p }), drop room p))
    → P (spill p w)
spill_cases P p w empty full = go w.buf refl
  where
    go : (l : List ℕ) → w.buf ≡ l → P (spill p w)
    go [] e = rw (e, spill) (empty e)
    go (b ∷ bs) e = rw (e, spill) (rw e at full)

-- No byte is lost by a pass of the loop: what it does not take comes back.
pub spill-pending :
    (p : List ℕ) (w : Writer) → pending (spill p w).0 ++ (spill p w).1 ≡ pending w ++ p
spill-pending p w =
    spill_cases (λ r. pending r.0 ++ r.1 ≡ pending w ++ p) p w
      (λ e.
        let o = w.sink w.delivered p in
        simp (hand_down-buf w p o, e, append-nil) (hand_down-all w p o))
      (let room = buffer_size - length w.buf in
        ap (λ t. t ++ drop room p) (push_buffer-pending (record w { buf = w.buf ++ take room p }))
        ∙ append_assoc w.delivered (w.buf ++ take room p) (drop room p)
        ∙ ap (◌++◌ w.delivered) (
            append_assoc w.buf (take room p) (drop room p)
            ∙ ap (◌++◌ w.buf) (take-append-drop room p))
        ∙ sym (append_assoc w.delivered w.buf p))

-- After a pass without a fault the buffer is empty.
pub spill-healthy : (p : List ℕ) (w : Writer) → (spill p w).0.fault ≡ none → (spill p w).0.buf ≡ []
spill-healthy p w =
    spill_cases (λ r. r.0.fault ≡ none → r.0.buf ≡ []) p w (λ e h. hand_down-buf w p _ ∙ e)
      (push_buffer-healthy (record w { buf = w.buf ++ take (buffer_size - length w.buf) p }))

-- A pass on an empty buffer takes all of `p`, if there is no fault.
pub spill-empty :
    (p : List ℕ) (w : Writer) → w.buf ≡ [] → (spill p w).0.fault ≡ none → (spill p w).1 ≡ []
spill-empty p w e = rw (e, spill) (hand_down-healthy w p (w.sink w.delivered p))
