-- ===== src/Wire/Writer/Loop.antt =====
-- bufio.Writer, below wire/wire.go: the loop of Write, and how a call of it ends.
use go_sqlite_rsync.Common.{
  ◌≢◌, ℕ, zero, suc, ◌+◌, ◌≤◌, ◌≡◌, refl, sym, ap, ◌∙◌, ◌⊎◌, inl, inr, true, false, Bool-cases,
  none, some, Option-cases, List, [], ◌++◌, append_assoc, length, length-append, arith,
}
use go_sqlite_rsync.Common.Act.{Result, ok, err}
use go_sqlite_rsync.Wire.{WireError, broken}
use go_sqlite_rsync.Wire.Writer.{Writer, buffer_size, spill, is_full, write_loop, write}
use go_sqlite_rsync.Wire.Writer.Pending.{pending, Fits, spill-pending, spill-healthy, spill-empty}

write_loop-pending :
    (f : ℕ) (p : List ℕ) (w : Writer)
    → pending (write_loop f p w).0 ++ (write_loop f p w).1 ≡ pending w ++ p
unfolding write_loop
write_loop-pending zero p w = refl
write_loop-pending (suc f) p w = elim (Option-cases (w.fault)) [
  | inr (e, h) ↦ rw (h, write_loop)
  | inl h ↦ elim (Bool-cases (is_full p w)) [
    | inl full ↦
        rw (h, full, write_loop)
          (write_loop-pending f (spill p w).1 (spill p w).0 ∙ spill-pending p w)
    | inr fits ↦ rw (h, fits, write_loop)
  ]
]

write_loop-full :
    (f : ℕ) (p : List ℕ) (w : Writer)
    → w.fault ≡ none
    → is_full p w ≡ true
    → write_loop (suc f) p w ≡ write_loop f (spill p w).1 (spill p w).0
unfolding write_loop
write_loop-full f p w h full = simp (h, full, write_loop)

write_loop-stops :
    (f : ℕ) (p : List ℕ) (w : Writer)
    → (w.fault ≢ none) ⊎ (is_full p w ≡ false)
    → write_loop (suc f) p w ≡ (w, p)
unfolding write_loop
write_loop-stops f p w (inl h) = elim (Option-cases (w.fault)) [
  | inl e ↦ absurd (h e)
  | inr (x, e) ↦ simp (e, write_loop)
]
write_loop-stops f p w (inr h) = elim (Option-cases (w.fault)) [
  | inl e ↦ simp (e, h, write_loop)
  | inr (x, e) ↦ simp (e, write_loop)
]

-- One pass is enough on an empty buffer, and two on any: what is left then fits into the buffer, if
-- there is no fault.
abbrev LeavesRoom : Writer × List ℕ → Type 0
LeavesRoom r = r.0.fault ≡ none → length r.1 + length r.0.buf ≤ buffer_size

one_pass : (p : List ℕ) (w : Writer) → (w.fault ≡ none → w.buf ≡ []) → LeavesRoom (write_loop 1 p w)
one_pass p w e = elim (Option-cases (w.fault)) [
  | inr (x, h) ↦ rw (write_loop-stops 0 p w (inl (λ n. cc))) (λ f. cc)
  | inl h ↦ elim (Bool-cases (is_full p w)) [
    | inl full ↦ rw (write_loop-full 0 p w h full) (
        unfold write_loop in
        λ f. omega (arith, ap length (spill-empty p w (e h) f), ap length (spill-healthy p w f)))
    | inr fits ↦ rw (write_loop-stops 0 p w (inr fits)) λ f. ground (arith, ap length (e h))
  ]
]

two_passes : (p : List ℕ) (w : Writer) → Fits w → LeavesRoom (write_loop 2 p w)
two_passes p w small = elim (Option-cases (w.fault)) [
  | inr (x, h) ↦ rw (write_loop-stops 1 p w (inl (λ n. cc))) (λ f. cc)
  | inl h ↦ elim (Bool-cases (is_full p w)) [
    | inl full ↦
        rw (write_loop-full 1 p w h full) (one_pass (spill p w).1 (spill p w).0 (spill-healthy p w))
    | inr fits ↦ rw (write_loop-stops 1 p w (inr fits)) λ f. ground arith
  ]
]

-- How a write of `p` ends: all of `p` accepted, or a fault, and of all that was accepted and `p`
-- some first part delivered and nothing else.
pub data Wrote (w : Writer) (p : List ℕ) (r : Result WireError (Unit {0}) × Writer) : Type 0 where
  whole : r.0 ≡ ok tt → r.1.fault ≡ none → pending r.1 ≡ pending w ++ p → Fits r.1 → Wrote w p r
  cut_off :
      (e : ℕ) (lost : List ℕ)
      → r.0 ≡ err (broken e)
      → r.1.fault ≡ some e
      → r.1.delivered ++ lost ≡ pending w ++ p
      → Wrote w p r

write-healthy :
    (p : List ℕ) (w : Writer)
    → (write_loop 2 p w).0.fault ≡ none
    → write p w ≡ (
      ok tt,
      record ((write_loop 2 p w).0) { buf = (write_loop 2 p w).0.buf ++ (write_loop 2 p w).1 },
    )
unfolding write
write-healthy p w h = simp (h, write)

write-faulty :
    (p : List ℕ) (w : Writer) {e : ℕ}
    → (write_loop 2 p w).0.fault ≡ some e
    → write p w ≡ (err (broken e), (write_loop 2 p w).0)
unfolding write
write-faulty p w h = simp (h, write)

-- Whatever the stream below does, bufio's Write of `p` ends in one of these ways.
pub write-Wrote : (p : List ℕ) (w : Writer) → Fits w → Wrote w p (write p w)
write-Wrote p w small = elim (Option-cases ((write_loop 2 p w).0.fault)) [
  | inl h ↦ rw (write-healthy p w h) (
      whole refl h
        (sym (
            append_assoc (write_loop 2 p w).0.delivered (write_loop 2 p w).0.buf
              (write_loop 2 p w).1)
          ∙ write_loop-pending 2 p w)
        (omega (
          arith,
          two_passes p w small h,
          length-append (write_loop 2 p w).0.buf (write_loop 2 p w).1,
        )))
  | inr (e, h) ↦ rw (write-faulty p w h) (
      cut_off e ((write_loop 2 p w).0.buf ++ (write_loop 2 p w).1) refl h (
        sym (
          append_assoc (write_loop 2 p w).0.delivered (write_loop 2 p w).0.buf (write_loop 2 p w).1)
        ∙ write_loop-pending 2 p w))
]
