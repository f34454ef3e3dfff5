-- ===== src/Hash/Sponge/Absorb.antt =====
-- HashUpdate by blocks, and the padding that HashFinal adds.
use go_sqlite_rsync.Hash.Sponge.Ready.{length-xor_byte, xor_byte-IsU64}
use go_sqlite_rsync.Common.{
  bit_xor, ℕ, zero, suc, ◌+◌, ◌-◌, ◌*◌, ◌/◌, ◌≤◌, ◌<◌, ◌≡◌, refl, sym, ap, ap₂, All, ◌∙◌, inl, inr,
  Bool-cases, some, List, [], ◌∷◌, ◌++◌, foldl, foldl-append, length, length-append,
  length-replicate, length-take, length-drop, take, drop, take-append-drop, replicate, set-get_or,
  set, ◌==◌, arith,
}
use go_sqlite_rsync.Common.Bits.{bit_xor-zero}
use go_sqlite_rsync.Common.Words.{IsU64}
use go_sqlite_rsync.Hash.Keccak.{lane, keccak_f1600_step}
use go_sqlite_rsync.Hash.Sponge.{HashContext, xor_byte, advance, pad}
use go_sqlite_rsync.Hash.Sponge.Ready.{IsReady, absorb_byte, hash_update-some}
use go_sqlite_rsync.Hash.Sponge.Reference.{padding, xor_block, absorb_blocks}

pub length-padding : (r n : ℕ) → n < r → n + length (padding r n) ≡ r
unfolding padding
length-padding r n h = ground (
  arith,
  length-append {A = ℕ} (replicate (r - 2 - n) 0) (0x80 ∷ []),
  length-replicate {A = ℕ} (r - 2 - n) 0,
)

padding_two : (r n : ℕ) → n + 1 < r → padding r n ≡ 0x06 ∷ (replicate (r - 2 - n) 0 ++ 0x80 ∷ [])
unfolding padding
padding_two r n lt = ground arith

xor_byte-zero : (s : List ℕ) (n : ℕ) → xor_byte s n 0 ≡ s
unfolding xor_byte
xor_byte-zero s n =
    ap (λ v. set s (n / 8) (bit_xor (lane s (n / 8)) v)) (omega arith)
    ∙ ap (set s (n / 8)) (bit_xor-zero (lane s (n / 8)))
    ∙ set-get_or s (n / 8) 0

xor_block-zeros : (k i : ℕ) (s : List ℕ) → xor_block s i (replicate k 0) ≡ s
unfolding xor_block
xor_block-zeros zero i s = refl
xor_block-zeros (suc k) i s =
    ap (λ t. xor_block t (i + 1) (replicate k 0)) (xor_byte-zero s i) ∙ xor_block-zeros k (i + 1) s

abbrev pub context : ℕ → ℕ → List ℕ → ℕ → HashContext
context r z s n = record { s = s; n_rate = r; n_loaded = n; i_size = z }

module _ (r z : ℕ) (cap : r ≤ 200) where
  absorb_byte_inner :
      (s : List ℕ) (n b : ℕ)
      → n + 1 < r
      → absorb_byte (context r z s n) b ≡ context r z (xor_byte s n b) (n + 1)
  unfolding advance
  absorb_byte_inner s n b h = ground arith

  absorb_byte_last :
      (s : List ℕ) (n b : ℕ)
      → n + 1 ≡ r
      → absorb_byte (context r z s n) b ≡ context r z (keccak_f1600_step (xor_byte s n b)) 0
  unfolding advance
  absorb_byte_last s n b h = ground arith

  -- Bytes that leave the block open.
  pub absorb_open :
      (bs : List ℕ) (s : List ℕ) (n : ℕ)
      → n + length bs < r
      → foldl absorb_byte (context r z s n) bs ≡ context r z (xor_block s n bs) (n + length bs)
  unfolding xor_block
  absorb_open [] s n h = ap (context r z s) (omega arith)
  absorb_open (b ∷ bs) s n h =
      rw (absorb_byte_inner s n b (omega arith))
        (absorb_open bs (xor_byte s n b) (n + 1) (omega arith) ∙ ap (context r z _) (omega arith))

  -- Bytes that fill the block.
  absorb_full :
      (bs : List ℕ) (s : List ℕ) (n : ℕ)
      → n < r
      → n + length bs ≡ r
      → foldl absorb_byte (context r z s n) bs
        ≡ context r z (keccak_f1600_step (xor_block s n bs)) 0
  unfolding xor_block
  absorb_full [] s n h e = absurd (omega arith)
  absorb_full (b ∷ []) s n h e = absorb_byte_last s n b (omega arith)
  absorb_full (b ∷ c ∷ bs) s n h e =
      rw (absorb_byte_inner s n b (omega arith))
        (absorb_full (c ∷ bs) (xor_byte s n b) (n + 1) (omega arith) (omega arith))

  pub absorb-blocks :
      (k : ℕ) (m : List ℕ) (s : List ℕ)
      → 0 < r
      → length m ≡ k * r
      → foldl absorb_byte (context r z s 0) m ≡ context r z (absorb_blocks k r s m) 0
  unfolding absorb_blocks
  absorb-blocks zero [] s pos e = refl
  absorb-blocks zero (b ∷ m) s pos e = absurd (omega arith)
  absorb-blocks (suc k) m s pos e =
      ap (foldl absorb_byte (context r z s 0)) (sym (take-append-drop r m))
      ∙ foldl-append absorb_byte (context r z s 0) (take r m) (drop r m)
      ∙ ap (λ p. foldl absorb_byte p (drop r m))
          (absorb_full (take r m) s 0 pos (omega (arith, length-take r m)))
      ∙ absorb-blocks k (drop r m) _ pos (omega (arith, length-drop r m))

  xor_block-append :
      (bs cs : List ℕ) (s : List ℕ) (i : ℕ)
      → xor_block s i (bs ++ cs) ≡ xor_block (xor_block s i bs) (i + length bs) cs
  unfolding xor_block
  xor_block-append [] cs s i = ap (λ j. xor_block s j cs) (omega arith)
  xor_block-append (b ∷ bs) cs s i =
      xor_block-append bs cs (xor_byte s i b) (i + 1)
      ∙ ap (λ j. xor_block (xor_block (xor_byte s i b) (i + 1) bs) j cs) (omega arith)

  absorb_zeros :
      (k : ℕ) (s : List ℕ) (n : ℕ)
      → n + k < r
      → foldl absorb_byte (context r z s n) (replicate k 0) ≡ context r z s (n + k)
  absorb_zeros k s n h =
      absorb_open (replicate k 0) s n (omega (arith, length-replicate {A = ℕ} k 0))
      ∙ ap₂ (context r z) (xor_block-zeros k n s) (omega (arith, length-replicate {A = ℕ} k 0))

  context-IsReady :
      (s : List ℕ) (n : ℕ) → length s ≡ 25 → All IsU64 s → n < r → IsReady (context r z s n)
  context-IsReady s n e h lt = record { lanes = e; words = h; room = lt; fits = cap }

  -- HashFinal pads as if the padding had been part of the input: in one byte, or in two and zeros.
  pad_one :
      (s : List ℕ) (n : ℕ)
      → IsReady (context r z s n)
      → n + 1 ≡ r
      → pad (context r z s n) ≡ some (absorb_byte (context r z s n) 0x86)
  unfolding pad
  pad_one s n h e = ground (arith, hash_update-some (context r z s n) (0x86 ∷ []) h)

  pad_two :
      (s : List ℕ) (n : ℕ)
      → IsReady (context r z s n)
      → n + 1 < r
      → pad (context r z s n) ≡ some (absorb_byte (context r z (xor_byte s n 0x06) (r - 1)) 0x80)
  unfolding pad
  pad_two s n h lt = ground (
    arith,
    hash_update-some (context r z s n) (0x06 ∷ []) h,
    absorb_byte_inner s n 0x06 lt,
    hash_update-some (context r z (xor_byte s n 0x06) (r - 1)) (0x80 ∷ []) (
        context-IsReady (xor_byte s n 0x06) (r - 1)
          (omega (arith, length-xor_byte s n 0x06, h.lanes)) (xor_byte-IsU64 s n 0x06 h.words)
          (omega (arith, h.room))),
  )

  foldl-padding_two :
      (s : List ℕ) (n : ℕ)
      → n + 1 < r
      → foldl absorb_byte (context r z s n) (padding r n)
        ≡ absorb_byte (context r z (xor_byte s n 0x06) (r - 1)) 0x80
  foldl-padding_two s n lt =
      let zeros : List ℕ = replicate (r - 2 - n) 0 in
      ap (foldl absorb_byte (context r z s n)) (padding_two r n lt)
      ∙ ap (λ p. foldl absorb_byte p (zeros ++ 0x80 ∷ [])) (absorb_byte_inner s n 0x06 lt)
      ∙ foldl-append absorb_byte (context r z (xor_byte s n 0x06) (n + 1)) zeros (0x80 ∷ [])
      ∙ ap (λ p. absorb_byte p 0x80)
          (absorb_zeros (r - 2 - n) (xor_byte s n 0x06) (n + 1) (omega arith)
            ∙ ap (context r z (xor_byte s n 0x06)) (omega arith))

  pub pad-padding :
      (s : List ℕ) (n : ℕ)
      → IsReady (context r z s n)
      → pad (context r z s n) ≡ some (foldl absorb_byte (context r z s n) (padding r n))
  pad-padding s n h = elim (Bool-cases (n + 1 == r)) [
    | inl e ↦ unfold padding in rw e (pad_one s n h (ground arith))
    | inr e ↦
        let lt : n + 1 < r = ground (arith, h.room) in
        pad_two s n h lt ∙ ap some (sym (foldl-padding_two s n lt))
  ]
