-- ===== src/Sync/Subdivide/Tiles.antt =====
-- sqlitersync/subdivide.go, subdivideHashRange: the chunks as a tiling of the range.
use go_sqlite_rsync.Common.{
  false, ltb→lt, ◌++◌, sym, ap, ◌∙◌, append-nil, append_assoc, All-append, ℕ, zero, suc, ◌+◌, ◌-◌,
  ◌≤◌, ◌<◌, min, ◌≡◌, refl, inl, inr, Bool-cases, List, [], ◌∷◌, All, ltb, leb, if◌then◌else◌,
  arith,
}
use go_sqlite_rsync.Sync.Table.{Range, Table, replace_row, replace_rows, has_key}
use go_sqlite_rsync.Sync.Subdivide.{chunk_size, chunk_rows, chunks, subdivide_hash_range}

-- The ranges follow one another from page `a` up to page `b`, which is not in them, and none is
-- empty.
abbrev pub Tiles : ℕ → List Range → ℕ → Type 0
Tiles a [] b = a ≡ b
Tiles a (r ∷ rs) b = (r.first ≡ a) × (1 ≤ r.count) × Tiles (a + r.count) rs b

abbrev pub AtMost : ℕ → Range → Type 0
AtMost k r = r.count ≤ k

chunk_rows-Tiles :
    (f i_end chunk n : ℕ)
    → n < i_end
    → i_end ≤ n + f
    → 1 ≤ chunk
    → Tiles n (chunk_rows f i_end chunk n) i_end × All (AtMost chunk) (chunk_rows f i_end chunk n)
unfolding chunk_rows
chunk_rows-Tiles zero i_end chunk n h fuel pos = absurd (omega arith)
chunk_rows-Tiles (suc f) i_end chunk n h fuel pos = elim (Bool-cases (ltb (n + chunk) i_end)) [
  | inl more ↦
      let (tiles, small) =
        chunk_rows-Tiles f i_end chunk (n + chunk) (ltb→lt (n + chunk) i_end more) (omega arith)
          pos in
      let whole : min (i_end - n) chunk ≡ chunk = ground arith in
      rw (more, whole) ((refl, pos, tiles), (omega arith, small))
  | inr last ↦ rw last ((refl, omega arith, ground arith), (omega arith, tt))
]

chunk_size_pos : (npg : ℕ) → 1 ≤ chunk_size npg
unfolding chunk_size
chunk_size_pos npg = ground arith

-- The chunks of a range that is not empty tile it, in order and with no gap, and none has more pages
-- than the chunk size of the range.
pub chunks-Tiles :
    (fpg npg : ℕ)
    → 1 ≤ npg
    → Tiles fpg (chunks fpg npg) (fpg + npg) × All (AtMost (chunk_size npg)) (chunks fpg npg)
unfolding chunks
chunks-Tiles fpg npg h =
    chunk_rows-Tiles (npg + 1) (fpg + npg) (chunk_size npg) fpg (omega arith) (omega arith)
      (chunk_size_pos npg)

-- How many times a range can still be divided before its chunks are single pages.
pub rounds_left : ℕ → ℕ
rounds_left npg = if leb npg 1 then 0 else if leb npg 30 then 1 else if leb npg 1000 then 2 else 3

AtMost-rounds :
    (k : ℕ) (rs : List Range)
    → All (AtMost k) rs
    → All (λ r. rounds_left r.count ≤ rounds_left k) rs
unfolding rounds_left
AtMost-rounds k [] h = tt
AtMost-rounds k (r ∷ rs) (hr, hrs) = (ground arith, AtMost-rounds k rs hrs)

-- Every chunk of a range of several pages can be divided fewer times than the range, so at most three
-- rounds of detail come down to single pages.
pub chunks-rounds_left :
    (fpg npg : ℕ)
    → 2 ≤ npg
    → All (λ r. rounds_left r.count < rounds_left npg) (chunks fpg npg) × (rounds_left npg ≤ 3)
chunks-rounds_left fpg npg h = (
  all_lower (chunks fpg npg) (chunks-Tiles fpg npg (omega arith)).1,
  unfold rounds_left in ground arith,
)
  where
    lower : (c : ℕ) → c ≤ chunk_size npg → rounds_left c < rounds_left npg
    lower c le = unfold rounds_left chunk_size in ground arith

    all_lower :
        (rs : List Range)
        → All (AtMost (chunk_size npg)) rs
        → All (λ r. rounds_left r.count < rounds_left npg) rs
    all_lower [] hs = tt
    all_lower (r ∷ rs) (hr, hs) = (lower r.count hr, all_lower rs hs)

-- All keys of the table lie below `k`.
abbrev pub KeysBelow : ℕ → List Range → Type 0
KeysBelow k = All (λ r. r.first < k)

pub replace_row-last :
    (r : Range) (t : List Range) → KeysBelow r.first t → replace_row r t ≡ t ++ r ∷ []
unfolding replace_row
replace_row-last r [] h = refl
replace_row-last r (x ∷ xs) (hx, h) = ground (arith, replace_row-last r xs h)

pub KeysBelow-mono : (k l : ℕ) (t : List Range) → k ≤ l → KeysBelow k t → KeysBelow l t
KeysBelow-mono k l [] le h = tt
KeysBelow-mono k l (x ∷ xs) le (hx, h) = (omega arith, KeysBelow-mono k l xs le h)

replace_rows-append :
    (rs t : List Range) (a b : ℕ) → KeysBelow a t → Tiles a rs b → replace_rows rs t ≡ t ++ rs
unfolding replace_rows
replace_rows-append [] t a b h tiles = sym (append-nil t)
replace_rows-append (r ∷ rs) t a b h (at_a, pos, tiles) =
    let below : KeysBelow r.first t = KeysBelow-mono a r.first t (omega arith) h in
    let next : KeysBelow (a + r.count) (t ++ r ∷ []) =
      All-append (λ x. x.first < a + r.count) t (r ∷ [])
        (KeysBelow-mono a (a + r.count) t (omega arith) h) (omega arith, tt) in
    ap (replace_rows rs) (replace_row-last r t below)
    ∙ replace_rows-append rs (t ++ r ∷ []) (a + r.count) b next tiles
    ∙ append_assoc t (r ∷ []) rs

-- Where the keys of the table lie below the range, its chunks are put behind them, in their order.
pub subdivide_hash_range-append :
    (fpg npg : ℕ) (t : Table)
    → 1 ≤ npg
    → KeysBelow fpg t
    → subdivide_hash_range fpg npg t ≡ t ++ chunks fpg npg
unfolding subdivide_hash_range
subdivide_hash_range-append fpg npg t pos below =
    replace_rows-append (chunks fpg npg) t fpg (fpg + npg) below (chunks-Tiles fpg npg pos).0

pub has_key-KeysBelow : (k : ℕ) (t : Table) → KeysBelow k t → has_key k t ≡ false
unfolding has_key
has_key-KeysBelow k [] h = refl
has_key-KeysBelow k (x ∷ xs) (hx, h) = ground (arith, has_key-KeysBelow k xs h)
