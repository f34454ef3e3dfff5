-- ===== src/Sync/Exchange/Agree.antt =====
-- sqlitersync/: the hashes of pages that are equal on both sides.
use go_sqlite_rsync.Common.{
  ℕ, zero, suc, ◌+◌, ◌≤◌, ◌<◌, ◌≡◌, refl, sym, ap, ap₂, ◌∙◌, true, false, Bool-cases, inl, inr,
  none, some, List, [], ◌∷◌, All, ltb, ◌==◌, if◌then◌else◌, arith,
}
use go_sqlite_rsync.Hash.Sql.{Value, blob}
use go_sqlite_rsync.Sync.Table.{Range}
use go_sqlite_rsync.Sync.PageHash.{Pages, page_hash, hash_rows, range_hash, same_bytes}
use go_sqlite_rsync.Sync.Messages.{entry_hash}
use go_sqlite_rsync.Sync.Origin.Hash.{agrees, is_match}
use go_sqlite_rsync.Sync.Exchange.{Entry, mismatches}
use go_sqlite_rsync.Sync.Exchange.Send.{Hashed}

-- The same pages, or none, at the `count` numbers from `first` on.
abbrev pub Equal : Pages → Pages → ℕ → ℕ → Type 0
Equal p q first count = (k : ℕ) → first ≤ k → k < first + count → p k ≡ q k

page_hash-Equal : (p q : Pages) (n : ℕ) → p n ≡ q n → page_hash p n ≡ page_hash q n
unfolding page_hash
page_hash-Equal p q n e = simp (e, page_hash)

hash_rows-Equal :
    (p q : Pages) (count n : ℕ) → Equal p q n count → hash_rows p count n ≡ hash_rows q count n
unfolding hash_rows
hash_rows-Equal p q zero n same = refl
hash_rows-Equal p q (suc count) n same =
    let here = page_hash-Equal p q n (same n (omega arith) (omega arith)) in
    let later = hash_rows-Equal p q count (n + 1) (λ k lo hi. same k (omega arith) (omega arith)) in
    ap₂ (λ o rest. elim o as (λ x. List Value) [ none ↦ rest | some h ↦ blob h ∷ rest ]) here later

range_hash-Equal :
    (p q : Pages) (first count : ℕ)
    → 1 ≤ count
    → Equal p q first count
    → range_hash p first count ≡ range_hash q first count
unfolding range_hash
range_hash-Equal p q first count pos same =
    let some_row : (count == 0) ≡ false = ground arith in
    simp (some_row, hash_rows-Equal p q count first same)

same_bytes_refl : (bs : List ℕ) → same_bytes bs bs ≡ true
unfolding same_bytes
same_bytes_refl [] = refl
same_bytes_refl (b ∷ bs) = ground (arith, same_bytes_refl bs)

-- Where both sides have the same pages in a range that is not empty, the hash that the replica sends
-- for it is the origin's.
pub is_match-Equal :
    (p q : Pages) (r : Range) (h : List ℕ)
    → 1 ≤ r.count
    → Equal p q r.first r.count
    → entry_hash q r ≡ some h
    → is_match p r.first r.count h ≡ true
unfolding is_match entry_hash
is_match-Equal p q r h pos same sent = elim (Bool-cases (ltb 1 r.count)) [
  | inl many ↦
      let several : (r.count == 1) ≡ false = ground (arith, many) in
      let theirs : range_hash q r.first r.count ≡ some h =
        ap (λ b. if b then page_hash q r.first else range_hash q r.first r.count) (sym several)
        ∙ sent in
      ap
        (λ b. if b then agrees (range_hash p r.first r.count) h else agrees (page_hash p r.first) h)
        many
      ∙ ap (λ o. agrees o h) (range_hash-Equal p q r.first r.count pos same ∙ theirs)
      ∙ same_bytes_refl h
  | inr few ↦
      let one : (r.count == 1) ≡ true = ground (arith, few) in
      let theirs : page_hash q r.first ≡ some h =
        ap (λ b. if b then page_hash q r.first else range_hash q r.first r.count) (sym one)
        ∙ sent in
      ap
        (λ b. if b then agrees (range_hash p r.first r.count) h else agrees (page_hash p r.first) h)
        few
      ∙ ap (λ o. agrees o h)
          (page_hash-Equal p q r.first (same r.first (omega arith) (omega arith)) ∙ theirs)
      ∙ same_bytes_refl h
]

-- If both sides have the same pages in every range of a round, and no range is empty, nothing is
-- written down.
pub mismatches-Equal :
    (p q : Pages) (rows : List Range) (es : List Entry)
    → Hashed q rows es
    → All (λ r. (1 ≤ r.count) × Equal p q r.first r.count) rows
    → mismatches p es ≡ []
mismatches-Equal p q [] [] hashed same = refl
mismatches-Equal p q [] (e ∷ es) hashed same = absurd hashed
mismatches-Equal p q (r ∷ rs) [] hashed same = absurd hashed
mismatches-Equal p q (r ∷ rs) ((r', h) ∷ es) (eq, sent, hashed) ((pos, here), same) =
    let matches =
      ap (λ x. is_match p x.first x.count h) eq ∙ is_match-Equal p q r h pos here sent in
    ap (λ b. if b then mismatches p es else r' ∷ mismatches p es) matches
    ∙ mismatches-Equal p q rs es hashed same
