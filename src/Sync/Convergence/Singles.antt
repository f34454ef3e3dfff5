-- ===== src/Sync/Convergence/Singles.antt =====
-- Both roles: a round of single pages, as the replica begins with and as the last round is.
use go_sqlite_rsync.Common.{
  ℕ, zero, suc, ◌+◌, ◌^◌, ◌≤◌, ◌<◌, ◌≡◌, inl, inr, refl, sym, ap, ◌∙◌, Bool, true, false, ◌&&◌,
  Bool-cases, Option, none, some, List, [], ◌∷◌, ltb, ◌==◌, if◌then◌else◌, arith, length, subst,
}
use go_sqlite_rsync.Sync.Table.{Range, has_key, multi}
use go_sqlite_rsync.Sync.Subdivide.Tiles.{KeysBelow}
use go_sqlite_rsync.Sync.PageHash.{Pages, page_hash, same_bytes}
use go_sqlite_rsync.Sync.Messages.{entry_hash}
use go_sqlite_rsync.Sync.Origin.Hash.{agrees, is_match}
use go_sqlite_rsync.Sync.Origin.Ready.{tail_rows}
use go_sqlite_rsync.Sync.Exchange.{Entry, mismatches, mx_next, mx_after, Rising}
use go_sqlite_rsync.Sync.Convergence.Lengths.{length-page_hash}
use go_sqlite_rsync.Sync.Exchange.Send.{Hashed}

-- Pages of the two sides with the same hash are the same.
abbrev pub NoCollision : Pages → Pages → Type 0
NoCollision p q = (k : ℕ) (h : List ℕ) → page_hash p k ≡ some h → page_hash q k ≡ some h → q k ≡ p k

same_bytes_sound : (a b : List ℕ) → same_bytes a b ≡ true → a ≡ b
unfolding same_bytes
same_bytes_sound [] [] h = refl
same_bytes_sound [] (y ∷ b) h = absurd (ground (arith, h))
same_bytes_sound (x ∷ a) [] h = absurd (ground (arith, h))
same_bytes_sound (x ∷ a) (y ∷ b) h = elim (Bool-cases (x == y)) [
  | inl same ↦
      let rest : same_bytes a b ≡ true = ap (λ c. c && same_bytes a b) (sym same) ∙ h in
      let head : x ≡ y = ground (arith, same) in
      ap (λ z. z ∷ a) head ∙ ap (◌∷◌ y) (same_bytes_sound a b rest)
  | inr other ↦ absurd (ground (arith, ap (λ c. c && same_bytes a b) (sym other) ∙ h))
]

agrees-eq : (o : Option (List ℕ)) (h : List ℕ) → agrees o h ≡ true → o ≡ some h
agrees-eq none h e = absurd (ground (arith, e))
agrees-eq (some g) h e = ap some (same_bytes_sound g h e)

abbrev single : ℕ → Range
single k = record { first = k; count = 1 }

matched-equal :
    (p q : Pages) (k : ℕ) (h : List ℕ)
    → NoCollision p q
    → entry_hash q (single k) ≡ some h
    → is_match p k 1 h ≡ true
    → q k ≡ p k
unfolding entry_hash is_match
matched-equal p q k h collision sent matches =
    collision k h (agrees-eq (page_hash p k) h matches) sent

single-length : (q : Pages) (k : ℕ) (h : List ℕ) → entry_hash q (single k) ≡ some h → length h ≡ 20
unfolding entry_hash
single-length q k h sent = length-page_hash q k h sent

pub Hashed-Rising :
    (q : Pages) (k count : ℕ) (es : List Entry)
    → Hashed q (tail_rows k count) es
    → k + count < 2 ^ 32
    → Rising k es
unfolding tail_rows
Hashed-Rising q k zero [] hashed small = tt
Hashed-Rising q k zero (e ∷ es) hashed small = absurd hashed
Hashed-Rising q k (suc count) [] hashed small = absurd hashed
Hashed-Rising q k (suc count) ((r, h) ∷ es) (eq, sent, hashed) small =
    let here : r.first ≡ k = ap (λ x. x.first) eq in
    let one : r.count ≡ 1 = ap (λ x. x.count) eq in
    (
      omega (arith, here),
      omega (arith, here, small),
      omega (arith, one),
      single-length q k h sent,
      subst (λ l. Rising (l + 1) es) (sym here)
          (Hashed-Rising q (k + 1) count es hashed (omega (arith, small))),
    )

-- The rows that are written down in a round of the pages from `k` on, `count` in number.
module _ (p q : Pages) where
  pub mismatches-KeysBelow :
      (k count b : ℕ) (es : List Entry)
      → Hashed q (tail_rows k count) es
      → k + count ≤ b
      → KeysBelow b (mismatches p es)
  unfolding tail_rows
  mismatches-KeysBelow k zero b [] hashed le = tt
  mismatches-KeysBelow k zero b (e ∷ es) hashed le = absurd hashed
  mismatches-KeysBelow k (suc count) b [] hashed le = absurd hashed
  mismatches-KeysBelow k (suc count) b ((r, h) ∷ es) (eq, sent, hashed) le =
      choose (is_match p r.first r.count h)
        (mismatches-KeysBelow (k + 1) count b es hashed (omega arith))
    where
      choose :
          (m : Bool)
          → KeysBelow b (mismatches p es)
          → KeysBelow b (if m then mismatches p es else r ∷ mismatches p es)
      choose true rest = rest
      choose false rest = (omega (arith, ap (λ x. x.first) eq, le), rest)

  pub mismatches-single :
      (k count : ℕ) (es : List Entry)
      → Hashed q (tail_rows k count) es
      → multi (mismatches p es) ≡ []
  unfolding tail_rows multi
  mismatches-single k zero [] hashed = refl
  mismatches-single k zero (e ∷ es) hashed = absurd hashed
  mismatches-single k (suc count) [] hashed = absurd hashed
  mismatches-single k (suc count) ((r, h) ∷ es) (eq, sent, hashed) =
      choose (is_match p r.first r.count h) (mismatches-single (k + 1) count es hashed)
    where
      choose :
          (m : Bool)
          → multi (mismatches p es) ≡ []
          → multi (if m then mismatches p es else r ∷ mismatches p es) ≡ []
      choose true rest = rest
      choose false rest =
          let one : ltb 1 r.count ≡ false = ap (λ x. ltb 1 x.count) eq in
          ap (λ b. if b then r ∷ multi (mismatches p es) else multi (mismatches p es)) one ∙ rest

  pub mismatches-equal :
      (k count j : ℕ) (es : List Entry)
      → NoCollision p q
      → Hashed q (tail_rows k count) es
      → k ≤ j
      → j < k + count
      → has_key j (mismatches p es) ≡ false
      → q j ≡ p j
  unfolding tail_rows has_key
  mismatches-equal k zero j es collision hashed lo hi free = absurd (omega arith)
  mismatches-equal k (suc count) j [] collision hashed lo hi free = absurd hashed
  mismatches-equal k (suc count) j ((r, h) ∷ es) collision (eq, sent, hashed) lo hi free =
      choose (is_match p r.first r.count h) refl free
        (λ lo' free'. mismatches-equal (k + 1) count j es collision hashed lo' (omega arith) free')
    where
      choose :
          (m : Bool)
          → is_match p r.first r.count h ≡ m
          → has_key j (if m then mismatches p es else r ∷ mismatches p es) ≡ false
          → (k + 1 ≤ j → has_key j (mismatches p es) ≡ false → q j ≡ p j)
          → q j ≡ p j
      choose true matches free' later = elim (Bool-cases (j == k)) [
        | inl here ↦
            let same : j ≡ k = ground (arith, here) in
            ap q same
            ∙ matched-equal p q k h collision sent
                (ap (λ x. is_match p x.first x.count h) (sym eq) ∙ matches)
            ∙ ap p (sym same)
        | inr other ↦ later (ground (arith, other, lo)) free'
      ]
      choose false mismatch free' later = elim (Bool-cases (j == r.first)) [
        | inl here ↦ absurd (
            ground
              (arith, ap (λ c. if c then true else has_key j (mismatches p es)) (sym here) ∙ free'))
        | inr other ↦
            later (ground (arith, other, lo, ap (λ x. x.first) eq))
              (ap (λ c. if c then true else has_key j (mismatches p es)) (sym other) ∙ free')
      ]

  pub mx_after-end :
      (k count mx : ℕ) (es : List Entry)
      → Hashed q (tail_rows k (suc count)) es
      → mx ≤ k
      → k + suc count < 2 ^ 32
      → mx_after mx es ≡ k + suc count
  unfolding tail_rows
  mx_after-end k count mx [] hashed le small = absurd hashed
  mx_after-end k zero mx ((r, h) ∷ []) (eq, sent, hashed) le small =
      let next : mx_next mx r ≡ k + 1 = ap (mx_next mx) eq ∙ ground (arith, le, small) in
      next ∙ ap (λ n. k + n) refl
  mx_after-end k zero mx ((r, h) ∷ (e ∷ es)) (eq, sent, hashed) le small = absurd hashed
  mx_after-end k (suc count) mx ((r, h) ∷ es) (eq, sent, hashed) le small =
      let next : mx_next mx r ≡ k + 1 = ap (mx_next mx) eq ∙ ground (arith, le, small) in
      let shift : k + 1 + suc count ≡ k + suc (suc count) = omega arith in
      ap (λ n. mx_after n es) next
      ∙ mx_after-end (k + 1) count (k + 1) es hashed (omega arith) (omega arith)
      ∙ shift
