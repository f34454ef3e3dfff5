-- ===== src/Sync/Replica/KeepWal.antt =====
-- sqlitersync/replica.go, ORIGIN_PAGE: the bytes that say whether a file is in WAL mode.
use go_sqlite_rsync.Common.{
  ℕ, zero, suc, ◌≤◌, ◌≡◌, ◌≢◌, ◌⊎◌, refl, Bool, true, false, ◌&&◌, Bool-cases, inl, inr, some, List,
  [], ◌∷◌, ◌++◌, length, length-append, length-take, length-drop, take, take-append_left, drop,
  get_or, leb, ◌==◌, arith,
}
use go_sqlite_rsync.Sync.Replica.Page.{keep_wal}

-- Page 1 of a replica in WAL mode.
abbrev pub is_wal_page : ℕ → ℕ → Bool
is_wal_page pgno j_mode = pgno == 1 && j_mode == 2

-- Page 1 of a replica in WAL mode, that says rollback mode: the one page that is changed.
abbrev pub IsPatched : ℕ → ℕ → List ℕ → List ℕ → Type 0
IsPatched pgno j_mode page out =
    (is_wal_page pgno j_mode ≡ true)
    × (get_or page 18 0 ≡ 1)
    × (get_or out 18 0 ≡ 2)
    × (get_or out 19 0 ≡ 2)

-- The page that is written for `page`: the same, or, for page 1 of a replica in WAL mode that says
-- rollback mode, as long and the same but for bytes 18 and 19, which say WAL mode.
pub record IsKept (pgno j_mode : ℕ) (page out : List ℕ) : Type 0 where
  pub same_length : length out ≡ length page
  pub same_before : take 18 out ≡ take 18 page
  pub same_after : drop 20 out ≡ drop 20 page
  pub mode : (is_wal_page pgno j_mode ≡ false) ⊎ (get_or out 18 0 ≢ 1)
  pub change : (out ≡ page) ⊎ IsPatched pgno j_mode page out

get_or-append_right : (xs ys : List ℕ) (y d n : ℕ) → n ≡ length xs → get_or (xs ++ (y ∷ ys)) n d ≡ y
get_or-append_right [] ys y d zero h = refl
get_or-append_right [] ys y d (suc n) h = absurd (omega arith)
get_or-append_right (x ∷ xs) ys y d zero h = absurd (omega arith)
get_or-append_right (x ∷ xs) ys y d (suc n) h = get_or-append_right xs ys y d n (omega arith)

get_or-append_second :
    (xs ys : List ℕ) (a b d n : ℕ) → n ≡ length xs → get_or (xs ++ (a ∷ (b ∷ ys))) (suc n) d ≡ b
get_or-append_second [] ys a b d zero h = refl
get_or-append_second [] ys a b d (suc n) h = absurd (omega arith)
get_or-append_second (x ∷ xs) ys a b d zero h = absurd (omega arith)
get_or-append_second (x ∷ xs) ys a b d (suc n) h = get_or-append_second xs ys a b d n (omega arith)

drop-append_two :
    (n : ℕ) (xs ys : List ℕ) (a b : ℕ)
    → n ≡ length xs
    → drop (suc (suc n)) (xs ++ (a ∷ (b ∷ ys))) ≡ ys
drop-append_two zero [] ys a b h = refl
drop-append_two zero (x ∷ xs) ys a b h = absurd (omega arith)
drop-append_two (suc n) [] ys a b h = absurd (omega arith)
drop-append_two (suc n) (x ∷ xs) ys a b h = drop-append_two n xs ys a b (omega arith)

abbrev patched : List ℕ → List ℕ
patched page = take 18 page ++ (2 ∷ (2 ∷ drop 20 page))

patched-IsKept :
    (pgno j_mode : ℕ) (page : List ℕ)
    → 20 ≤ length page
    → is_wal_page pgno j_mode ≡ true
    → get_or page 18 0 ≡ 1
    → IsKept pgno j_mode page (patched page)
patched-IsKept pgno j_mode page h wal rollback =
    let front : 18 ≡ length (take 18 page) = omega (arith, length-take 18 page) in
    let byte : get_or (patched page) 18 0 ≡ 2 =
      get_or-append_right (take 18 page) (2 ∷ drop 20 page) 2 0 18 front in
    record {
      same_length = omega (
        arith,
        length-append (take 18 page) (2 ∷ (2 ∷ drop 20 page)),
        length-drop 20 page,
        front,
      );
      same_before = take-append_left 18 (take 18 page) (2 ∷ (2 ∷ drop 20 page)) front;
      same_after = drop-append_two 18 (take 18 page) (drop 20 page) 2 2 front;
      mode = inr (λ e. omega (arith, byte, e));
      change =
          inr (
            wal,
            rollback,
            byte,
            get_or-append_second (take 18 page) (drop 20 page) 2 2 0 18 front,
          );
    }

unchanged-IsKept :
    (pgno j_mode : ℕ) (page : List ℕ)
    → (is_wal_page pgno j_mode ≡ false) ⊎ (get_or page 18 0 ≢ 1)
    → IsKept pgno j_mode page page
unchanged-IsKept pgno j_mode page m = record {
  same_length = refl;
  same_before = refl;
  same_after = refl;
  mode = m;
  change = inl refl;
}

-- On a page of 20 bytes at least, of any number and in any journal mode, no index is out of range. The
-- page that is written is the same, but for page 1 of a replica in WAL mode that says rollback mode:
-- this one is written as long and the same but for bytes 18 and 19, which are 2 then. So page 1 of a
-- replica in WAL mode never says rollback mode.
pub keep_wal-IsKept :
    (pgno j_mode : ℕ) (page : List ℕ)
    → 20 ≤ length page
    → (out : List ℕ) × (keep_wal pgno j_mode page ≡ some out) × IsKept pgno j_mode page out
unfolding keep_wal
keep_wal-IsKept pgno j_mode page h = elim (Bool-cases (is_wal_page pgno j_mode)) [
  | inr other ↦ (page, simp (other, keep_wal), unchanged-IsKept pgno j_mode page (inl other))
  | inl wal ↦
      let long : leb (length page) 18 ≡ false = ground arith in
      let longer : leb (length page) 19 ≡ false = ground arith in
      elim (Bool-cases (get_or page 18 0 == 1)) [
        | inl rollback ↦ (
          patched page,
          simp (wal, long, longer, rollback, keep_wal),
          patched-IsKept pgno j_mode page h wal (ground (arith, rollback)),
        )
        | inr not_rollback ↦ (
          page,
          simp (wal, long, not_rollback, keep_wal),
          unchanged-IsKept pgno j_mode page (inr (λ e. ground (arith, e, not_rollback))),
        )
      ]
]
