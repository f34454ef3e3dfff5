-- ===== src/Sync/PageHash.antt =====
-- The SQL expressions that hash pages, over the functions of package hash. A database file is seen
-- through sqlite_dbpage: the page of each number, if there is one.
use go_sqlite_rsync.Common.{
  ℕ, zero, suc, ◌+◌, Bool, true, false, ◌&&◌, Option, none, some, List, [], ◌∷◌, ◌==◌,
  if◌then◌else◌,
}
use go_sqlite_rsync.Hash.Sql.{Value, blob, Outcome, returns, Answer, value, hash_func, agghash}

abbrev pub Pages : Type 0
Pages = ℕ → Option (List ℕ)

-- The BLOB that a query gives, if it gives one.
abbrev pub column : Outcome (Answer Value) → Option (List ℕ)
column (returns (value (blob b))) = some b
column _ = none

-- hash(data) … WHERE pgno=n
unfoldable pub page_hash : Pages → ℕ → Option (List ℕ)
page_hash pages n = elim (pages n) [
  | none ↦ none
  | some bytes ↦ column (hash_func (blob bytes ∷ []))
]

-- The rows `hash(data) FROM c CROSS JOIN sqlite_dbpage ON pgno=n`, for `count` numbers from `n` on.
unfoldable pub hash_rows : Pages → ℕ → ℕ → List Value
hash_rows pages zero n = []
hash_rows pages (suc count) n =
    let rest = hash_rows pages count (n + 1) in
    elim (page_hash pages n) [ none ↦ rest | some h ↦ blob h ∷ rest ]

-- agghash over the rows of the numbers from `first` on; the recursive query gives one at least.
unfoldable pub range_hash : Pages → ℕ → ℕ → Option (List ℕ)
range_hash pages first count =
    column (agghash (hash_rows pages (if count == 0 then 1 else count) first))

-- Equality of BLOBs.
unfoldable pub same_bytes : List ℕ → List ℕ → Bool
same_bytes [] [] = true
same_bytes [] (b ∷ bs) = false
same_bytes (a ∷ xs) [] = false
same_bytes (a ∷ xs) (b ∷ bs) = a == b && same_bytes xs bs
