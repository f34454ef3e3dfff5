-- ===== src/Sync/Table.antt =====
-- The two bookkeeping tables of a run, sendHash(fpg, npg) and badHash(pgno, sz). Both have an
-- integer primary key, the first page of a range, and a query reads them in its order.
use go_sqlite_rsync.Common.{
  ℕ, Bool, true, false, Option, none, some, List, [], ◌∷◌, ltb, ◌==◌, if◌then◌else◌,
}

-- `count` pages from page `first` on.
pub record Range : Type 0 where
  pub first : ℕ
  pub count : ℕ

abbrev pub Table : Type 0
Table = List Range

-- REPLACE INTO: a row with the same key gives way.
unfoldable pub replace_row : Range → Table → Table
replace_row r [] = r ∷ []
replace_row r (x ∷ xs) =
    let later = replace_row r xs in
    if ltb r.first x.first then r ∷ x ∷ xs else if r.first == x.first then r ∷ xs else x ∷ later

-- INSERT INTO: a row with the same key is an error.
unfoldable pub has_key : ℕ → Table → Bool
has_key k [] = false
has_key k (x ∷ xs) = if k == x.first then true else has_key k xs

unfoldable pub insert_row : Range → Table → Option Table
insert_row r t = if has_key r.first t then none else some (replace_row r t)

unfoldable pub insert_rows : List Range → Table → Option Table
insert_rows [] t = some t
insert_rows (r ∷ rs) t = elim (insert_row r t) [ none ↦ none | some t' ↦ insert_rows rs t' ]

unfoldable pub replace_rows : List Range → Table → Table
replace_rows [] t = t
replace_rows (r ∷ rs) t = replace_rows rs (replace_row r t)

unfoldable pub delete_key : ℕ → Table → Table
delete_key k [] = []
delete_key k (x ∷ xs) = if x.first == k then delete_key k xs else x ∷ delete_key k xs

-- DELETE … WHERE sz>1
unfoldable pub drop_multi : Table → Table
drop_multi [] = []
drop_multi (x ∷ xs) = if ltb 1 x.count then drop_multi xs else x ∷ drop_multi xs

-- SELECT … WHERE sz>1
unfoldable pub multi : Table → List Range
multi [] = []
multi (x ∷ xs) = if ltb 1 x.count then x ∷ multi xs else multi xs
