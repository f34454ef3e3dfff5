-- ===== src/Sync/Subdivide.antt =====
-- sqlitersync/subdivide.go, subdivideHashRange: the chunks of a range.
pub mod Tiles
use go_sqlite_rsync.Common.{ℕ, zero, suc, ◌+◌, ◌-◌, min, List, [], ◌∷◌, ltb, leb, if◌then◌else◌}
use go_sqlite_rsync.Sync.Table.{Range, Table, replace_rows}

unfoldable pub chunk_size : ℕ → ℕ
chunk_size npg = if leb npg 30 then 1 else if leb npg 1000 then 30 else 1000

-- The rows of the recursive query: `c(n)` begins at `n` and goes on by `chunk` while
-- `n < i_end - chunk` (signed in the source), and each gives `min(i_end-n, chunk)` pages.
-- The steps are at least 1, so the length of the range bounds the rows.
unfoldable pub chunk_rows : ℕ → ℕ → ℕ → ℕ → List Range
chunk_rows zero i_end chunk n = []
chunk_rows (suc f) i_end chunk n =
    let rest = chunk_rows f i_end chunk (n + chunk) in
    record { first = n; count = min (i_end - n) chunk }
    ∷ (if ltb (n + chunk) i_end then rest else [])

-- `fpg` and `npg` are uint32; `iEnd` is an int64, so their sum does not wrap.
unfoldable pub chunks : ℕ → ℕ → List Range
unfolding chunk_size chunk_rows
chunks fpg npg = chunk_rows (npg + 1) (fpg + npg) (chunk_size npg) fpg

-- The statement on the table.
unfoldable pub subdivide_hash_range : ℕ → ℕ → Table → Table
subdivide_hash_range fpg npg t = replace_rows (chunks fpg npg) t
