-- ===== src/Sync/Replica/FirstHashes.antt =====
-- sqlitersync/replica.go, ORIGIN_BEGIN: the rows of sendHash for the first round.
use go_sqlite_rsync.Common.{
  ℕ, zero, suc, ◌+◌, ◌-◌, ◌≤◌, ◌<◌, ◌≡◌, refl, sym, ap, subst, ◌∙◌, true, false, ◌||◌, Bool-cases,
  inl, inr, some, List, [], ◌∷◌, ◌++◌, All, ltb, leb, ◌==◌, if◌then◌else◌, arith,
}
use go_sqlite_rsync.Common.Act.{ok}
use go_sqlite_rsync.Sync.Table.{Range, Table, insert_rows}
use go_sqlite_rsync.Sync.Subdivide.{chunks, chunk_size, subdivide_hash_range}
use go_sqlite_rsync.Sync.Subdivide.Tiles.{Tiles, AtMost, chunks-Tiles, subdivide_hash_range-append}
use go_sqlite_rsync.Sync.Origin.Ready.{tail_rows}
use go_sqlite_rsync.Sync.Origin.Transfer.{insert_rows-tail}
use go_sqlite_rsync.Sync.Run.{
  Rsync, Statement, fill_send_hash, insert_first, replace_send_hash, run,
}
use go_sqlite_rsync.Sync.Run.Healthy.{Healthy, tick, run-Healthy}
use go_sqlite_rsync.Sync.Replica.File.{into_send_hash, inserted}
use go_sqlite_rsync.Sync.Replica.Begin.{subdivide, single_rows, first_row, first_hashes}

tail_rows-Tiles :
    (k count : ℕ) → Tiles k (tail_rows k count) (k + count) × All (AtMost 1) (tail_rows k count)
unfolding tail_rows
tail_rows-Tiles k zero = (omega arith, tt)
tail_rows-Tiles k (suc count) =
    let (tiles, small) = tail_rows-Tiles (k + 1) count in
    let next : k + 1 + count ≡ k + suc count = omega arith in
    (
      (refl, omega arith, subst (Tiles (k + 1) (tail_rows (k + 1) count)) next tiles),
      (omega arith, small),
    )

AtMost-mono : (k l : ℕ) (rs : List Range) → k ≤ l → All (AtMost k) rs → All (AtMost l) rs
AtMost-mono k l [] h a = tt
AtMost-mono k l (r ∷ rs) h (small, a) = (omega arith, AtMost-mono k l rs h a)

chunk_size_pos : (n : ℕ) → 1 ≤ chunk_size n
unfolding chunk_size
chunk_size_pos n = ground arith

-- The most pages that one of the first hashes is of.
abbrev pub widest : ℕ → ℕ → ℕ
widest protocol n = if ltb protocol 2 then 1 else chunk_size (n - 1)

widest_pos : (protocol n : ℕ) → 1 ≤ widest protocol n
widest_pos protocol n = elim (Bool-cases (ltb protocol 2)) [
  | inl old ↦ subst (λ b. 1 ≤ (if b then 1 else chunk_size (n - 1))) (sym old) (omega arith)
  | inr new ↦
      subst (λ b. 1 ≤ (if b then 1 else chunk_size (n - 1))) (sym new) (chunk_size_pos (n - 1))
]

abbrev pub hashing : ℕ → Table → Rsync → Rsync
hashing c t s = record s { db = record s.db { calls = c; send_hash_table = t } }

run-into_send_hash :
    (q : Statement) (rows : List Range) (s : Rsync)
    → Healthy s.env
    → insert_rows rows s.db.send_hash_table ≡ some rows
    → run q (into_send_hash rows) s ≡ (ok tt, hashing (suc s.db.calls) rows s)
unfolding into_send_hash
run-into_send_hash q rows s h e =
    run-Healthy q (into_send_hash rows) s (record (tick s).db { send_hash_table = rows }) h
      (ap (inserted (tick s).db) e)

subdivide-Healthy :
    (fpg npg : ℕ) (s : Rsync)
    → Healthy s.env
    → subdivide fpg npg s
      ≡ (ok tt, hashing (suc s.db.calls) (subdivide_hash_range fpg npg s.db.send_hash_table) s)
unfolding subdivide
subdivide-Healthy fpg npg s h =
    run-Healthy replace_send_hash
      (λ d. ok (record d { send_hash_table = subdivide_hash_range fpg npg d.send_hash_table })) s
      (record (tick s).db { send_hash_table = subdivide_hash_range fpg npg s.db.send_hash_table }) h
      refl

single_rows-eq : (n : ℕ) → 1 ≤ n → single_rows n ≡ tail_rows 1 n
unfolding single_rows
single_rows-eq n h =
    let some_page : (n == 0) ≡ false = ground arith in
    ap (λ b. tail_rows 1 (if b then 1 else n)) some_page

-- Before version 2, and of a small file, all pages are hashed alone.
pub first_hashes-single :
    (n : ℕ) (s : Rsync)
    → Healthy s.env
    → s.db.send_hash_table ≡ []
    → 1 ≤ n
    → (ltb s.protocol 2 || leb n 100) ≡ true
    → first_hashes n s ≡ (ok tt, hashing (suc s.db.calls) (tail_rows 1 n) s)
unfolding first_hashes
first_hashes-single n s h empty pos single =
    let there : insert_rows (tail_rows 1 n) s.db.send_hash_table ≡ some (tail_rows 1 n) =
      ap (insert_rows (tail_rows 1 n)) empty ∙ insert_rows-tail n 1 [] tt in
    let chosen : first_hashes n s ≡ run fill_send_hash (into_send_hash (tail_rows 1 n)) s =
      simp (single, single_rows-eq n pos, first_hashes) in
    chosen ∙ run-into_send_hash fill_send_hash (tail_rows 1 n) s h there

-- Where the database does not fail and sendHash is empty, the first hashes of a file with pages are of
-- page 1 alone and of ranges that follow one another up to the last page, none empty and none wider
-- than a range of the version of the protocol may be: single pages before version 2.
pub first_hashes-Tiles :
    (n : ℕ) (s : Rsync)
    → Healthy s.env
    → s.db.send_hash_table ≡ []
    → 1 ≤ n
    → (c : ℕ) × (rows : List Range) × (first_hashes n s
        ≡ (ok tt, hashing c (record { first = 1; count = 1 } ∷ rows) s))
      × Tiles 2 rows (n + 1)
      × All (AtMost (widest s.protocol n)) rows
unfolding first_hashes tail_rows
first_hashes-Tiles zero s h empty pos = absurd (omega arith)
first_hashes-Tiles (suc m) s h empty pos = elim (Bool-cases (ltb s.protocol 2 || leb (suc m) 100)) [
  | inl single ↦
      let rows = tail_rows 2 m in
      let (tiles, small) = tail_rows-Tiles 2 m in
      let whole : 2 + m ≡ suc m + 1 = omega arith in
      (
        suc s.db.calls,
        rows,
        first_hashes-single (suc m) s h empty pos single,
        subst (Tiles 2 rows) whole tiles,
        AtMost-mono 1 (widest s.protocol (suc m)) rows (widest_pos s.protocol (suc m)) small,
      )
  | inr many ↦
      let large : 100 < suc m = ground (arith, many) in
      let new : ltb s.protocol 2 ≡ false = ground (arith, many) in
      let less : suc m - 1 ≡ m = omega arith in
      let rows = chunks 2 m in
      let (tiles, small) = chunks-Tiles 2 m (omega (arith, large)) in
      let there : insert_rows first_row s.db.send_hash_table ≡ some first_row =
        ap (insert_rows first_row) empty ∙ insert_rows-tail 1 1 [] tt in
      let s1 = hashing (suc s.db.calls) first_row s in
      let behind : subdivide_hash_range 2 m first_row ≡ first_row ++ rows =
        subdivide_hash_range-append 2 m first_row (omega (arith, large)) (omega arith, tt) in
      let whole : 2 + m ≡ suc m + 1 = omega arith in
      (
        suc (suc s.db.calls),
        rows,
        simp (
          many,
          run-into_send_hash insert_first first_row s h there,
          less,
          subdivide-Healthy 2 m s1 h,
          behind,
          first_hashes,
        ),
        subst (Tiles 2 rows) whole tiles,
        subst (λ k. All (AtMost k) rows)
            (sym (ap (λ b. if b then 1 else chunk_size (suc m - 1)) new ∙ ap chunk_size less))
            small,
      )
]
