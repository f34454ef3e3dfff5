-- ===== src/Sync/Origin/Ledger.antt =====
-- sqlitersync/origin.go, REPLICA_HASH: what is written down in badHash, where the database does not
-- fail.
use go_sqlite_rsync.Common.{
  ℕ, suc, ◌+◌, ◌≡◌, refl, ap, ap₂, ◌∙◌, Bool, true, false, Bool-cases, inl, inr, none, some, List,
  [], ◌++◌, ltb, if◌then◌else◌, length,
}
use go_sqlite_rsync.Common.Act.{ok}
use go_sqlite_rsync.Common.Int.{pos}
use go_sqlite_rsync.Common.Words.{u32, u64}
use go_sqlite_rsync.Wire.Reader.{read_bytes}
use go_sqlite_rsync.Wire.RoundTrip.{after_read, read_bytes_lem}
use go_sqlite_rsync.Sync.Table.{Range, Table, replace_row, insert_row, has_key}
use go_sqlite_rsync.Sync.Run.{
  Rsync, reading, Database, in_bad_hash, with_table, stored, insert_bad_hash, create_bad_hash, run,
}
use go_sqlite_rsync.Sync.Run.Healthy.{Healthy, tick, query-Healthy, prepare-Healthy, run-Healthy}
use go_sqlite_rsync.Sync.Origin.Loop.{Locals}
use go_sqlite_rsync.Sync.Origin.Hash.{
  create, prepare_checks, prepare_check_n, is_match, check, note_mismatch, pass_range, count_hash,
  on_hash,
}

-- The table of the origin is `t`; it is made, with the statements, on the first hash.
abbrev pub IsLedger : Locals → Rsync → Table → Type 0
IsLedger v s t = elim v.has_check_hash [
  | true ↦ s.db.bad_hash ≡ some t
  | false ↦ (s.db.bad_hash ≡ none) × (t ≡ [])
]

-- The run after some more calls of the database, with `t` written down.
abbrev pub noted : ℕ → Table → Rsync → Rsync
noted calls t s = record s { db = record s.db { calls = calls; bad_hash = some t } }

prepare_checks-Healthy :
    (v : Locals) (s : Rsync) (t : Table)
    → Healthy s.env
    → IsLedger v s t
    → (c : ℕ) × (prepare_checks v s ≡ (ok (record v { has_check_hash = true }), noted c t s))
unfolding prepare_checks
prepare_checks-Healthy v s t h ledger = elim (Bool-cases v.has_check_hash) [
  | inl prepared ↦ (
    s.db.calls,
    simp (prepared, prepare_checks)
        (ap₂
          (λ b o.
            (ok (record v { has_check_hash = b }), record s { db = record s.db { bad_hash = o } }))
          prepared (rw prepared at ledger)),
  )
  | inr new ↦
      let (absent, empty) = rw new at ledger in
      (
        suc (suc (suc s.db.calls)),
        simp (
          new,
          prepare_checks,
          run-Healthy create_bad_hash create s (record (tick s).db { bad_hash = some [] }) h
              (simp absent),
          prepare-Healthy,
          h,
          empty,
        ),
      )
]

check-Healthy :
    (v : Locals) (s : Rsync) (received : List ℕ)
    → Healthy s.env
    → (c : ℕ) × (b : Bool) × (check v received s ≡ (
      ok (record v { has_check_hash_n = b }, is_match s.db.page v.i_hash v.n_hash received),
      record s { db = record s.db { calls = c } },
    ))
unfolding check prepare_check_n
check-Healthy v s received h = elim (Bool-cases (ltb 1 v.n_hash)) [
  | inl many ↦ elim (Bool-cases v.has_check_hash_n) [
    | inl prepared ↦ (
      suc s.db.calls,
      true,
      simp (many, prepared, query-Healthy, h, check)
          (ap
            (λ b. (
              ok (record v { has_check_hash_n = b }, is_match s.db.page v.i_hash v.n_hash received),
              tick s,
            ))
            prepared),
    )
    | inr new ↦
        (suc (suc s.db.calls), true, simp (many, new, prepare-Healthy, query-Healthy, h, check))
  ]
  | inr one ↦ (suc s.db.calls, v.has_check_hash_n, simp (one, query-Healthy, h, check))
]

-- The pages that the next hash covers.
abbrev pub expected : Locals → Range
expected v = record { first = v.i_hash; count = v.n_hash }

-- The table after a hash: a row more where it does not match.
unfoldable pub note : Bool → Range → Table → Table
note matches r t = if matches then t else replace_row r t

pub insert_row-free :
    (r : Range) (t : Table) → has_key r.first t ≡ false → insert_row r t ≡ some (replace_row r t)
unfolding insert_row
insert_row-free r t free = simp (free, insert_row)

in_bad_hash-free :
    (r : Range) (t : Table) (d : Database)
    → d.bad_hash ≡ some t
    → has_key r.first t ≡ false
    → in_bad_hash (insert_row r) d ≡ ok (record d { bad_hash = some (replace_row r t) })
in_bad_hash-free r t d there free =
    ap (with_table (insert_row r) d) there ∙ ap (stored d) (insert_row-free r t free)

note_mismatch-Healthy :
    (v : Locals) (matches : Bool) (s : Rsync) (t : Table)
    → Healthy s.env
    → s.db.bad_hash ≡ some t
    → has_key v.i_hash t ≡ false
    → (c : ℕ) × (note_mismatch v matches s ≡ (ok tt, noted c (note matches (expected v) t) s))
unfolding note_mismatch note run
note_mismatch-Healthy v true s t h ledger free =
    (s.db.calls, ap (λ o. (ok tt, record s { db = record s.db { bad_hash = o } })) ledger)
note_mismatch-Healthy v false s t h ledger free = (
  suc s.db.calls,
  run-Healthy insert_bad_hash (in_bad_hash (insert_row (expected v))) s
      (record (tick s).db { bad_hash = some (replace_row (expected v) t) }) h
      (in_bad_hash-free (expected v) t (tick s).db ledger free),
)

-- The variables after a hash: the next range is expected, and `mx_hash` is at least its first page.
abbrev pub next_range : Bool → Locals → Locals
next_range b v =
    let next = u32 (v.i_hash + v.n_hash) in
    record v {
      i_hash = next;
      mx_hash = if ltb v.mx_hash next then next else v.mx_hash;
      has_check_hash = true;
      has_check_hash_n = b;
    }

-- The state after a hash: what was received, and the table.
abbrev pub after_hash : ℕ → Table → List ℕ → Rsync → Rsync
after_hash calls t rest s = record (noted calls t s) {
  hash_messages = u64 (s.hash_messages + 1);
  reader = after_read s.reader 20 rest;
}

reading-hash :
    (s : Rsync) (received rest : List ℕ)
    → length received ≡ 20
    → s.reader.input ≡ received ++ rest
    → reading (read_bytes (pos 20)) s
      ≡ (ok received, record s { reader = after_read s.reader 20 rest })
unfolding reading
reading-hash s received rest size input =
    let all : read_bytes (pos 20) s.reader ≡ (ok received, after_read s.reader 20 rest) =
      rw size at (read_bytes_lem s.reader rest received input) in
    simp (all, reading)

-- On a hash of 20 bytes, where the database does not fail and no row of badHash begins at the expected
-- page, the origin compares the hash with its own of the pages that are expected, writes the range down
-- where they differ, counts the hash, and expects the next range.
pub on_hash-Healthy :
    (v : Locals) (s : Rsync) (t : Table) (received rest : List ℕ)
    → Healthy s.env
    → IsLedger v s t
    → has_key v.i_hash t ≡ false
    → length received ≡ 20
    → s.reader.input ≡ received ++ rest
    → let matches = is_match s.db.page v.i_hash v.n_hash received in
      (c : ℕ) × (b : Bool) × (on_hash v s
        ≡ (ok (next_range b v), after_hash c (note matches (expected v) t) rest s))
unfolding on_hash count_hash pass_range
on_hash-Healthy v s t received rest h ledger free size input =
    let v1 = record v { has_check_hash = true } in
    let (c1, prepared) = prepare_checks-Healthy v s t h ledger in
    let s2 = record (noted c1 t s) { hash_messages = u64 (s.hash_messages + 1) } in
    let s3 = record s2 { reader = after_read s.reader 20 rest } in
    let (c2, b, checked) = check-Healthy v1 s3 received h in
    let s4 = record s3 { db = record s3.db { calls = c2 } } in
    let v2 = record v1 { has_check_hash_n = b } in
    let (c3, written) =
      note_mismatch-Healthy v2 (is_match s.db.page v.i_hash v.n_hash received) s4 t h refl free in
    (
      c3,
      b,
      simp (
        prepared,
        reading-hash s2 received rest size input,
        checked,
        written,
        on_hash,
        count_hash,
      ),
    )
