-- ===== src/Sync/Convergence.antt =====
-- Both roles: the pages that sqlitersync/origin.go sends, in the file of sqlitersync/replica.go.
pub mod Transfer
pub mod Answer
pub mod Loop
pub mod Lengths
pub mod Singles
pub mod Opens
pub mod Sends
pub mod Synchronize
pub mod Begins
pub mod Replies
pub mod Early
pub mod Greets
pub mod Sync
pub mod Tests
use go_sqlite_rsync.Common.{
  ℕ, zero, suc, ◌+◌, ◌-◌, ◌^◌, ◌≤◌, ◌<◌, ◌≡◌, ◌≢◌, ◌⊎◌, inl, inr, refl, sym, ap, subst, ◌∙◌, min,
  Bool, true, false, Bool-cases, Option, none, some, Option-cases, List, [], ◌∷◌, ◌++◌, length, All,
  ltb, leb, ◌==◌, if◌then◌else◌, arith,
}
use go_sqlite_rsync.Common.Act.{ok}
use go_sqlite_rsync.Common.Words.{IsU32}
use go_sqlite_rsync.Sync.Table.{Range, Table, has_key}
use go_sqlite_rsync.Sync.PageHash.{Pages}
use go_sqlite_rsync.Sync.Run.{Rsync}
use go_sqlite_rsync.Sync.Origin.Loop.{Locals}
use go_sqlite_rsync.Sync.Origin.Ready.{page_rows}
use go_sqlite_rsync.Sync.Origin.Frames.{page_frames, txn_frame}
use go_sqlite_rsync.Sync.Origin.Transfer.{resend}
use go_sqlite_rsync.Sync.Origin.Complete.{has_key-resend, page_rows-skip, page_rows-row}
use go_sqlite_rsync.Sync.Replica.File.{put_page, cut_pages}
use go_sqlite_rsync.Sync.Replica.Page.{keep_wal}
use go_sqlite_rsync.Sync.Replica.{replica_loop}
use go_sqlite_rsync.Sync.Replica.Receive.{Takes, grown}
use go_sqlite_rsync.Sync.Replica.Finish.{kept_page, with_pages, with_count, Sendable}
use go_sqlite_rsync.Sync.Replica.Commit.{Synced, replica_loop-pages}

-- A file of `n` pages of `size` bytes, whose page 1 says what a replica in mode `j` keeps.
pub record IsFile (size j n : ℕ) (origin : Pages) : Type 0 where
  pub has_page : (k : ℕ) → 1 ≤ k → k ≤ n → (c : List ℕ) × (origin k ≡ some c)
  pub bounds : (k : ℕ) (c : List ℕ) → origin k ≡ some c → (1 ≤ k) × (k ≤ n)
  pub sized : (k : ℕ) (c : List ℕ) → origin k ≡ some c → length c ≡ size
  pub same_mode : (k : ℕ) (c : List ℕ) → origin k ≡ some c → keep_wal k j c ≡ some c

kept_page-same : (j k : ℕ) (c : List ℕ) → keep_wal k j c ≡ some c → kept_page j k c ≡ c
kept_page-same j k c h = ap (λ o. elim o as (λ x. List ℕ) [ none ↦ c | some page ↦ page ]) h

put_page-same : (k : ℕ) (c : List ℕ) (pages : Pages) → put_page k c pages k ≡ some c
unfolding put_page
put_page-same k c pages = ground arith

put_page-other : (k l : ℕ) (c : List ℕ) (pages : Pages) → l ≢ k → put_page k c pages l ≡ pages l
unfolding put_page
put_page-other k l c pages h = ground (arith, h)

module _ {size j n : ℕ} {origin : Pages} (file : IsFile size j n origin) where
  pub rows-Sendable : n < 2 ^ 32 - 1 → (t : Table) → All (Sendable size j) (page_rows origin t)
  unfolding page_rows
  rows-Sendable small [] = tt
  rows-Sendable small (r ∷ rs) = elim (Option-cases (origin r.first)) [
    | inl absent ↦
        subst (All (Sendable size j)) (sym (page_rows-skip origin r rs absent))
          (rows-Sendable small rs)
    | inr (c, there) ↦
        let same = file.same_mode r.first c there in
        subst (All (Sendable size j)) (sym (page_rows-row origin r rs c there)) (
          record {
            numbered = (file.bounds r.first c there).0;
            small = omega (arith, (file.bounds r.first c there).1);
            exact = file.sized r.first c there;
            kept = same ∙ ap some (sym (kept_page-same j r.first c same));
          },
          rows-Sendable small rs,
        )
  ]

  -- A page that is written holds what the origin has there.
  put_page-here :
      (k l : ℕ) (c : List ℕ) (held : Pages)
      → origin l ≡ some c
      → k ≡ l
      → put_page l (kept_page j l c) held k ≡ origin k
  put_page-here k l c held there same =
      ap (λ m. put_page l (kept_page j l c) held m) same
      ∙ put_page-same l (kept_page j l c) held
      ∙ ap some (kept_page-same j l c (file.same_mode l c there))
      ∙ sym there
      ∙ ap origin (sym same)

  put_page-right :
      (k l : ℕ) (c : List ℕ) (held : Pages)
      → origin l ≡ some c
      → held k ≡ origin k
      → put_page l (kept_page j l c) held k ≡ origin k
  put_page-right k l c held there equal = elim (Bool-cases (k == l)) [
    | inl same ↦ put_page-here k l c held there (ground (arith, same))
    | inr other ↦ put_page-other l k (kept_page j l c) held (λ e. ground (arith, e, other)) ∙ equal
  ]

  -- What is right already stays so.
  pub with_pages-right :
      (k : ℕ) (t : Table) (held : Pages)
      → held k ≡ origin k
      → with_pages j (page_rows origin t) held k ≡ origin k
  unfolding page_rows
  with_pages-right k [] held equal = equal
  with_pages-right k (r ∷ rs) held equal = elim (Option-cases (origin r.first)) [
    | inl absent ↦
        ap (λ ps. with_pages j ps held k) (page_rows-skip origin r rs absent)
        ∙ with_pages-right k rs held equal
    | inr (c, there) ↦
        ap (λ ps. with_pages j ps held k) (page_rows-row origin r rs c there)
        ∙ with_pages-right k rs (put_page r.first (kept_page j r.first c) held)
            (put_page-right k r.first c held there equal)
  ]

  pub with_pages-sent :
      (k : ℕ) (content : List ℕ) (t : Table) (held : Pages)
      → has_key k t ≡ true
      → origin k ≡ some content
      → with_pages j (page_rows origin t) held k ≡ origin k
  unfolding has_key page_rows
  with_pages-sent k content [] held h e = absurd (ground (arith, h))
  with_pages-sent k content (r ∷ rs) held h e = elim (Bool-cases (k == r.first)) [
    | inl here ↦
        let same : k ≡ r.first = ground (arith, here) in
        let there : origin r.first ≡ some content = ap origin (sym same) ∙ e in
        ap (λ ps. with_pages j ps held k) (page_rows-row origin r rs content there)
        ∙ with_pages-right k rs (put_page r.first (kept_page j r.first content) held)
            (put_page-here k r.first content held there same)
    | inr later ↦
        let more : has_key k rs ≡ true =
          ap (λ c. if c then true else has_key k rs) (sym later) ∙ h in
        elim (Option-cases (origin r.first)) [
          | inl absent ↦
              ap (λ ps. with_pages j ps held k) (page_rows-skip origin r rs absent)
              ∙ with_pages-sent k content rs held more e
          | inr (c, there) ↦
              ap (λ ps. with_pages j ps held k) (page_rows-row origin r rs c there)
              ∙ with_pages-sent k content rs (put_page r.first (kept_page j r.first c) held) more e
        ]
  ]

pub with_count-ge : (ps : List (ℕ × List ℕ)) (n : ℕ) → n ≤ with_count ps n
with_count-ge [] n = omega arith
with_count-ge ((pgno, c) ∷ ps) n = ground (arith, with_count-ge ps (grown pgno n))

pub with_count-sent :
    (pages : Pages) (k m : ℕ) (content : List ℕ) (t : Table)
    → has_key k t ≡ true
    → pages k ≡ some content
    → k ≤ with_count (page_rows pages t) m
unfolding has_key page_rows
with_count-sent pages k m content [] h e = absurd (ground (arith, h))
with_count-sent pages k m content (r ∷ rs) h e = elim (Bool-cases (k == r.first)) [
  | inl here ↦
      let same : k ≡ r.first = ground (arith, here) in
      subst (λ ps. k ≤ with_count ps m)
        (sym (page_rows-row pages r rs content (ap pages (sym same) ∙ e)))
        (ground (arith, same, with_count-ge (page_rows pages rs) (grown r.first m)))
  | inr later ↦
      let more : has_key k rs ≡ true = ap (λ c. if c then true else has_key k rs) (sym later) ∙ h in
      elim (Option-cases (pages r.first)) [
        | inl absent ↦
            subst (λ ps. k ≤ with_count ps m) (sym (page_rows-skip pages r rs absent))
              (with_count-sent pages k m content rs more e)
        | inr (c, there) ↦
            subst (λ ps. k ≤ with_count ps m) (sym (page_rows-row pages r rs c there))
              (with_count-sent pages k (grown r.first m) content rs more e)
      ]
]
