-- ===== src/Sync/Convergence/Transfer.antt =====
-- Both roles: the end of a run, from the transfer of sqlitersync/origin.go to the commit of
-- sqlitersync/replica.go.
use go_sqlite_rsync.Common.{
  ℕ, ◌+◌, ◌-◌, ◌^◌, ◌≤◌, ◌<◌, ◌≡◌, ◌≢◌, inl, inr, refl, sym, ap, subst, ◌∙◌, min, false, Bool-cases,
  Option, none, some, ◌∷◌, ◌++◌, length, All, ltb, leb, arith, zero, suc, get_or, ◌==◌,
  if◌then◌else◌, List, [],
}
use go_sqlite_rsync.Common.Act.{ok}
use go_sqlite_rsync.Sync.Table.{Table, has_key}
use go_sqlite_rsync.Sync.PageHash.{Pages}
use go_sqlite_rsync.Sync.Run.{Rsync}
use go_sqlite_rsync.Sync.Origin.Loop.{Locals}
use go_sqlite_rsync.Sync.Origin.Ready.{page_rows}
use go_sqlite_rsync.Sync.Origin.Frames.{page_frames, txn_frame}
use go_sqlite_rsync.Sync.Origin.Transfer.{resend}
use go_sqlite_rsync.Sync.Origin.Complete.{has_key-resend}
use go_sqlite_rsync.Sync.Replica.File.{
  cut_pages, is_header_place, new_header, new_header_page, stamp_pages,
}
use go_sqlite_rsync.Sync.Replica.{replica_loop}
use go_sqlite_rsync.Sync.Replica.Receive.{Takes}
use go_sqlite_rsync.Sync.Replica.Finish.{with_pages, with_count, Sendable}
use go_sqlite_rsync.Sync.Replica.Commit.{replica_loop-pages}
use go_sqlite_rsync.Sync.Convergence.{
  IsFile, rows-Sendable, with_pages-right, with_pages-sent, with_count-ge, with_count-sent,
}

-- What the hashes have told of the pages `held` of the replica, `m` in number: the origin, with
-- variables `v` and badHash `t`, has looked at none beyond them, and those that it looked at and did
-- not write down are equal.
pub record Checked (origin : Pages) (n : ℕ) (v : Locals) (t : Table) (held : Pages) (m : ℕ)
    : Type 0 where
  pub hashed : v.mx_hash ≤ m + 1
  pub equal : (k : ℕ) → 1 ≤ k → k < v.mx_hash → k ≤ n → has_key k t ≡ false → held k ≡ origin k

cut_pages-within : (n k : ℕ) (pages : Pages) → k ≤ n → cut_pages (n + 1) pages k ≡ pages k
unfolding cut_pages
cut_pages-within n k pages h = ground (arith, h)

cut_pages-beyond : (n k : ℕ) (pages : Pages) → n < k → cut_pages (n + 1) pages k ≡ none
unfolding cut_pages
cut_pages-beyond n k pages h = ground (arith, h)

none_beyond :
    {size j n : ℕ} {origin : Pages}
    → IsFile size j n origin
    → (k : ℕ) → n < k
    → (o : Option (List ℕ)) → origin k ≡ o
    → o ≡ none
none_beyond file k h none e = refl
none_beyond file k h (some c) e = absurd (omega (arith, h, (file.bounds k c e).1))

module _ {size j n : ℕ} {origin : Pages} (file : IsFile size j n origin) (v : Locals) (t : Table)
    (held : Pages) (m : ℕ) (checked : Checked origin n v t held m) where
  arrived : Pages
  arrived = with_pages j (page_rows origin (resend v n t)) held

  arrived-equal : (k : ℕ) → 1 ≤ k → k ≤ n → k ≢ v.lock_byte_page → arrived k ≡ origin k
  unfolding arrived
  arrived-equal k lo hi other =
      let (c, there) = file.has_page k lo hi in
      elim (Bool-cases (has_key k t)) [
        | inl listed ↦
            with_pages-sent file k c (resend v n t) held (has_key-resend v n k t other (inl listed))
              there
        | inr unlisted ↦ elim (Bool-cases (ltb k v.mx_hash)) [
          | inl seen ↦
              with_pages-right file k (resend v n t) held
                (checked.equal k lo (ground (arith, seen)) hi unlisted)
          | inr unseen ↦
              with_pages-sent file k c (resend v n t) held
                (has_key-resend v n k t other (inr (ground (arith, unseen), hi))) there
        ]
      ]

  saved-equal : (k : ℕ) → 1 ≤ k → k ≢ v.lock_byte_page → cut_pages (n + 1) arrived k ≡ origin k
  saved-equal k lo other = elim (Bool-cases (leb k n)) [
    | inl within ↦
        let hi : k ≤ n = ground (arith, within) in
        cut_pages-within n k arrived hi ∙ arrived-equal k lo hi other
    | inr beyond ↦
        let above : n < k = ground (arith, beyond) in
        cut_pages-beyond n k arrived above ∙ sym (none_beyond file k above (origin k) refl)
  ]

  count-equal : n ≢ v.lock_byte_page → min (with_count (page_rows origin (resend v n t)) m) n ≡ n
  count-equal other = elim (Bool-cases (leb n m)) [
    | inl enough ↦
        let le : n ≤ m = ground (arith, enough) in
        omega (arith, with_count-ge (page_rows origin (resend v n t)) m, le)
    | inr short ↦
        let fewer : m < n = ground (arith, short) in
        let (c, there) = file.has_page n (omega (arith, fewer)) (omega arith) in
        omega (
          arith,
          with_count-sent origin n m c (resend v n t)
              (has_key-resend v n n t other
                (inr (omega (arith, checked.hashed, fewer), omega arith)))
              there,
        )
  ]

-- A page as long as `b`, with the same bytes but for the header bytes that a commit rewrites.
pub record SameButHeader (a b : List ℕ) : Type 0 where
  pub same_length : length a ≡ length b
  pub same_bytes : (i : ℕ) → is_header_place i ≡ false → get_or a i 0 ≡ get_or b i 0

length-new_header : (byte : ℕ → ℕ) (i : ℕ) (bs : List ℕ) → length (new_header byte i bs) ≡ length bs
unfolding new_header
length-new_header byte i [] = refl
length-new_header byte i (b ∷ bs) = omega (arith, length-new_header byte (i + 1) bs)

get_or-new_header :
    (byte : ℕ → ℕ) (i j : ℕ) (bs : List ℕ)
    → is_header_place (i + j) ≡ false
    → get_or (new_header byte i bs) j 0 ≡ get_or bs j 0
unfolding new_header
get_or-new_header byte i j [] h = refl
get_or-new_header byte i zero (b ∷ bs) h =
    let here : i + 0 ≡ i = omega arith in
    ap (λ c. if c then byte i else b) (ap is_header_place (sym here) ∙ h)
get_or-new_header byte i (suc j) (b ∷ bs) h =
    let next : i + suc j ≡ i + 1 + j = omega arith in
    get_or-new_header byte (i + 1) j bs (ap is_header_place (sym next) ∙ h)

new_header-SameButHeader : (byte : ℕ → ℕ) (c : List ℕ) → SameButHeader (new_header byte 0 c) c
new_header-SameButHeader byte c = record {
  same_length = length-new_header byte 0 c;
  same_bytes = λ i h.
      let same : 0 + i ≡ i = omega arith in
      get_or-new_header byte 0 i c (ap is_header_place same ∙ h);
}

stamp_pages-first :
    (byte : List ℕ → ℕ → ℕ) (pages : Pages) (c : List ℕ)
    → pages 1 ≡ some c
    → (out : List ℕ) × (stamp_pages byte pages 1 ≡ some out) × SameButHeader out c
unfolding stamp_pages new_header_page
stamp_pages-first byte pages c there =
    (_, ap (new_header_page byte) there, new_header-SameButHeader (byte c) c)

stamp_pages-other :
    (byte : List ℕ → ℕ → ℕ) (pages : Pages) (k : ℕ) → 2 ≤ k → stamp_pages byte pages k ≡ pages k
unfolding stamp_pages
stamp_pages-other byte pages k h =
    let other : (k == 1) ≡ false = ground arith in
    ap (λ b. if b then new_header_page byte (pages 1) else pages k) other

-- The file on disk is the origin's: each page but the lock byte page, where of page 1 the commit has
-- rewritten the change counter and the version fields, and the page count.
pub record Converged (origin : Pages) (n lock : ℕ) (s : Rsync) : Type 0 where
  pub equal : (k : ℕ) → 2 ≤ k → k ≢ lock → s.db.saved.page k ≡ origin k
  pub header :
      (c : List ℕ)
      → origin 1 ≡ some c
      → 1 ≢ lock
      → (out : List ℕ) × (s.db.saved.page 1 ≡ some out) × SameButHeader out c
  pub count : s.db.saved.page_count ≡ n
  pub pages : s.pages ≡ n
  pub committed : s.db.in_transaction ≡ false

-- The bytes of the transfer make the file of the replica equal to the origin's, but for what the commit
-- writes into the header of page 1: where the origin's file has at least one page and fewer than
-- 0xffffffff, the last of them is not the lock byte page, page 1 says no other journal mode than the
-- replica keeps, the pages that were hashed and not written down are equal, at least one page is sent,
-- and the replica is in a transaction on a database that does not fail, its loop returns no error. The
-- page count of the file on disk is that of the origin, each page but page 1 and the lock byte page is
-- the origin's, and page 1 is as long and has the same bytes but at 24 to 27 and 92 to 99. The loop has
-- fuel for each byte of its input, and one.
pub replica_loop-Converged :
    {size j n m : ℕ} {origin held : Pages} (file : IsFile size j n origin) (v : Locals) (t : Table)
    (p : ℕ × List ℕ) (ps : List (ℕ × List ℕ)) (s : Rsync) (fuel : ℕ)
    → length s.reader.input + 1 ≤ fuel
    → 1 ≤ n
    → n < 2 ^ 32 - 1
    → n ≢ v.lock_byte_page
    → Checked origin n v t held m
    → page_rows origin (resend v n t) ≡ p ∷ ps
    → Takes size j held m (page_frames (page_rows origin (resend v n t)) ++ txn_frame n) s
    → (s' : Rsync) × (replica_loop fuel s ≡ (ok tt, s')) × Converged origin n v.lock_byte_page s'
unfolding arrived
replica_loop-Converged {size} {j} {n} {m} {origin} {held} file v t p ps s fuel lasts some_page small
      last checked some_row takes =
    let (s', ends, synced) =
      replica_loop-pages size j p ps held m n s fuel lasts
        (subst (All (Sendable size j)) some_row (rows-Sendable file small (resend v n t))) some_page
        small
        (subst (λ rows. Takes size j held m (page_frames rows ++ txn_frame n) s) some_row takes) in
    let cut : (rows : List (ℕ × List ℕ)) → Pages =
      λ rows. cut_pages (n + 1) (with_pages j rows held) in
    let saved : s'.db.saved.page
        ≡ stamp_pages s'.db.header_byte (cut (page_rows origin (resend v n t))) =
      synced.saved_page ∙ ap (λ rows. stamp_pages s'.db.header_byte (cut rows)) (sym some_row) in
    (
      s',
      ends,
      record {
        equal = λ k lo other.
            ap (λ pages. pages k) saved
            ∙ stamp_pages-other s'.db.header_byte (cut (page_rows origin (resend v n t))) k lo
            ∙ saved-equal file v t held m checked k (omega (arith, lo)) other;
        header = λ c there other.
            let (out, stamped, same) =
              stamp_pages-first s'.db.header_byte (cut (page_rows origin (resend v n t))) c
                (saved-equal file v t held m checked 1 (omega arith) other ∙ there) in
            (out, ap (λ pages. pages 1) saved ∙ stamped, same);
        count =
            synced.saved_count
            ∙ ap (λ rows. min (with_count rows m) n) (sym some_row)
            ∙ count-equal file v t held m checked last;
        pages = synced.pages;
        committed = synced.in_transaction;
      },
    )
