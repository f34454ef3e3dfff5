-- ===== src/Sync/Origin/Complete.antt =====
-- sqlitersync/origin.go, REPLICA_READY: the pages among those that are sent.
use go_sqlite_rsync.Common.{
  ℕ, zero, suc, ◌+◌, ◌-◌, ◌≤◌, ◌<◌, ◌≡◌, ◌≢◌, ◌⊎◌, sym, ap, subst, ◌∙◌, true, Bool-cases, inl, inr,
  none, some, Option-cases, List, [], ◌∷◌, ◌++◌, ◌==◌, if◌then◌else◌, arith,
}
use mathlib.Core.List.{Memᴰ}
use go_sqlite_rsync.Sync.Table.{Range, Table, has_key, delete_key}
use go_sqlite_rsync.Sync.PageHash.{Pages}
use go_sqlite_rsync.Sync.Origin.Loop.{Locals}
use go_sqlite_rsync.Sync.Origin.Ready.{tail_rows, page_rows, transfer}
use go_sqlite_rsync.Sync.Origin.Transfer.{resend, file_of, transfer-Emits}
use go_sqlite_rsync.Sync.Origin.Frames.{page_frames, txn_frame}
use go_sqlite_rsync.Sync.Run.{Rsync}
use go_sqlite_rsync.Sync.Run.Emits.{Outgoing, Emitted}
use go_sqlite_rsync.Sync.Subdivide.Tiles.{KeysBelow}

has_key-append_left : (k : ℕ) (a b : Table) → has_key k a ≡ true → has_key k (a ++ b) ≡ true
unfolding has_key
has_key-append_left k [] b h = absurd (ground (arith, h))
has_key-append_left k (x ∷ xs) b h = elim (Bool-cases (k == x.first)) [
  | inl here ↦ ap (λ c. if c then true else has_key k (xs ++ b)) here
  | inr later ↦
      ap (λ c. if c then true else has_key k (xs ++ b)) later
      ∙ has_key-append_left k xs b (ap (λ c. if c then true else has_key k xs) (sym later) ∙ h)
]

has_key-append_right : (k : ℕ) (a b : Table) → has_key k b ≡ true → has_key k (a ++ b) ≡ true
unfolding has_key
has_key-append_right k [] b h = h
has_key-append_right k (x ∷ xs) b h = ground (arith, has_key-append_right k xs b h)

has_key-tail_rows : (k n count : ℕ) → n ≤ k → k < n + count → has_key k (tail_rows n count) ≡ true
unfolding has_key tail_rows
has_key-tail_rows k n zero lo hi = absurd (omega arith)
has_key-tail_rows k n (suc count) lo hi = elim (Bool-cases (k == n)) [
  | inl here ↦ ap (λ c. if c then true else has_key k (tail_rows (n + 1) count)) here
  | inr later ↦
      ap (λ c. if c then true else has_key k (tail_rows (n + 1) count)) later
      ∙ has_key-tail_rows k (n + 1) count (ground (arith, later)) (omega arith)
]

has_key-delete_key :
    (k l : ℕ) (t : Table) → k ≢ l → has_key k t ≡ true → has_key k (delete_key l t) ≡ true
unfolding has_key delete_key
has_key-delete_key k l [] other h = h
has_key-delete_key k l (x ∷ xs) other h = ground (arith, has_key-delete_key k l xs other, h, other)

pub page_rows-skip :
    (pages : Pages) (r : Range) (rs : Table)
    → pages r.first ≡ none
    → page_rows pages (r ∷ rs) ≡ page_rows pages rs
unfolding page_rows
page_rows-skip pages r rs absent =
    ap
      (λ o. elim o as (λ x. List (ℕ × List ℕ)) [
        | none ↦ page_rows pages rs
        | some c ↦ (r.first, c) ∷ page_rows pages rs
      ])
      absent

pub page_rows-row :
    (pages : Pages) (r : Range) (rs : Table) (content : List ℕ)
    → pages r.first ≡ some content
    → page_rows pages (r ∷ rs) ≡ (r.first, content) ∷ page_rows pages rs
unfolding page_rows
page_rows-row pages r rs content there =
    ap
      (λ o. elim o as (λ x. List (ℕ × List ℕ)) [
        | none ↦ page_rows pages rs
        | some c ↦ (r.first, c) ∷ page_rows pages rs
      ])
      there

page_rows-Mem :
    (pages : Pages) (k : ℕ) (content : List ℕ) (t : Table)
    → pages k ≡ some content
    → has_key k t ≡ true
    → Memᴰ (k, content) (page_rows pages t)
unfolding has_key page_rows
page_rows-Mem pages k content [] e h = absurd (ground (arith, h))
page_rows-Mem pages k content (x ∷ xs) e h = elim (Bool-cases (k == x.first)) [
  | inl here ↦
      let same : k ≡ x.first = ground (arith, here) in
      subst (Memᴰ (k, content)) (sym (page_rows-row pages x xs content (ap pages (sym same) ∙ e)))
        (Memᴰ.head (ap (λ n. (n, content)) same))
  | inr later ↦
      let rest =
        page_rows-Mem pages k content xs e
          (ap (λ c. if c then true else has_key k xs) (sym later) ∙ h) in
      elim (Option-cases (pages x.first)) [
        | inl absent ↦ subst (Memᴰ (k, content)) (sym (page_rows-skip pages x xs absent)) rest
        | inr (c, there) ↦
            subst (Memᴰ (k, content)) (sym (page_rows-row pages x xs c there)) (Memᴰ.tail rest)
      ]
]

-- The pages of badHash and of the tail, but for the lock byte page, are looked up.
pub has_key-resend :
    (v : Locals) (count k : ℕ) (t : Table)
    → k ≢ v.lock_byte_page
    → (has_key k t ≡ true) ⊎ ((v.mx_hash ≤ k) × (k ≤ count))
    → has_key k (resend v count t) ≡ true
has_key-resend v count k t other wanted =
    has_key-delete_key k v.lock_byte_page (t ++ tail) other (listed wanted)
  where
    tail : Table
    tail = tail_rows v.mx_hash (count + 1 - v.mx_hash)

    listed : (has_key k t ≡ true) ⊎ ((v.mx_hash ≤ k) × (k ≤ count)) → has_key k (t ++ tail) ≡ true
    listed (inl h) = has_key-append_left k t tail h
    listed (inr (lo, hi)) =
        has_key-append_right k t tail
          (has_key-tail_rows k v.mx_hash (count + 1 - v.mx_hash) lo (omega arith))

-- Where no key of badHash reaches the tail and the database does not fail, every page of the origin, but
-- for the lock byte page, that is in badHash or that the replica has not hashed is sent with its content
-- by the transfer, among the pages before ORIGIN_TXN; or the stream breaks and has a first part of these
-- bytes.
pub transfer_complete :
    (v : Locals) (s : Rsync) (k : ℕ) (content : List ℕ) (t : Table)
    → Outgoing (file_of s) s
    → s.db.bad_hash ≡ some t
    → KeysBelow v.mx_hash t
    → s.db.page k ≡ some content
    → k ≢ v.lock_byte_page
    → (has_key k t ≡ true) ⊎ ((v.mx_hash ≤ k) × (k ≤ s.pages))
    → (rows : List (ℕ × List ℕ)) × Memᴰ (k, content) rows
      × Emitted (file_of s) s.writer (page_frames rows ++ txn_frame s.pages) (transfer v s)
transfer_complete v s k content t out there below e other wanted = (
  page_rows s.db.page (resend v s.pages t),
  page_rows-Mem s.db.page k content (resend v s.pages t) e
      (has_key-resend v s.pages k t other wanted),
  transfer-Emits v s t out there below,
)
