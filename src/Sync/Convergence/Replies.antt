-- ===== src/Sync/Convergence/Replies.antt =====
-- sqlitersync/replica.go, ORIGIN_BEGIN: the whole handler on a file that has pages and can be read.
use go_sqlite_rsync.Common.{
  ◌<◌, ◌+◌, ℕ, ◌^◌, ◌≤◌, ◌≡◌, ◌⊎◌, refl, sym, ap, subst, ◌∙◌, true, false, ◌||◌, none, List, [],
  ◌∷◌, ◌++◌, ltb, leb,
}
use go_sqlite_rsync.Common.Words.{IsU32}
use go_sqlite_rsync.Wire.{replica_ready}
use go_sqlite_rsync.Wire.Writer.Pending.{Fits}
use go_sqlite_rsync.Sync.Run.{Rsync}
use go_sqlite_rsync.Sync.Run.Healthy.{Healthy}
use go_sqlite_rsync.Sync.Negotiation.{begin_fields, heard, on_begin-accepts}
use go_sqlite_rsync.Sync.Origin.Ready.{tail_rows}
use go_sqlite_rsync.Sync.Exchange.{Entry, messages}
use go_sqlite_rsync.Sync.Exchange.Send.{Hashed}
use go_sqlite_rsync.Sync.Exchange.Finish.{Delivered}
use go_sqlite_rsync.Sync.Replica.Begin.{on_begin}
use go_sqlite_rsync.Sync.Replica.Receive.{Takes}
use go_sqlite_rsync.Sync.Convergence.Begins.{mode_of, prepared, begin_sync-first_round}
use go_sqlite_rsync.Sync.Convergence.Greets.{first_round, first_round-Takes, first_round-Delivered}

-- The journal mode that a replica with its file on disk keeps.
abbrev pub kept_mode : Rsync → ℕ
kept_mode s = mode_of (s.env.reads_wal s.db.saved.page)

-- A replica that has read the message byte of ORIGIN_BEGIN, with the version `p`, pages of 2 ^ `k` bytes and a
-- count of `n`, and has a file with pages of this size, at least one, on which nothing fails.
pub record IsReplica (p k n : ℕ) (rest : List ℕ) (s : Rsync) : Type 0 where
  pub healthy : Healthy s.env
  pub closed : s.db_open ≡ false
  pub known : p ≤ s.protocol
  pub exponent : k ≤ 16
  pub pages : IsU32 n
  pub clear : s.wrong_enc ≡ false
  pub some_page : 1 ≤ s.db.saved.page_count
  pub size : s.db.saved.page_size ≡ 2 ^ k
  pub mode : (s.wal_only ≡ false) ⊎ (s.env.reads_wal s.db.saved.page ≡ true)
  pub single : (ltb p 2 || leb s.db.saved.page_count 100) ≡ true
  pub input : s.reader.input ≡ begin_fields p k n ++ rest
  pub ready : s.writer.fault ≡ none
  pub fits : Fits s.writer

module _ (p k n : ℕ) (rest : List ℕ) (s : Rsync) (is_replica : IsReplica p k n rest s) where
  begun : Rsync
  begun = record (heard s k n rest) { protocol = p; pages = n; page_bytes = 2 ^ k }

  on_begin-first_round :
      (c : ℕ) × (on_begin s ≡ first_round s.db.saved.page_count (prepared c begun))
  unfolding begun
  on_begin-first_round =
      let (c, began) =
        begin_sync-first_round begun is_replica.healthy is_replica.clear is_replica.some_page
          is_replica.mode is_replica.size in
      (
        c,
        on_begin-accepts s p k n rest is_replica.closed is_replica.exponent is_replica.pages
              is_replica.input is_replica.known
            ∙ began,
      )

  prepared-Takes :
      (c : ℕ)
      → Takes (2 ^ k) (kept_mode s) s.db.saved.page s.db.saved.page_count rest (prepared c begun)
  unfolding begun
  prepared-Takes c = record {
    healthy = is_replica.healthy;
    db_open = refl;
    in_transaction = refl;
    page_bytes = refl;
    j_mode = refl;
    page = refl;
    count = refl;
    input = refl;
  }

  pub on_begin-Takes :
      Takes (2 ^ k) (kept_mode s) s.db.saved.page s.db.saved.page_count rest (on_begin s).1
  unfolding begun
  on_begin-Takes =
      let (c, began) = on_begin-first_round in
      subst (Takes (2 ^ k) (kept_mode s) s.db.saved.page s.db.saved.page_count rest)
        (sym (ap (λ r. r.1) began))
        (first_round-Takes (2 ^ k) (kept_mode s) s.db.saved.page_count s.db.saved.page [] rest
          (prepared c begun) (prepared-Takes c) refl is_replica.some_page is_replica.single)

  pub on_begin-Delivered :
      (es : List Entry)
      → s.db.saved.page_count + 1 < 2 ^ 32
      → Hashed s.db.saved.page (tail_rows 1 s.db.saved.page_count) es
      → Delivered s.writer (messages 1 1 es ++ (replica_ready ∷ [])) (on_begin s)
  unfolding begun
  on_begin-Delivered es few hashed =
      let (c, began) = on_begin-first_round in
      subst (Delivered s.writer (messages 1 1 es ++ (replica_ready ∷ []))) (sym began) (
        first_round-Delivered (2 ^ k) (kept_mode s) s.db.saved.page_count s.db.saved.page es rest
          (prepared c begun) (prepared-Takes c) refl is_replica.some_page is_replica.single few
          is_replica.ready is_replica.fits hashed)
