-- ===== src/Sync/Convergence/Greets.antt =====
-- sqlitersync/replica.go: the end of ORIGIN_BEGIN, where all pages are hashed alone.
use go_sqlite_rsync.Common.{
  arith, All, zero, suc, ◌+◌, ◌^◌, ◌<◌, ℕ, ◌≤◌, ◌≡◌, refl, sym, ap, subst, ◌∙◌, none, Bool, true,
  ◌||◌, ltb, leb, List, [], ◌∷◌, ◌++◌,
}
use go_sqlite_rsync.Common.Act.{bind, ◌>>◌}
use go_sqlite_rsync.Wire.{replica_ready}
use go_sqlite_rsync.Wire.Writer.Pending.{Fits}
use go_sqlite_rsync.Sync.PageHash.{Pages}
use go_sqlite_rsync.Sync.Run.{Rsync, Run, Env}
use go_sqlite_rsync.Sync.Run.Healthy.{Healthy}
use go_sqlite_rsync.Sync.Run.Keeps.{Keeps}
use go_sqlite_rsync.Sync.Messages.Keeps.{Keeps-send_hash_messages}
use go_sqlite_rsync.Sync.Replica.Begin.{first_hashes}
use go_sqlite_rsync.Sync.Replica.FirstHashes.{hashing, first_hashes-single}
use go_sqlite_rsync.Wire.Reader.{Reader}
use go_sqlite_rsync.Sync.Messages.{send_hash_messages}
use go_sqlite_rsync.Sync.Origin.Ready.{tail_rows}
use go_sqlite_rsync.Sync.Exchange.{Entry, messages}
use go_sqlite_rsync.Sync.Exchange.Send.{Scannable, Hashed}
use go_sqlite_rsync.Sync.Exchange.Finish.{Delivered, send_hash_messages_delivers}
use go_sqlite_rsync.Sync.Replica.Receive.{Takes}

-- What the messages of the replica leave of its state.
record Ready : Type 0 where
  env : Env
  db_open : Bool
  in_transaction : Bool
  page_bytes : ℕ
  j_mode : ℕ
  page : Pages
  count : ℕ
  reader : Reader

abbrev readiness : Rsync → Ready
readiness s = record {
  env = s.env;
  db_open = s.db_open;
  in_transaction = s.db.in_transaction;
  page_bytes = s.page_bytes;
  j_mode = s.kept.j_mode;
  page = s.db.page;
  count = s.db.file_page_count;
  reader = s.reader;
}

Takes-readiness :
    (size j m : ℕ) (held : Pages) (rest : List ℕ) (s s1 : Rsync)
    → readiness s1 ≡ readiness s
    → Takes size j held m rest s
    → Takes size j held m rest s1
Takes-readiness size j m held rest s s1 same takes = record {
  healthy = subst Healthy (sym (ap (λ r. r.env) same)) takes.healthy;
  db_open = ap (λ r. r.db_open) same ∙ takes.db_open;
  in_transaction = ap (λ r. r.in_transaction) same ∙ takes.in_transaction;
  page_bytes = ap (λ r. r.page_bytes) same ∙ takes.page_bytes;
  j_mode = ap (λ r. r.j_mode) same ∙ takes.j_mode;
  page = ap (λ r. r.page) same ∙ takes.page;
  count = ap (λ r. r.count) same ∙ takes.count;
  input = ap (λ r. r.reader.input) same ∙ takes.input;
}

Keeps-readiness : (i n : ℕ) → Keeps readiness (send_hash_messages i n)
Keeps-readiness =
    Keeps-send_hash_messages (record { writer = λ s w. refl; calls = λ s n. refl })
      (record { messages = λ s n. refl; rounds = λ s n. refl; table = λ s t. refl })

-- The end of ORIGIN_BEGIN, for a file of `m` pages.
abbrev pub first_round : ℕ → Run (Unit {0})
first_round m = first_hashes m >> send_hash_messages 1 1

tail_rows-Scannable : (k count : ℕ) → k + count ≤ 2 ^ 32 → All Scannable (tail_rows k count)
unfolding tail_rows
tail_rows-Scannable k zero h = tt
tail_rows-Scannable k (suc count) h =
    ((omega arith, omega arith), tail_rows-Scannable (k + 1) count (omega arith))

module _ (size j m : ℕ) (held : Pages) (es : List Entry) (rest : List ℕ) (s : Rsync)
    (takes : Takes size j held m rest s) (empty : s.db.send_hash_table ≡ []) (some_page : 1 ≤ m)
    (single : (ltb s.protocol 2 || leb m 100) ≡ true) where
  first_round-eq :
      first_round m s ≡ send_hash_messages 1 1 (hashing (suc s.db.calls) (tail_rows 1 m) s)
  first_round-eq =
      ap (λ r. bind r (λ u. send_hash_messages 1 1))
        (first_hashes-single m s takes.healthy empty some_page single)

  pub first_round-Takes : Takes size j held m rest (first_round m s).1
  first_round-Takes =
      let s0 = hashing (suc s.db.calls) (tail_rows 1 m) s in
      subst (Takes size j held m rest) (sym (ap (λ r. r.1) first_round-eq)) (
        Takes-readiness size j m held rest s0 (send_hash_messages 1 1 s0).1
          ((Keeps-readiness 1 1).at s0) (Takes-readiness size j m held rest s s0 refl takes))

  pub first_round-Delivered :
      m + 1 < 2 ^ 32
      → s.writer.fault ≡ none
      → Fits s.writer
      → Hashed held (tail_rows 1 m) es
      → Delivered s.writer (messages 1 1 es ++ (replica_ready ∷ [])) (first_round m s)
  first_round-Delivered few ready fits hashed =
      let s0 = hashing (suc s.db.calls) (tail_rows 1 m) s in
      subst (Delivered s.writer (messages 1 1 es ++ (replica_ready ∷ []))) (sym first_round-eq) (
        send_hash_messages_delivers (record { page = held; count = s.pages }) 1 1 es s0
          (record {
            healthy = takes.healthy;
            page = takes.page;
            count = refl;
            ready = ready;
            fits = fits;
          })
          (tail_rows-Scannable 1 m (omega (arith, few))) hashed)
