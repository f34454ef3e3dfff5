-- ===== src/Sync/Messages/Keeps.antt =====
-- sqlitersync/replica.go: what sendHashMessages leaves as it was.
use go_sqlite_rsync.Common.{ℕ, ◌+◌, ◌≡◌, ◌∙◌, List, [], ◌∷◌}
use go_sqlite_rsync.Common.Act.{ok, modify}
use go_sqlite_rsync.Common.Words.{u32, u64}
use go_sqlite_rsync.Sync.Table.{Range, Table}
use go_sqlite_rsync.Sync.Run.{Rsync, Run, RunError, run, delete_send_hash}
use go_sqlite_rsync.Sync.Run.Keeps.{
  Keeps, Frame, keeps_rules, Keeps-bind, Keeps-modify, Keeps-run, Keeps-call,
}
use go_sqlite_rsync.Sync.Messages.{
  scan, closing, send_rows, send_entry, send_entries, finish_round, send_hash_messages,
}

-- `g` does not look at the counts of messages and rounds, nor at sendHash.
pub record Uncounted {X : Type 0} (g : Rsync → X) : Type 0 where
  pub messages : (s : Rsync) (n : ℕ) → g (record s { hash_messages = n }) ≡ g s
  pub rounds : (s : Rsync) (n : ℕ) → g (record s { hash_rounds = n }) ≡ g s
  pub table :
      (s : Rsync) (t : Table) → g (record s { db = record s.db { send_hash_table = t } }) ≡ g s

module _ {X : Type 0} {g : Rsync → X} (frame : Frame g) (uncounted : Uncounted g) where
  Keeps-count_message :
      Keeps {E = RunError} g (modify (λ s. record s { hash_messages = u64 (s.hash_messages + 1) }))
  Keeps-count_message = Keeps-modify _ (λ s. uncounted.messages s (u64 (s.hash_messages + 1)))

  Keeps-scan : (r : Range) → Keeps g (scan r)
  unfolding scan
  Keeps-scan r = search (keeps_rules, frame)

  Keeps-send_entry : (i n : ℕ) (r : Range) → Keeps g (send_entry i n r)
  unfolding send_entry
  Keeps-send_entry i n r = search (keeps_rules, frame, Keeps-count_message, Keeps-scan) depth 12

  Keeps-send_entries : (i n : ℕ) (rs : List Range) → Keeps g (send_entries i n rs)
  unfolding send_entries
  Keeps-send_entries i n [] = search keeps_rules
  Keeps-send_entries i n (r ∷ rs) =
      Keeps-bind (send_entry i n r) _ (Keeps-send_entry i n r)
        (λ u. Keeps-send_entries (u32 (r.first + r.count)) r.count rs)

  Keeps-finish_round : Keeps g finish_round
  unfolding finish_round
  Keeps-finish_round = record {
    at = λ s.
        frame.writer (record s { hash_rounds = u32 (s.hash_rounds + 1) }) _
        ∙ uncounted.rounds s (u32 (s.hash_rounds + 1));
  }

  Keeps-empty_table : Keeps g (run delete_send_hash (λ d. ok (record d { send_hash_table = [] })))
  Keeps-empty_table = Keeps-run delete_send_hash _ frame (λ s. uncounted.table s [])

  Keeps-closing : (m : Run (Unit {0})) → Keeps g m → Keeps g (closing m)
  unfolding closing
  Keeps-closing m h = record { at = λ s. (Keeps-call frame).at (m s).1 ∙ h.at s }

  Keeps-send_rows : (i n : ℕ) → Keeps g (send_rows i n)
  unfolding send_rows
  Keeps-send_rows i n =
      search (keeps_rules, frame, Keeps-send_entries, Keeps-finish_round, Keeps-empty_table) depth
        12

  pub Keeps-send_hash_messages : (i n : ℕ) → Keeps g (send_hash_messages i n)
  unfolding send_hash_messages
  Keeps-send_hash_messages i n =
      search (keeps_rules, frame, Keeps-closing, Keeps-send_rows) depth 12
