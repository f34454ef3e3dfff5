-- ===== src/Sync/Replica/Progress/Messages.antt =====
-- sqlitersync/subdivide.go: the input before and after sendHashMessages.
use go_sqlite_rsync.Common.{ℕ, ◌+◌, ◌≡◌, ◌≢◌, refl, sym, subst, List, [], ◌∷◌, arith}
use go_sqlite_rsync.Common.Act.{Result, ok, err, modify}
use go_sqlite_rsync.Common.Words.{u32, u64}
use go_sqlite_rsync.Wire.{WireError, replica_ready}
use go_sqlite_rsync.Wire.Writer.{write_byte}
use go_sqlite_rsync.Sync.Run.{Rsync, Run, RunError, DbError, out_of_fuel, call, joined}
use go_sqlite_rsync.Sync.Run.Reads.{Shorter, Shorter-refl, Shorter-trans}
use go_sqlite_rsync.Sync.Run.Progress.{
  Progress, progress_rules, Progress-bind, Quiet-call, Progress-modify,
}
use go_sqlite_rsync.Sync.Table.{Range}
use go_sqlite_rsync.Sync.Messages.{
  scan, closed_after, closing, send_rows, send_entry, send_entries, finish_round,
  send_hash_messages,
}

Progress-count_message : Progress (
    modify {S = Rsync} {E = RunError} (λ s. record s { hash_messages = u64 (s.hash_messages + 1) }))
Progress-count_message = Progress-modify _ (λ s. refl)

Progress-scan : (r : Range) → Progress (scan r)
unfolding scan
Progress-scan r = search progress_rules

Progress-send_entry : (i n : ℕ) (r : Range) → Progress (send_entry i n r)
unfolding send_entry
Progress-send_entry i n r = search (progress_rules, Progress-count_message, Progress-scan) depth 12

Progress-send_entries : (i n : ℕ) (rs : List Range) → Progress (send_entries i n rs)
unfolding send_entries
Progress-send_entries i n [] = search progress_rules
Progress-send_entries i n (r ∷ rs) =
    Progress-bind (send_entry i n r) _ (Progress-send_entry i n r)
      (λ u. Progress-send_entries (u32 (r.first + r.count)) r.count rs)

Progress-finish_round : Progress finish_round
unfolding finish_round
Progress-finish_round = record {
  never = λ s. never (write_byte replica_ready s.writer).0 _;
  shorter = λ s. omega arith;
}
  where
    never : (r r' : Result WireError (Unit {0})) → joined r r' ≢ err out_of_fuel
    never (ok u) (ok u') e = ground (arith, e)
    never (ok u) (err x) e = ground (arith, e)
    never (err x) (ok u) e = ground (arith, e)
    never (err x) (err y) e = ground (arith, e)

Progress-closing : (m : Run (Unit {0})) → Progress m → Progress (closing m)
unfolding closing
Progress-closing m h = record {
  never = λ s. never (m s).0 (call (m s).1).0 (h.never s);
  shorter = λ s.
      Shorter-trans _ _ _ (h.shorter s)
        (same_reader (call (m s).1).1 (m s).1 (Quiet-call.at (m s).1));
}
  where
    never :
        (r : Result RunError (Unit {0})) (r' : Result DbError (Unit {0}))
        → r ≢ err out_of_fuel
        → closed_after r r' ≢ err out_of_fuel
    never r (ok u) h e = h e
    never (ok u) (err x) h e = ground (arith, e)
    never (err y) (err x) h e = ground (arith, e)

    same_reader : (s1 s : Rsync) → s1.reader ≡ s.reader → Shorter s.reader s1.reader
    same_reader s1 s e = subst (Shorter s.reader) (sym e) (Shorter-refl s.reader)

Progress-send_rows : (i n : ℕ) → Progress (send_rows i n)
unfolding send_rows
Progress-send_rows i n =
    search (progress_rules, Progress-send_entries, Progress-finish_round) depth 12

pub Progress-send_hash_messages : (i n : ℕ) → Progress (send_hash_messages i n)
unfolding send_hash_messages
Progress-send_hash_messages i n =
    search (progress_rules, Progress-closing, Progress-send_rows) depth 12
