-- ===== src/Sync/Replica/Atomic/Side.antt =====
-- sqlitersync/replica.go: the whole run until ORIGIN_TXN.
use go_sqlite_rsync.Common.{
  ◌+◌, ◌≡◌, ◌⊎◌, inl, inr, refl, ap, ◌∙◌, Bool, true, false, length, ◌==◌, if◌then◌else◌, arith,
}
use go_sqlite_rsync.Common.Act.{Result, ok, err, modify}
use go_sqlite_rsync.Wire.{protocol_version}
use go_sqlite_rsync.Sync.Run.{Rsync, RunError}
use go_sqlite_rsync.Sync.Run.Keeps.{Keeps, keeps_rules, Keeps-writing, Keeps-modify}
use go_sqlite_rsync.Sync.Replica.Untouched.{
  standing, stable, Frame-standing, Frame-stable, Keeps-close_db,
}
use go_sqlite_rsync.Sync.Replica.Atomic.{Safe}
use go_sqlite_rsync.Sync.Replica.Atomic.Loop.{OnlyCommits, Commits, replica_loop-OnlyCommits}
use go_sqlite_rsync.Sync.Replica.{
  answer_messages, announce, close_insert, run_deferred, start_replica, chosen_run, replica_side,
}

-- The run where its loop begins: started, with a version.
abbrev pub loop_start : Rsync → Rsync
loop_start s =
    let s1 = (start_replica s).1 in
    record s1 { protocol = if s1.protocol == 0 then protocol_version else s1.protocol }

-- The loop of the run comes to ORIGIN_TXN, with the file on disk as it was found.
abbrev pub CommitsAsFound : Rsync → Type 0
CommitsAsFound s =
    ((start_replica s).0 ≡ ok false)
    × Commits (loop_start s)
    × ((loop_start s).db.saved ≡ s.db.saved)

Keeps-set_role : Keeps {E = RunError} standing (modify (λ s. record s { is_replica = true }))
Keeps-set_role = Keeps-modify _ (λ s. refl)

Keeps-start_replica : Keeps standing start_replica
unfolding start_replica
Keeps-start_replica = search (keeps_rules, Frame-standing, Keeps-set_role) depth 12

Keeps-close_insert : Keeps stable close_insert
unfolding close_insert
Keeps-close_insert = search (keeps_rules, Frame-stable) depth 12

run_deferred-saved :
    (r : Result RunError (Unit {0}) × Rsync) → (run_deferred r).1.db.saved ≡ r.1.db.saved
unfolding run_deferred
run_deferred-saved (r, s) =
    ap (λ v. v.0) (Keeps-close_db.at (close_insert s).1 ∙ Keeps-close_insert.at s)

announce-saved : (s : Rsync) → (announce s).1.db.saved ≡ s.db.saved
unfolding announce
announce-saved s = ap (λ v. v.saved) ((Keeps-writing _ Frame-standing).at s)

-- The file of the replica changes only by a commit that the origin asks for: from a run that has no
-- database open yet, however it ends, the file on disk is as it was found, or the run is no communication
-- check and its own loop, message by message from its start, came to ORIGIN_TXN with the file as it was
-- found until then.
pub replica_side-OnlyCommits :
    (s : Rsync)
    → s.db_open ≡ false
    → s.kept.has_insert ≡ false
    → ((replica_side s).1.db.saved ≡ s.db.saved) ⊎ CommitsAsFound s
unfolding replica_side answer_messages
replica_side-OnlyCommits s closed no_insert = chosen (start_replica s) (Keeps-start_replica.at s)
  where
    safe : (s' : Rsync) → standing s' ≡ standing s → Safe (standing s')
    safe s' e = record {
      in_transaction = λ h. absurd (ground (arith, ap (λ v. v.db_open) e, closed, h));
      db_open = λ h. absurd (ground (arith, ap (λ v. v.has_insert) e, no_insert, h));
    }

    set_protocol : Rsync → Rsync
    set_protocol s' = record s' {
      protocol = if s'.protocol == 0 then protocol_version else s'.protocol;
    }

    Found : Result RunError Bool × Rsync → Type 0
    Found r =
        (r.0 ≡ ok false) × Commits (set_protocol r.1) × ((set_protocol r.1).db.saved ≡ s.db.saved)

    ended :
        (s' : Rsync)
        → s'.db.saved ≡ s.db.saved
        → (r : Result RunError (Unit {0}) × Rsync) → OnlyCommits (set_protocol s') r.1
        → ((run_deferred r).1.db.saved ≡ s.db.saved) ⊎ Found (ok false, s')
    ended s' e r (inl same) = inl (run_deferred-saved r ∙ same ∙ e)
    ended s' e r (inr c) = inr (refl, c, e)

    chosen :
        (r : Result RunError Bool × Rsync)
        → standing r.1 ≡ standing s
        → ((chosen_run r).1.db.saved ≡ s.db.saved) ⊎ Found r
    chosen (ok true, s') e = inl (announce-saved s' ∙ ap (λ v. v.saved) e)
    chosen (ok false, s') e = ended s' (ap (λ v. v.saved) e) (answer_messages s') (
        replica_loop-OnlyCommits (length s'.reader.input + 1) (set_protocol s')
          (safe (set_protocol s') e))
    chosen (err x, s') e = inl (ap (λ v. v.saved) e)
