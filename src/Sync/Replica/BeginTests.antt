-- ===== src/Sync/Replica/BeginTests.antt =====
-- sqlitersync/replica.go, ORIGIN_BEGIN and what comes before it, at concrete inputs.
use go_sqlite_rsync.Common.{ℕ, ◌+◌, ◌≡◌, refl, some, List, [], ◌∷◌, ◌++◌, replicate, All, arith}
use go_sqlite_rsync.Common.Act.{ok}
use go_sqlite_rsync.Sync.Run.{nil_pointer, call}
use go_sqlite_rsync.Sync.Options.{new_rsync}
use go_sqlite_rsync.Sync.Tests.{fresh}
use go_sqlite_rsync.Sync.Replica.Page.{keep_wal}
use go_sqlite_rsync.Sync.Replica.{replica_side}
use go_sqlite_rsync.Sync.Table.{Range}
use go_sqlite_rsync.Sync.Subdivide.Tiles.{Tiles, AtMost}
use go_sqlite_rsync.Sync.Replica.Begin.{first_hashes}
use go_sqlite_rsync.Sync.Replica.Attach.{
  quote, attach_word, as_replica, attach_sql, run_attach, attach_replica,
}
use go_sqlite_rsync.Sync.Replica.Attach.Safe.{HasFile, attach_replica-HasFile}
use go_sqlite_rsync.Sync.Replica.Attach.Quoting.{literal, attach_sql-literal}
use go_sqlite_rsync.Sync.Replica.FirstHashes.{hashing, widest, first_hashes-Tiles}
use go_sqlite_rsync.Sync.Replica.KeepWal.{IsKept, keep_wal-IsKept}
use go_sqlite_rsync.Sync.Replica.Closed.{txn, replica_side_before_begin}

first_hashes-Tiles_example :
    let s = fresh [] in
    (c : ℕ) × (rows : List Range) × (first_hashes 300 s
      ≡ (ok tt, hashing c (record { first = 1; count = 1 } ∷ rows) s))
    × Tiles 2 rows (300 + 1)
    × All (AtMost (widest s.protocol 300)) rows
unfolding new_rsync
first_hashes-Tiles_example = first_hashes-Tiles 300 (fresh []) (λ k. refl) refl (omega arith)

attach_sql-literal_example :
    (bs : List ℕ) × (attach_sql (97 ∷ 39 ∷ 98 ∷ []) ≡ attach_word ++ (quote ∷ bs))
    × (literal bs ≡ some (97 ∷ 39 ∷ 98 ∷ [], as_replica))
attach_sql-literal_example = attach_sql-literal (97 ∷ 39 ∷ 98 ∷ [])

attached_fresh : attach_replica (fresh []) ≡ (ok tt, (attach_replica (fresh [])).1)
unfolding attach_replica run_attach call new_rsync
attached_fresh = refl

attach_replica-HasFile_example : HasFile (attach_replica (fresh [])).1
unfolding new_rsync
attach_replica-HasFile_example =
    attach_replica-HasFile (fresh []) (attach_replica (fresh [])).1 refl attached_fresh

-- Page 1 in rollback mode.
abbrev rollback_page : List ℕ
rollback_page = replicate 18 0 ++ (1 ∷ 1 ∷ 7 ∷ [])

keep_wal-IsKept_example :
    (out : List ℕ) × (keep_wal 1 2 rollback_page ≡ some out) × IsKept 1 2 rollback_page out
keep_wal-IsKept_example = keep_wal-IsKept 1 2 rollback_page (omega arith)

replica_side_before_begin_example :
    (replica_side (fresh (0x45 ∷ replicate 8 0))).0 ≡ nil_pointer ∷ []
unfolding new_rsync
replica_side_before_begin_example =
    replica_side_before_begin (fresh (0x45 ∷ replicate 8 0)) 0x45 (replicate 8 0) txn
      (record { db_open = refl; has_insert = refl; closes_insert = refl }) refl refl refl
      (omega arith)
