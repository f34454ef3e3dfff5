-- ===== src/Sync/Convergence/Early.antt =====
-- sqlitersync/origin.go: a run in which REPLICA_READY comes before any REPLICA_HASH.
use go_sqlite_rsync.Common.{◌≡◌, Option}
use go_sqlite_rsync.Common.Act.{Result, err}
use go_sqlite_rsync.Wire.{WireError}
use go_sqlite_rsync.Wire.Writer.{Writer}
use go_sqlite_rsync.Sync.Run.{RunError, reported, sql_failed, select_multi, no_such_table}
use go_sqlite_rsync.Sync.Run.Healthy.{Healthy}

-- The report that the query of badHash failed, sent or not.
abbrev pub Reports : Result RunError (Unit {0}) → Type 0
Reports r = (e : Option WireError) × (r ≡ err (reported (sql_failed select_multi no_such_table) e))
