-- ===== src/Sync/Replica/Identical.antt =====
-- sqlitersync/replica.go: a sync in which the origin sends no page.
use go_sqlite_rsync.Common.{false}
use go_sqlite_rsync.Sync.Run.{Database, Run}
use go_sqlite_rsync.Sync.Run.Healthy.{Healthy}

-- The database after the COMMIT of a transaction that has written nothing.
abbrev untouched : Database → Database
untouched d = record d {
  in_transaction = false;
  changed = false;
  saved = record { page = d.page; page_count = d.file_page_count; page_size = d.file_page_size };
}
