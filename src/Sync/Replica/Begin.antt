-- ===== src/Sync/Replica/Begin.antt =====
-- sqlitersync/replica.go, ORIGIN_BEGIN: the protocol version, the file, and the first hashes.
use go_sqlite_rsync.Common.{
  ℕ, ◌-◌, true, false, ◌&&◌, ◌||◌, List, [], ◌∷◌, ltb, leb, ◌==◌, if◌then◌else◌,
}
use go_sqlite_rsync.Common.Act.{ok, pure, raise, ◌>>=◌, ◌>>◌, modify, gets}
use go_sqlite_rsync.Common.Words.{u8}
use go_sqlite_rsync.Wire.{replica_begin}
use go_sqlite_rsync.Wire.Reader.{read_byte, read_uint32, read_pow2}
use go_sqlite_rsync.Wire.Writer.{Write, write_byte, flush}
use go_sqlite_rsync.Sync.Table.{Range}
use go_sqlite_rsync.Sync.Subdivide.{subdivide_hash_range}
use go_sqlite_rsync.Sync.Messages.{send_hash_messages}
use go_sqlite_rsync.Sync.Origin.Ready.{tail_rows}
use go_sqlite_rsync.Sync.Run.{
  Rsync, Run, nil_pointer, cannot_open_memory, replica_not_in_wal_mode, page_size_mismatch,
  writable_schema, create_send_hash, replica_page_count, set_page_size, read_schema,
  begin_immediate, replica_journal_mode, replica_page_size, fill_send_hash, insert_first,
  replace_send_hash, reading, writing, write_error, call, or_report, or_driver, run, run_return,
}
use go_sqlite_rsync.Sync.Replica.File.{begun, into_send_hash}
use go_sqlite_rsync.Sync.Replica.Attach.{attach_replica}

-- Every use of the field `db` when it is nil is a panic.
abbrev pub with_db : {A : Type 0} → Run A → Run A
with_db m = do db_open ← gets (λ s. s.db_open); if db_open then m else raise nil_pointer

-- closeDb: the handle is gone even if closing it fails, and with it the open transaction.
abbrev pub drop_db : Rsync → Rsync
drop_db s = record s { db_open = false; db = record s.db { in_transaction = false } }

unfoldable pub close_db : Run (Unit {0})
close_db = do
  db_open ← gets (λ s. s.db_open)
  if db_open then (do modify drop_db; or_driver call) else pure tt

-- REPLICA_BEGIN: the highest version that this replica speaks.
unfoldable pub write_offer : ℕ → Write
write_offer protocol = do write_byte replica_begin; write_byte (u8 protocol); flush

-- Opens the in-memory database and attaches the file; its page count.
unfoldable pub open_replica : Run ℕ
open_replica = do
  or_report call cannot_open_memory
  modify (λ s. record s { db_open = true })
  run writable_schema ok
  attach_replica
  run create_send_hash (λ d. ok (record d { send_hash_table = [] }))
  run_return replica_page_count (λ d. d.file_page_count)

-- An empty file takes the page size of the origin.
unfoldable pub size_empty_file : ℕ → Run (Unit {0})
size_empty_file n_r_page =
    if n_r_page == 0
    then (do
      size ← gets (λ s. s.env.new_page_size s.page_bytes)
      run set_page_size (λ d. ok (record d { file_page_size = size }))
      run read_schema ok)
    else pure tt

unfoldable pub begin_transaction : Run (Unit {0})
begin_transaction = do env ← gets (λ s. s.env); run begin_immediate (λ d. ok (begun env d))

abbrev pub set_j_mode : ℕ → Run (Unit {0})
set_j_mode j = modify (λ s. record s { kept = record s.kept { j_mode = j } })

-- `n_r_page` is the page count before the transaction.
unfoldable pub note_journal_mode : ℕ → Run (Unit {0})
note_journal_mode n_r_page = do
  env ← gets (λ s. s.env)
  is_wal ← run_return replica_journal_mode (λ d. env.reads_wal d.page)
  wal_only ← gets (λ s. s.wal_only)
  if is_wal
      then set_j_mode 2
      else if wal_only && ltb 0 n_r_page
      then write_error replica_not_in_wal_mode
      else set_j_mode 1

unfoldable pub check_page_size : Run (Unit {0})
check_page_size = do
  replica_bytes ← run_return replica_page_size (λ d. d.file_page_size)
  page_bytes ← gets (λ s. s.page_bytes)
  if replica_bytes == page_bytes
      then pure tt
      else write_error (page_size_mismatch page_bytes replica_bytes)

-- s.subdivideHashRange
unfoldable pub subdivide : ℕ → ℕ → Run (Unit {0})
subdivide fpg npg =
    run replace_send_hash
      (λ d. ok (record d { send_hash_table = subdivide_hash_range fpg npg d.send_hash_table }))

-- `VALUES(1) UNION ALL SELECT n+1 … WHERE n<nRPage`, with one page each.
unfoldable pub single_rows : ℕ → List Range
single_rows n_r_page = tail_rows 1 (if n_r_page == 0 then 1 else n_r_page)

abbrev pub first_row : List Range
first_row = record { first = 1; count = 1 } ∷ []

-- What is hashed first: single pages of a small file, else page 1 and ranges of the others.
unfoldable pub first_hashes : ℕ → Run (Unit {0})
first_hashes n_r_page = do
  protocol ← gets (λ s. s.protocol)
  if ltb protocol 2 || leb n_r_page 100
      then run fill_send_hash (into_send_hash (single_rows n_r_page))
      else (do run insert_first (into_send_hash first_row); subdivide 2 (n_r_page - 1))

unfoldable pub begin_sync : Run (Unit {0})
begin_sync = do
  before ← open_replica
  size_empty_file before
  begin_transaction
  note_journal_mode before
  n_r_page ← run_return replica_page_count (λ d. d.file_page_count)
  check_page_size
  first_hashes n_r_page
  send_hash_messages 1 1

unfoldable pub on_begin : Run (Unit {0})
on_begin = do
  close_db
  modify (λ s. record s { kept = record s.kept { has_insert = false } })
  proto ← reading read_byte
  page_bytes ← reading read_pow2
  pages ← reading read_uint32
  own ← gets (λ s. s.protocol)
  if ltb own proto then writing (write_offer own) else (do
    modify (λ s. record s { protocol = proto; pages = pages; page_bytes = page_bytes })
    begin_sync)
