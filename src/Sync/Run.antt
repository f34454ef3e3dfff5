-- ===== src/Sync/Run.antt =====
-- sqlitersync/sql.go: the state of a run and the helpers that both roles share.
--
-- SQLite and its driver are third parties. `Env` says what they answer: whether the n-th call of
-- the database fails, and the text of what fmt prints. What a statement does to the tables of the
-- run, when it succeeds, is written at the call.
pub mod Reads
pub mod Progress
pub mod Healthy
pub mod Emits
pub mod Keeps
use go_sqlite_rsync.Common.{
  ℕ, suc, ◌+◌, ◌^◌, Bool, true, false, Option, none, some, List, [], ◌∷◌, ◌==◌, if◌then◌else◌,
}
use go_sqlite_rsync.Common.Act.{Act, Result, ok, err, pure, raise, ◌>>=◌, ◌>>◌, bind, modify, gets}
use go_sqlite_rsync.Common.Int.{ℤ, pos, negsuc}
use go_sqlite_rsync.Common.Words.{u8, u32, u64}
use go_sqlite_rsync.Wire.{WireError, origin_error, replica_error}
use go_sqlite_rsync.Wire.Reader.{Reader, Read}
use go_sqlite_rsync.Sync.Table.{Table}
use go_sqlite_rsync.Sync.PageHash.{Pages}
use go_sqlite_rsync.Wire.Writer.{Writer, Write, write_message}

-- Why a call of the database fails: the engine's own reasons, a key that is there already, a table
-- that was not created, a COMMIT without a transaction, a page that sqlite_dbpage refuses, or a number that does not fit the
-- variable it is read into.
pub data DbError : Type 0 where
  engine : List ℕ → DbError
  constraint : DbError
  no_such_table : DbError
  no_transaction : DbError
  bad_page : DbError
  out_of_range : DbError

pub data Statement : Type 0 where
  begin journal_mode page_count page_size : Statement
  create_bad_hash check_hash check_hash_n insert_bad_hash select_multi delete_multi : Statement
  insert_tail delete_lock_page select_pages : Statement
  send_hash delete_send_hash replace_send_hash : Statement
  writable_schema attach encoding_utf16le encoding_utf16be create_send_hash : Statement
  replica_page_count set_page_size read_schema begin_immediate replica_journal_mode : Statement
  replica_page_size fill_send_hash insert_first commit insert_page : Statement

-- What a database file holds.
pub record Snapshot : Type 0 where
  pub page : Pages
  pub page_count : ℕ
  pub page_size : ℕ

-- The open database: its file as the connection sees it, which no one else changes during the
-- transaction of the run, the tables of the run, and the file as it stands on disk.
pub record Database : Type 0 where
  pub calls : ℕ  -- calls of the database so far
  pub page : Pages
  pub file_page_count : ℕ
  pub file_page_size : ℕ
  pub is_wal : Bool
  pub bad_hash : Option Table  -- the origin's, once created
  pub send_hash_table : Table  -- the replica's
  pub in_transaction : Bool
  pub changed : Bool  -- the transaction has written a page
  pub header_byte : List ℕ → ℕ → ℕ  -- what a commit makes of a header byte of page 1, by its place
  pub saved : Snapshot

-- The messages that WriteError sends, one for each format.
pub data Report : Type 0 where
  sql_failed prepare_failed : Statement → DbError → Report
  cannot_open : DbError → Report
  not_in_wal_mode invalid_begin_reply : Report
  unknown_message : ℕ → Report
  cannot_open_memory : DbError → Report
  unsupported_encoding replica_not_in_wal_mode : Report
  page_size_mismatch : ℕ → ℕ → Report
  insert_failed : ℕ → DbError → Report
  truncate_failed : ℕ → DbError → Report

-- The error of a run; a panic is one that ends it. `out_of_fuel` is no error of the program: it marks a model loop cut short.
pub data RunError : Type 0 where
  wire : WireError → RunError
  reported : Report → Option WireError → RunError
  wire_both : WireError → WireError → RunError
  from_peer : List ℕ → RunError
  driver : DbError → RunError
  divide_by_zero nil_pointer index_out_of_range : RunError
  and_close : RunError → DbError → RunError  -- errors.Join with the error of a deferred Close
  out_of_fuel : RunError

pub record Env : Type 0 where
  pub fails : ℕ → Option (List ℕ)
  pub render : Report → List ℕ
  pub announcement : ℕ → List ℕ  -- the commcheck message, by protocol version
  pub is_encoding_error : List ℕ → Bool  -- the text says that the encodings differ
  pub reads_wal : Pages → Bool  -- what PRAGMA journal_mode answers for an attached file
  pub new_page_size : ℕ → ℕ  -- the page size of an empty file after PRAGMA page_size
  pub first_page : ℕ → List ℕ  -- what a transaction makes page 1 of an empty file, by page size

-- The variables of replicaSide that outlive a message, and whether a deferred call is to close the
-- statement: those calls run after an error too.
pub record Kept : Type 0 where
  pub j_mode : ℕ  -- 1 for rollback mode, 2 for WAL, 0 before ORIGIN_BEGIN
  pub has_insert : Bool  -- pIns is prepared
  pub closes_insert : Bool

-- The fields of `rsync` that the modelled operations use.
pub record Rsync : Type 0 where
  pub env : Env
  pub db : Database
  pub reader : Reader
  pub writer : Writer
  pub protocol : ℕ
  pub page_bytes : ℕ  -- the source's field `pageSize`
  pub pages : ℕ  -- the source's field `pageCount`, a uint32
  pub hash_messages : ℕ  -- uint64
  pub hash_rounds : ℕ  -- uint32
  pub page_updates : ℕ  -- uint32
  pub wal_only : Bool
  pub comm_check : Bool
  pub is_replica : Bool
  pub wrong_enc : Bool
  pub db_open : Bool  -- the source's field `db` is not nil; the origin opens it before any use
  pub kept : Kept

abbrev pub Run : Type 0 → Type 0
Run A = Act Rsync RunError A

abbrev pub wire_result : {A : Type 0} → Result WireError A → Result RunError A
wire_result (ok a) = ok a
wire_result (err e) = err (wire e)

unfoldable pub reading : {A : Type 0} → Read A → Run A
reading m s = let (r, rd) = m s.reader in (wire_result r, record s { reader = rd })

unfoldable pub writing : Write → Run (Unit {0})
writing m s = let (r, w) = m s.writer in (wire_result r, record s { writer = w })

unfoldable pub err_msg_byte : Bool → ℕ
err_msg_byte is_replica = if is_replica then replica_error else origin_error

abbrev pub send_error : {E A : Type 0} → Result E A → Option E
send_error (ok _) = none
send_error (err e) = some e

-- `err = wire.Write…; if err != nil { return err }` is `writing`; `errors.Join` of two such calls is
-- this.
abbrev pub joined :
    Result WireError (Unit {0}) → Result WireError (Unit {0}) → Result RunError (Unit {0})
joined (ok _) (ok _) = ok tt
joined (err e) (ok _) = err (wire e)
joined (ok _) (err e) = err (wire e)
joined (err e) (err e') = err (wire_both e e')

-- wire.WriteError, with the byte of this run's role: the message goes out if it can, and comes back
-- as the error, joined with the error of sending it.
unfoldable pub write_error : {A : Type 0} → Report → Run A
unfolding err_msg_byte
write_error report s =
    let (r, w) = write_message (err_msg_byte s.is_replica) (s.env.render report) s.writer in
    (err (reported report (send_error r)), record s { writer = w })

-- One call of the database, which may fail.
unfoldable pub call : Act Rsync DbError (Unit {0})
call s =
    let s' = record s { db = record s.db { calls = suc s.db.calls } } in
    elim (s.env.fails s.db.calls) [ none ↦ (ok tt, s') | some text ↦ (err (engine text), s') ]

-- `if err != nil { return … WriteError(…) }` after a call.
unfoldable pub or_report : {A : Type 0} → Act Rsync DbError A → (DbError → Report) → Run A
or_report m report s =
    let (r, s') = m s in elim r [ ok a ↦ (ok a, s') | err e ↦ write_error (report e) s' ]

unfoldable pub or_driver : {A : Type 0} → Act Rsync DbError A → Run A
or_driver m s = let (r, s') = m s in elim r [ ok a ↦ (ok a, s') | err e ↦ (err (driver e), s') ]

-- What a statement does when the engine runs it: `f` says what becomes of the database, or why it
-- cannot.
abbrev pub effect : Result DbError Database → Rsync → Result DbError (Unit {0}) × Rsync
effect (ok d) s = (ok tt, record s { db = d })
effect (err e) s = (err e, s)

unfoldable pub change : (Database → Result DbError Database) → Act Rsync DbError (Unit {0})
unfolding call
change f = do call; λ s. effect (f s.db) s

-- s.run(sql); `f` is the effect of the statement. ATTACH, for which the source has a case of its own,
-- is not among the statements.
unfoldable pub run : Statement → (Database → Result DbError Database) → Run (Unit {0})
unfolding change or_report
run q f = or_report (change f) (sql_failed q)

-- s.prepare(sql), and the other calls that change nothing.
unfoldable pub prepare : Statement → Run (Unit {0})
unfolding call or_report
prepare q = or_report call (prepare_failed q)

unfoldable pub query : Statement → Run (Unit {0})
unfolding call or_report
query q = or_report call (sql_failed q)

-- s.runReturnUInt and s.runReturnText: `answer` is what the database holds.
unfoldable pub run_return : {A : Type 0} → Statement → (Database → A) → Run A
unfolding query
run_return q answer = do query q; gets (λ s. answer s.db)

-- INSERT, DELETE on badHash: `f` is the new table, or a key is there already.
abbrev pub stored : Database → Option Table → Result DbError Database
stored d none = err constraint
stored d (some t) = ok (record d { bad_hash = some t })

abbrev pub with_table : (Table → Option Table) → Database → Option Table → Result DbError Database
with_table f d none = err no_such_table
with_table f d (some t) = stored d (f t)

abbrev pub in_bad_hash : (Table → Option Table) → Database → Result DbError Database
in_bad_hash f d = with_table f d d.bad_hash
