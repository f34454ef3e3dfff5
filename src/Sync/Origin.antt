-- ===== src/Sync/Origin.antt =====
-- sqlitersync/origin.go, originSide.
pub mod Loop
pub mod Hash
pub mod Ready
pub mod Progress
pub mod Fuel
pub mod Ledger
pub mod Early
pub mod Passes
pub mod Frames
pub mod Transfer
pub mod Complete
use go_sqlite_rsync.Common.{
  ℕ, zero, suc, ◌+◌, ◌-◌, ◌/◌, ◌^◌, Bool, true, false, not, ◌&&◌, Option, none, some, List, [],
  length, ltb, leb, ◌==◌, if◌then◌else◌,
}
use go_sqlite_rsync.Common.Act.{Act, Result, ok, err, pure, raise, ◌>>=◌, ◌>>◌, modify, gets}
use go_sqlite_rsync.Common.Int.{pos}
use go_sqlite_rsync.Common.Words.{u8}
use go_sqlite_rsync.Wire.{
  WireError, eof, protocol_version, origin_begin, origin_end, origin_msg, replica_begin,
  replica_error, replica_end, replica_hash, replica_ready, replica_msg, replica_config,
}
use go_sqlite_rsync.Wire.Reader.{read_byte, read_uint32, read_message}
use go_sqlite_rsync.Wire.Writer.{Write, write_byte, write_uint32, write_pow2, write_message, flush}
use go_sqlite_rsync.Sync.Run.{
  Rsync, Run, Database, RunError, wire, from_peer, divide_by_zero, out_of_fuel, Report, cannot_open,
  not_in_wal_mode, invalid_begin_reply, unknown_message, Statement, begin, journal_mode, page_count,
  page_size, reading, writing, write_error, call, or_report, or_driver, run, query, run_return,
}
use go_sqlite_rsync.Sync.Origin.Loop.{Locals, first_locals}
use go_sqlite_rsync.Sync.Origin.Hash.{on_config, on_hash}
use go_sqlite_rsync.Sync.Origin.Ready.{on_ready}

-- ORIGIN_BEGIN, sent at the start and again after a downgrade.
unfoldable pub write_begin : Rsync → Write
write_begin s = do
  write_byte origin_begin
  write_byte (u8 s.protocol)
  write_pow2 (pos s.page_bytes)
  write_uint32 s.pages
  flush

unfoldable pub send_begin : Run (Unit {0})
send_begin s = writing (write_begin s) s

unfoldable pub on_replica_begin : Locals → Run Locals
on_replica_begin v = do
  new_protocol ← reading read_byte
  protocol ← gets (λ s. s.protocol)
  if ltb new_protocol protocol
      then (do modify (λ s. record s { protocol = new_protocol }); send_begin; pure v)
      else write_error invalid_begin_reply

-- How a pass of the loop ends: the run returns nil, or the loop goes on.
pub data Next : Type 0 where
  done : Next
  again : Locals → Next

abbrev pub going_on : Run Locals → Run Next
going_on m = do v ← m; pure (again v)

-- REPLICA_MSG: the text is dropped.
unfoldable pub on_message : Locals → Run Locals
on_message v = do text ← reading read_message; pure v

unfoldable pub on_error : Run Locals
on_error = do text ← reading read_message; raise (from_peer text)

unfoldable pub handle : ℕ → Locals → Run Next
handle c v =
    if c == replica_msg
    then going_on (on_message v)
    else if c == replica_error
    then going_on on_error
    else if c == replica_end
    then pure done
    else if c == replica_begin
    then going_on (on_replica_begin v)
    else if c == replica_config
    then going_on (on_config v)
    else if c == replica_hash
    then going_on (on_hash v)
    else if c == replica_ready
    then going_on (on_ready v)
    else write_error (unknown_message c)

-- The next message byte; the end of the stream is `none`.
abbrev pub or_end : Result WireError ℕ → Result RunError (Option ℕ)
or_end (ok c) = ok (some c)
or_end (err eof) = ok none
or_end (err e) = err (wire e)

unfoldable pub next_message : Run (Option ℕ)
next_message s = let (r, rd) = read_byte s.reader in (or_end r, record s { reader = rd })

unfoldable pub origin_loop : ℕ → Locals → Run (Unit {0})
origin_loop zero v = raise out_of_fuel
origin_loop (suc f) v = do
  c ← next_message
  elim c [
    | none ↦ pure tt
    | some c ↦ (do next ← handle c v; elim next [ done ↦ pure tt | again v ↦ origin_loop f v ])
  ]

unfoldable pub comm_check : Run (Unit {0})
comm_check s =
    writing
      (do write_message origin_msg (s.env.announcement s.protocol); write_byte origin_end; flush) s

-- os.Stat and sql.Open.
unfoldable pub open_file : Run (Unit {0})
open_file = do or_report call cannot_open; or_report call cannot_open

unfoldable pub check_journal_mode : Run (Unit {0})
check_journal_mode = do
  wal_only ← gets (λ s. s.wal_only)
  if wal_only
      then (do
        is_wal ← run_return journal_mode (λ d. d.is_wal)
        if is_wal then pure tt else write_error not_in_wal_mode)
      else pure tt

-- `(1<<30)/s.pageSize + 1`
unfoldable pub lock_byte_page : ℕ → Run ℕ
lock_byte_page page_bytes =
    if page_bytes == 0 then raise divide_by_zero else pure (2 ^ 30 / page_bytes + 1)

unfoldable pub open_origin : Run (Unit {0})
open_origin = do
  modify (λ s. record s { protocol = if s.protocol == 0 then protocol_version else s.protocol })
  open_file
  run begin ok
  check_journal_mode
  pages ← run_return page_count (λ d. d.file_page_count)
  page_bytes ← run_return page_size (λ d. d.file_page_size)
  modify (λ s. record s { pages = pages; page_bytes = page_bytes })
  send_begin

-- Each pass takes a byte from the input, so its length is fuel enough.
unfoldable pub message_loop : Locals → Run (Unit {0})
message_loop v s = origin_loop (length s.reader.input + 1) v s

unfoldable pub synchronize : Run (Unit {0})
synchronize = do
  open_origin
  page_bytes ← gets (λ s. s.page_bytes)
  lock ← lock_byte_page page_bytes
  message_loop (first_locals lock)

-- hash.Register is the first call.
unfoldable pub origin_side : Run (Unit {0})
origin_side = do
  or_driver call
  modify (λ s. record s { is_replica = false })
  only_check ← gets (λ s. s.comm_check)
  if only_check then comm_check else synchronize
