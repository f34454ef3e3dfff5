-- ===== src/Sync/Options.antt =====
-- sqlitersync/sync.go: the state of a run made from the options, and its summary.
use go_sqlite_rsync.Common.{ℕ, Bool, false, not, List, [], ltb, ◌==◌, if◌then◌else◌, none}
use go_sqlite_rsync.Common.Int.{ℤ, pos, negsuc}
use go_sqlite_rsync.Wire.{protocol_version}
use go_sqlite_rsync.Wire.Reader.{Ending}
use go_sqlite_rsync.Wire.Writer.{Sink}
use go_sqlite_rsync.Sync.Run.{Rsync, Env, Database}

pub record Options : Type 0 where
  pub protocol : ℤ
  pub comm_check : Bool
  pub allow_non_wal : Bool

pub record Stats : Type 0 where
  pub bytes_sent : ℕ  -- uint64
  pub bytes_received : ℕ  -- uint64
  pub hash_messages : ℕ  -- uint64
  pub hash_rounds : ℕ  -- uint32
  pub page_updates : ℕ  -- uint32
  pub page_count : ℕ  -- uint32
  pub page_size : ℕ
  pub protocol : ℕ

unfoldable pub clamp_protocol : ℤ → ℕ
clamp_protocol (negsuc n) = protocol_version
clamp_protocol (pos n) =
    if n == 0 then protocol_version else if ltb protocol_version n then protocol_version else n

-- The stream is the bytes that will come in, how it ends, and what takes the bytes that go out; the
-- database is opened by the role.
unfoldable pub new_rsync : Env → Database → List ℕ → Ending → Sink → Options → Rsync
unfolding clamp_protocol
new_rsync env db input ending sink opts = record {
  env = env;
  db = db;
  reader = record { input = input; ending = ending; bytes_read = 0 };
  writer = record { sink = sink; delivered = []; buf = []; fault = none; bytes_written = 0 };
  protocol = clamp_protocol opts.protocol;
  page_bytes = 0;
  pages = 0;
  hash_messages = 0;
  hash_rounds = 0;
  page_updates = 0;
  wal_only = not opts.allow_non_wal;
  comm_check = opts.comm_check;
  is_replica = false;
  wrong_enc = false;
  db_open = false;
  kept = record { j_mode = 0; has_insert = false; closes_insert = false };
}

unfoldable pub stats : Rsync → Stats
stats s = record {
  bytes_sent = s.writer.bytes_written;
  bytes_received = s.reader.bytes_read;
  hash_messages = s.hash_messages;
  hash_rounds = s.hash_rounds;
  page_updates = s.page_updates;
  page_count = s.pages;
  page_size = s.page_bytes;
  protocol = s.protocol;
}
