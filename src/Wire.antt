-- ===== src/Wire.antt =====
-- wire/wire.go: the bytes of the sqlite3_rsync protocol. The message bytes and the errors are
-- here; the children are about the two framing streams.
pub mod Uint32
pub mod Reader
pub mod Writer
pub mod RoundTrip
pub mod PageSize
pub mod Tests
use go_sqlite_rsync.Common.{ℕ, ◌^◌}

abbrev pub protocol_version : ℕ
protocol_version = 2

abbrev pub origin_begin : ℕ
origin_begin = 0x41

abbrev pub origin_end : ℕ
origin_end = 0x42

abbrev pub origin_error : ℕ
origin_error = 0x43

abbrev pub origin_page : ℕ
origin_page = 0x44

abbrev pub origin_txn : ℕ
origin_txn = 0x45

abbrev pub origin_msg : ℕ
origin_msg = 0x46

abbrev pub origin_detail : ℕ
origin_detail = 0x47

abbrev pub origin_ready : ℕ
origin_ready = 0x48

abbrev pub replica_begin : ℕ
replica_begin = 0x61

abbrev pub replica_error : ℕ
replica_error = 0x62

abbrev pub replica_end : ℕ
replica_end = 0x63

abbrev pub replica_hash : ℕ
replica_hash = 0x64

abbrev pub replica_ready : ℕ
replica_ready = 0x65

abbrev pub replica_msg : ℕ
replica_msg = 0x66

abbrev pub replica_config : ℕ
replica_config = 0x67

-- `maxMessageLen`, 1 << 20.
abbrev pub max_message_len : ℕ
max_message_len = 2 ^ 20

-- What can go wrong on the wire. `broken e` is an error of the stream below, such as a cancelled
-- context; `e` tells them apart.
pub data WireError : Type 0 where
  eof : WireError
  unexpected_eof : WireError
  broken : ℕ → WireError
  bad_exponent : ℕ → WireError
  negative_count : WireError
  message_too_long : ℕ → WireError
  bad_page_size : WireError
