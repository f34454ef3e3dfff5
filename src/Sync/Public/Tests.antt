-- ===== src/Sync/Public/Tests.antt =====
-- sqlitersync/sync.go and the protocol version, at concrete inputs.
use go_sqlite_rsync.Common.{◌^◌, ◌≤◌, ◌≡◌, refl, false, none, some, [], ◌∷◌, ◌++◌, arith}
use go_sqlite_rsync.Common.Act.{pure, ◌>>◌}
use go_sqlite_rsync.Common.Int.{pos}
use go_sqlite_rsync.Wire.{origin_begin, replica_begin}
use go_sqlite_rsync.Wire.Reader.{Reader, closed}
use go_sqlite_rsync.Wire.Writer.Sends.{Sends}
use go_sqlite_rsync.Sync.Run.{Rsync, writing}
use go_sqlite_rsync.Sync.Options.{Options, new_rsync}
use go_sqlite_rsync.Sync.Origin.Loop.{first_locals}
use go_sqlite_rsync.Sync.Origin.{write_begin, send_begin, on_replica_begin}
use go_sqlite_rsync.Sync.Replica.Begin.{write_offer, begin_sync, on_begin}
use go_sqlite_rsync.Sync.Negotiation.{begin_fields, heard, lowered, versions_meet}
use go_sqlite_rsync.Sync.Tests.{fresh, healthy, small_database}
use go_sqlite_rsync.Sync.Public.{Context, Stream, origin, replica}
use go_sqlite_rsync.Sync.Public.Received.{bytes_received_bound}

-- A context that is cancelled after three bytes.
abbrev after_three : Context
after_three = record { at_read = some (3, 1); at_write = λ sent. none }

abbrev begin_stream : Stream
begin_stream = record {
  input = 0x41 ∷ 2 ∷ 9 ∷ 0 ∷ 0 ∷ 0 ∷ 2 ∷ [];
  ending = closed;
  sink = λ sent chunk. none;
}

abbrev defaults : Options
defaults = record { protocol = pos 0; comm_check = false; allow_non_wal = false }

bytes_received_bound_example :
    ((origin healthy small_database after_three begin_stream defaults).0.bytes_received ≤ 3)
    × ((replica healthy small_database after_three begin_stream defaults).0.bytes_received ≤ 3)
bytes_received_bound_example =
    bytes_received_bound healthy small_database after_three begin_stream defaults

-- An origin of version 2 and a replica of version 1, with two pages of 512 bytes.
abbrev newer_origin : Rsync
newer_origin = record (fresh (1 ∷ [])) { protocol = 2; pages = 2; page_bytes = 512 }

abbrev older_replica : Rsync
older_replica = record (fresh (begin_fields 2 9 2 ++ [])) { protocol = 1 }

abbrev second_begin : Reader
second_begin = record { input = begin_fields 1 9 2 ++ []; ending = closed; bytes_read = 7 }

versions_meet_example :
    let waiting = heard older_replica 9 2 [] in
    let next = lowered newer_origin 1 [] in
    let replica' = record waiting { reader = second_begin; writer = waiting.writer } in
    Sends (write_begin newer_origin) (origin_begin ∷ begin_fields 2 9 2)
    × (on_begin older_replica ≡ writing (write_offer 1) waiting)
    × Sends (write_offer 1) (replica_begin ∷ (1 ∷ []))
    × (on_replica_begin (first_locals 1) newer_origin ≡ (send_begin >> pure (first_locals 1)) next)
    × Sends (write_begin next) (origin_begin ∷ begin_fields 1 9 2)
    × (on_begin replica'
        ≡ begin_sync
            (record (heard replica' 9 2 []) { protocol = 1; pages = 2; page_bytes = 2 ^ 9 }))
unfolding new_rsync
versions_meet_example =
    versions_meet newer_origin older_replica (first_locals 1) 9 [] [] [] second_begin
      (heard older_replica 9 2 []).writer (omega arith) refl (omega arith) (omega arith)
      (omega arith) refl refl refl refl
