-- ===== src/Sync/Tests.antt =====
-- The roles at concrete inputs, and their theorems there.
use go_sqlite_rsync.Common.{
  ℕ, ◌≤◌, ◌<◌, ◌≡◌, ◌≢◌, refl, Bool, true, false, none, some, List, [], ◌∷◌, ◌++◌, replicate, ◌==◌,
  if◌then◌else◌, All, arith,
}
use go_sqlite_rsync.Common.Act.{ok, err}
use go_sqlite_rsync.Common.Int.{pos}
use go_sqlite_rsync.Wire.Writer.{
  Sink, write, write_loop, flush, write_byte, write_bytes, write_uint32, write_pow2, write_message,
  exponent_loop,
}
use go_sqlite_rsync.Wire.Uint32.{bytes_of_uint32, uint32_of_bytes}
use go_sqlite_rsync.Wire.Reader.{
  closed, read_full, read_byte, read_uint32, read_bytes, read_message,
}
use go_sqlite_rsync.Hash.Sql.{hash_func, hash_bytes}
use go_sqlite_rsync.Hash.Sponge.{
  hash_init, rate_of, hash_update, update_byte, advance, xor_byte, pad, output, hash_final,
}
use go_sqlite_rsync.Hash.Keccak.{keccak_f1600_step, rol64}
use go_sqlite_rsync.Sync.Subdivide.Tiles.{
  Tiles, AtMost, rounds_left, chunks-Tiles, chunks-rounds_left,
}
use go_sqlite_rsync.Sync.Table.{
  Table, replace_row, insert_row, insert_rows, has_key, delete_key, multi, drop_multi,
}
use go_sqlite_rsync.Sync.Subdivide.{chunk_size, chunk_rows, chunks}
use go_sqlite_rsync.Sync.PageHash.{Pages, page_hash, same_bytes}
use go_sqlite_rsync.Sync.Run.{
  Rsync, Database, Env, reported, sql_failed, select_multi, no_such_table, out_of_fuel, reading,
  writing, call, change, or_report, or_driver, run, prepare, query, run_return, write_error,
}
use go_sqlite_rsync.Sync.Options.{Options, new_rsync}
use go_sqlite_rsync.Sync.Origin.{
  origin_side, origin_loop, message_loop, synchronize, open_origin, open_file, check_journal_mode,
  lock_byte_page, send_begin, write_begin, handle, next_message,
}
use go_sqlite_rsync.Sync.Origin.Fuel.{origin_side-returns}
use go_sqlite_rsync.Sync.Origin.Loop.{first_locals}
use go_sqlite_rsync.Sync.Origin.Ledger.{next_range, on_hash-Healthy, after_hash, note, expected}
use go_sqlite_rsync.Sync.Origin.Hash.{
  on_hash, prepare_checks, count_hash, check, prepare_check_n, is_match, note_mismatch, pass_range,
}
use go_sqlite_rsync.Sync.Origin.Ready.{
  on_ready, rows_of, send_details, write_detail, after_details, transfer, fill_tail, insert_from,
  tail_rows, page_rows, send_pages, write_page, write_txn, ask_for_detail,
}

-- A database of two small pages.
abbrev pub two_pages : Pages
two_pages n = if n == 1 then some (1 ∷ 2 ∷ 3 ∷ []) else if n == 2 then some (4 ∷ []) else none

abbrev pub small_database : Database
small_database = record {
  calls = 0;
  page = two_pages;
  file_page_count = 2;
  file_page_size = 512;
  is_wal = true;
  bad_hash = none;
  send_hash_table = [];
  in_transaction = false;
  changed = false;
  header_byte = λ page i. 7;
  saved = record { page = two_pages; page_count = 2; page_size = 512 };
}

abbrev pub healthy : Env
healthy = record {
  fails = λ n. none;
  render = λ r. [];
  announcement = λ n. [];
  is_encoding_error = λ t. false;
  reads_wal = λ p. true;
  new_page_size = λ n. n;
  first_page = λ n. replicate n 0;
}

abbrev open_sink : Sink
open_sink sent chunk = none

abbrev default_options : Options
default_options = record { protocol = pos 0; comm_check = false; allow_non_wal = false }

abbrev pub fresh : List ℕ → Rsync
fresh input = new_rsync healthy small_database input closed open_sink default_options

-- REPLICA_HASH with a hash that page 1 does not have, then REPLICA_READY: both pages are sent.
wrong_hash_run :
    (origin_side (fresh (0x64 ∷ (replicate 20 0 ++ 0x65 ∷ [])))).1.writer.delivered
    ≡ 0x41 ∷ 2 ∷ 9 ∷ 0 ∷ 0 ∷ 0 ∷ 2 ∷ 0x44 ∷ 0 ∷ 0 ∷ 0 ∷ 1 ∷ 1 ∷ 2 ∷ 3 ∷ 0x44 ∷ 0 ∷ 0 ∷ 0 ∷ 2 ∷ 4
      ∷ 0x45 ∷ 0 ∷ 0 ∷ 0 ∷ 2 ∷ 0x42 ∷ []
unfolding origin_side origin_loop message_loop synchronize open_origin open_file check_journal_mode
    lock_byte_page send_begin write_begin handle next_message on_hash prepare_checks count_hash
    check prepare_check_n is_match note_mismatch pass_range on_ready rows_of send_details
    write_detail after_details transfer fill_tail insert_from tail_rows page_rows send_pages
    write_page write_txn ask_for_detail new_rsync reading writing call change or_report or_driver
    run prepare query run_return replace_row insert_row insert_rows has_key delete_key multi
    drop_multi page_hash same_bytes read_full read_byte read_uint32 read_bytes read_message write
    write_loop flush write_byte write_bytes write_uint32 write_pow2 exponent_loop bytes_of_uint32
    uint32_of_bytes hash_func hash_bytes hash_init rate_of hash_update update_byte advance xor_byte
    pad output hash_final keccak_f1600_step rol64
wrong_hash_run = refl

-- A replica that asks for pages before any hash: badHash does not exist, and the origin says so.
early_ready_run :
    (origin_side (fresh (0x65 ∷ []))).0
    ≡ err (reported (sql_failed select_multi no_such_table) none)
unfolding origin_side origin_loop message_loop synchronize open_origin open_file check_journal_mode
    lock_byte_page send_begin write_begin handle next_message on_ready rows_of new_rsync reading
    writing call or_report or_driver run change prepare query run_return write_error read_full
    read_byte write write_loop flush write_byte write_bytes write_uint32 write_pow2 write_message
    exponent_loop bytes_of_uint32
early_ready_run = refl

origin_side-returns_example : (origin_side (fresh (0x64 ∷ 1 ∷ []))).0 ≢ err out_of_fuel
origin_side-returns_example = origin_side-returns (fresh (0x64 ∷ 1 ∷ []))

chunks-Tiles_example : Tiles 2 (chunks 2 99) 101 × All (AtMost (chunk_size 99)) (chunks 2 99)
chunks-Tiles_example = chunks-Tiles 2 99 (omega arith)

chunks_2_99 :
    chunks 2 99
    ≡ record { first = 2; count = 30 }
      ∷ record { first = 32; count = 30 }
      ∷ record { first = 62; count = 30 }
      ∷ record { first = 92; count = 9 }
      ∷ []
unfolding chunks chunk_size chunk_rows
chunks_2_99 = refl

chunks-rounds_left_example :
    All (λ r. rounds_left r.count < rounds_left 5000) (chunks 2 5000) × (rounds_left 5000 ≤ 3)
chunks-rounds_left_example = chunks-rounds_left 2 5000 (omega arith)

abbrev first_page_row : Table
first_page_row = record { first = 1; count = 1 } ∷ []

on_hash-healthy_example :
    let s = fresh (replicate 20 0) in
    (c : ℕ) × (b : Bool) × (on_hash (first_locals 1) s ≡ (
      ok (next_range b (first_locals 1)),
      after_hash c
          (note (is_match two_pages 1 1 (replicate 20 0)) (expected (first_locals 1)) [])
          []
          s,
    ))
unfolding new_rsync has_key
on_hash-healthy_example =
    on_hash-Healthy (first_locals 1) (fresh (replicate 20 0)) [] (replicate 20 0) [] (λ k. refl)
      (refl, refl) refl refl refl
