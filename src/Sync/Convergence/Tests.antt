-- ===== src/Sync/Convergence/Tests.antt =====
-- A whole run of one round at concrete inputs.
use go_sqlite_rsync.Common.{
  ℕ, zero, suc, ◌+◌, ◌≡◌, ◌≢◌, refl, sym, ap, ◌∙◌, false, none, some, inl, inr, Option, List, [],
  ◌∷◌, ◌++◌, length, arith,
}
use go_sqlite_rsync.Hash.Sql.{hash_func, hash_bytes}
use go_sqlite_rsync.Hash.Sponge.{
  hash_init, rate_of, hash_update, update_byte, advance, xor_byte, pad, output, hash_final,
}
use go_sqlite_rsync.Hash.Keccak.{keccak_f1600_step, rol64}
use go_sqlite_rsync.Wire.{replica_ready}
use go_sqlite_rsync.Sync.Run.{Rsync}
use go_sqlite_rsync.Sync.Table.{delete_key}
use go_sqlite_rsync.Sync.PageHash.{page_hash, same_bytes}
use go_sqlite_rsync.Sync.Messages.{entry_hash}
use go_sqlite_rsync.Sync.Options.{new_rsync, clamp_protocol}
use go_sqlite_rsync.Sync.Tests.{fresh, small_database, healthy}
use go_sqlite_rsync.Sync.Origin.{synchronize}
use go_sqlite_rsync.Sync.Origin.Hash.{is_match}
use go_sqlite_rsync.Sync.Origin.Ready.{page_rows, tail_rows}
use go_sqlite_rsync.Sync.Exchange.{Entry, messages}
use go_sqlite_rsync.Sync.Exchange.Send.{Hashed}
use go_sqlite_rsync.Sync.Exchange.Finish.{Delivered}
use go_sqlite_rsync.Sync.Replica.{replica_loop}
use go_sqlite_rsync.Sync.Replica.Tests.{new_pages, old_pages, new_pages-IsFile}
use go_sqlite_rsync.Sync.Convergence.Loop.{Sent}
use go_sqlite_rsync.Sync.Convergence.Singles.{NoCollision}
use go_sqlite_rsync.Sync.Convergence.Sends.{final_rows, sync_bytes}
use go_sqlite_rsync.Sync.Convergence.Synchronize.{lock_of, run_bytes}
use go_sqlite_rsync.Sync.Convergence.Sync.{byte_read, Ends, sync-Converged}
use go_sqlite_rsync.Sync.Replica.Begin.{on_begin}
use go_sqlite_rsync.Sync.Negotiation.{begin_fields}

abbrev bytes_or_nothing : Option (List ℕ) → List ℕ
bytes_or_nothing none = []
bytes_or_nothing (some h) = h

-- The replica has page 1, which differs.
abbrev old_entries : List Entry
old_entries = (record { first = 1; count = 1 }, bytes_or_nothing (page_hash old_pages 1)) ∷ []

old_Hashed : Hashed old_pages (tail_rows 1 1) old_entries
unfolding tail_rows entry_hash page_hash hash_func hash_bytes hash_init rate_of hash_update
    update_byte advance xor_byte pad output hash_final keccak_f1600_step rol64
old_Hashed = (refl, refl, tt)

abbrev first_byte : Option (List ℕ) → ℕ
first_byte (some (b ∷ _)) = b
first_byte _ = 0

first_bytes_differ : first_byte (page_hash new_pages 1) ≢ first_byte (page_hash old_pages 1)
unfolding page_hash hash_func hash_bytes hash_init rate_of hash_update update_byte advance xor_byte
    pad output hash_final keccak_f1600_step rol64
first_bytes_differ h = omega (arith, h)

no_collision : NoCollision new_pages old_pages
unfolding page_hash
no_collision zero h e e' = refl
no_collision (suc zero) h e e' = absurd (first_bytes_differ (ap first_byte (e ∙ sym e')))
no_collision (suc (suc k)) h e e' = absurd (ground (arith, e'))

old_rows_sent :
    page_rows new_pages (final_rows new_pages 2 (lock_of 2) 1 old_entries)
    ≡ (1, 1 ∷ 2 ∷ 3 ∷ 4 ∷ []) ∷ (2, 5 ∷ 6 ∷ 7 ∷ 8 ∷ []) ∷ []
unfolding page_rows tail_rows delete_key is_match same_bytes page_hash hash_func hash_bytes
    hash_init rate_of hash_update update_byte advance xor_byte pad output hash_final
    keccak_f1600_step rol64
old_rows_sent = refl

-- The origin, with two pages of 4 bytes.
abbrev sending : List ℕ → Rsync
sending input =
    let s = fresh input in
    record s { db = record small_database { page = new_pages; file_page_size = 4 } }

-- The replica with one page, not in WAL mode.
abbrev listening : List ℕ → Rsync
listening input =
    let s = fresh input in
    record s {
      env = record healthy { reads_wal = λ p. false };
      wal_only = false;
      db = record small_database {
        saved = record { page = old_pages; page_count = 1; page_size = 4 };
      };
    }

abbrev origin_at_start : Rsync
origin_at_start = sending (messages 1 1 old_entries ++ (replica_ready ∷ []))

abbrev replica_at_start : Rsync
replica_at_start = listening (run_bytes 2 new_pages 2 2 1 old_entries)

sync-Converged_example :
    let rest = sync_bytes new_pages 2 (lock_of 2) 1 old_entries in
    let s1 = byte_read (begin_fields 2 2 2 ++ rest) replica_at_start in
    Sent origin_at_start.writer
      (run_bytes 2 new_pages 2 2 1 old_entries)
      (synchronize origin_at_start)
    × Delivered replica_at_start.writer
        (messages 1 1 old_entries ++ (replica_ready ∷ []))
        (on_begin s1)
    × Ends new_pages 2
        (lock_of 2)
        (on_begin s1).0
        (replica_loop (length replica_at_start.reader.input + 1) replica_at_start)
unfolding new_rsync clamp_protocol
sync-Converged_example =
    sync-Converged new_pages 2 2 old_entries (1, 1 ∷ 2 ∷ 3 ∷ 4 ∷ []) ((2, 5 ∷ 6 ∷ 7 ∷ 8 ∷ []) ∷ [])
      origin_at_start replica_at_start new_pages-IsFile (omega arith) (omega arith) (omega arith)
      (λ e. omega (arith, e)) no_collision old_Hashed old_rows_sent
      (record {
        healthy = λ k. refl;
        known = omega arith;
        byte = omega arith;
        mode = inr refl;
        page = refl;
        count = refl;
        size = refl;
        exponent = omega arith;
        no_table = refl;
        input = refl;
        ready = refl;
        fits = omega arith;
      })
      refl
      (record {
        healthy = λ k. refl;
        closed = refl;
        known = omega arith;
        exponent = omega arith;
        pages = omega arith;
        clear = refl;
        some_page = omega arith;
        size = refl;
        mode = inl refl;
        single = refl;
        input = refl;
        ready = refl;
        fits = omega arith;
      })
