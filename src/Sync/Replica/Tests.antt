-- ===== src/Sync/Replica/Tests.antt =====
-- sqlitersync/replica.go at concrete inputs, and its theorems there.
use go_sqlite_rsync.Common.{
  ℕ, zero, suc, ◌+◌, ◌≤◌, ◌<◌, ◌≡◌, ◌≢◌, ◌⊎◌, refl, true, false, none, some, List, [], ◌∷◌, ◌++◌,
  length, All, arith,
}
use go_sqlite_rsync.Common.Act.{ok}
use go_sqlite_rsync.Wire.Reader.{read_full, read_byte, read_uint32, read_bytes}
use go_sqlite_rsync.Wire.Uint32.{bytes_of_uint32, uint32_of_bytes}
use go_sqlite_rsync.Sync.Table.{Table, has_key, delete_key}
use go_sqlite_rsync.Sync.PageHash.{Pages}
use go_sqlite_rsync.Sync.Run.{
  Rsync, out_of_fuel, nil_pointer, reading, call, change, or_report, or_driver, run, prepare,
}
use go_sqlite_rsync.Sync.Options.{new_rsync}
use go_sqlite_rsync.Sync.Origin.{next_message}
use go_sqlite_rsync.Sync.Origin.Loop.{Locals, first_locals}
use go_sqlite_rsync.Sync.Origin.Ready.{page_rows, tail_rows}
use go_sqlite_rsync.Sync.Origin.Frames.{page_frames, txn_frame}
use go_sqlite_rsync.Sync.Origin.Transfer.{resend}
use go_sqlite_rsync.Sync.Tests.{fresh, small_database}
use go_sqlite_rsync.Sync.Replica.Page.{
  keep_wal, prepare_insert, insert_received, on_page, cut_file, on_txn,
}
use go_sqlite_rsync.Sync.Replica.File.{
  settled, committed, stamp_pages, new_header_page, new_header, is_header_place, put_page,
  cut_pages, store_page, truncate, commit_file,
}
use go_sqlite_rsync.Sync.Replica.{
  respond, replica_loop, answer_messages, close_insert, run_deferred, start_replica, replica_side,
  on_origin_ready,
}
use go_sqlite_rsync.Sync.Replica.Begin.{close_db}
use go_sqlite_rsync.Sync.Replica.Fuel.{replica_side-returns}
use go_sqlite_rsync.Sync.Replica.Atomic.Side.{CommitsAsFound, replica_side-OnlyCommits}
use go_sqlite_rsync.Sync.Replica.Receive.{Takes}
use go_sqlite_rsync.Sync.Replica.Finish.{with_pages, with_count, Sendable}
use go_sqlite_rsync.Sync.Replica.Commit.{Synced, replica_loop-pages}
use go_sqlite_rsync.Sync.Convergence.{IsFile}
use go_sqlite_rsync.Sync.Convergence.Transfer.{Checked, Converged, replica_loop-Converged}

replica_side-returns_example :
    All (λ e. e ≢ out_of_fuel) (replica_side (fresh (0x41 ∷ 2 ∷ 9 ∷ 0 ∷ []))).0
replica_side-returns_example = replica_side-returns (fresh (0x41 ∷ 2 ∷ 9 ∷ 0 ∷ []))

-- ORIGIN_READY before ORIGIN_BEGIN: there is no database to ask.
ready_first : (replica_side (fresh (0x48 ∷ []))).0 ≡ nil_pointer ∷ []
unfolding replica_side start_replica answer_messages replica_loop respond on_origin_ready
    run_deferred close_insert close_db next_message new_rsync call or_driver read_byte read_full
ready_first = refl

replica_side-OnlyCommits_example :
    let s = fresh (0x41 ∷ 2 ∷ 9 ∷ 0 ∷ 0 ∷ 0 ∷ 2 ∷ 0x45 ∷ 0 ∷ 0 ∷ 0 ∷ 2 ∷ []) in
    ((replica_side s).1.db.saved ≡ s.db.saved) ⊎ CommitsAsFound s
unfolding new_rsync
replica_side-OnlyCommits_example =
    replica_side-OnlyCommits (fresh (0x41 ∷ 2 ∷ 9 ∷ 0 ∷ 0 ∷ 0 ∷ 2 ∷ 0x45 ∷ 0 ∷ 0 ∷ 0 ∷ 2 ∷ [])) refl
      refl

-- The pages of an origin and of an older replica.
abbrev pub new_pages : Pages
new_pages zero = none
new_pages (suc zero) = some (1 ∷ 2 ∷ 3 ∷ 4 ∷ [])
new_pages (suc (suc zero)) = some (5 ∷ 6 ∷ 7 ∷ 8 ∷ [])
new_pages (suc (suc (suc k))) = none

abbrev pub old_pages : Pages
old_pages zero = none
old_pages (suc zero) = some (9 ∷ 9 ∷ 9 ∷ 9 ∷ [])
old_pages (suc (suc k)) = none

abbrev new_rows : List (ℕ × List ℕ)
new_rows = (1, 1 ∷ 2 ∷ 3 ∷ 4 ∷ []) ∷ (2, 5 ∷ 6 ∷ 7 ∷ 8 ∷ []) ∷ []

-- The replica in its transaction, with pages of 4 bytes.
abbrev receiving : List ℕ → Rsync
receiving input =
    let s = fresh input in
    record s {
      page_bytes = 4;
      db_open = true;
      kept = record { j_mode = 1; has_insert = false; closes_insert = false };
      db = record small_database {
        page = old_pages;
        file_page_count = 1;
        file_page_size = 4;
        in_transaction = true;
      };
    }

receiving-Takes : (input : List ℕ) → Takes 4 1 old_pages 1 input (receiving input)
unfolding new_rsync
receiving-Takes input = record {
  healthy = λ k. refl;
  db_open = refl;
  in_transaction = refl;
  page_bytes = refl;
  j_mode = refl;
  page = refl;
  count = refl;
  input = refl;
}

-- Two pages and the end: the file has them, and the transaction is over.
two_pages_received :
    let s = (replica_loop 4 (receiving (page_frames new_rows ++ txn_frame 2))).1 in
    (s.db.saved.page 1 ≡ some (1 ∷ 2 ∷ 3 ∷ 4 ∷ []))
    × (s.db.saved.page 2 ≡ some (5 ∷ 6 ∷ 7 ∷ 8 ∷ []))
    × (s.db.saved.page 3 ≡ none)
    × (s.db.saved.page_count ≡ 2)
    × (s.page_updates ≡ 2)
unfolding replica_loop respond next_message on_page on_txn prepare_insert insert_received cut_file
    keep_wal store_page truncate settled committed stamp_pages new_header_page new_header
    is_header_place put_page cut_pages commit_file reading call change or_report run prepare
    new_rsync read_byte read_full read_uint32 read_bytes bytes_of_uint32 uint32_of_bytes
two_pages_received = (refl, refl, refl, refl, refl)

new_rows-Sendable : All (Sendable 4 1) new_rows
unfolding keep_wal
new_rows-Sendable = (
  record { numbered = omega arith; small = omega arith; exact = refl; kept = refl },
  (record { numbered = omega arith; small = omega arith; exact = refl; kept = refl }, tt),
)

replica_loop-pages_example :
    let s = receiving (page_frames new_rows ++ txn_frame 2) in
    (s' : Rsync) × (replica_loop (length s.reader.input + 1) s ≡ (ok tt, s'))
    × Synced (with_pages 1 new_rows old_pages) (with_count new_rows 1) 2 s'
replica_loop-pages_example =
    replica_loop-pages 4 1 (1, 1 ∷ 2 ∷ 3 ∷ 4 ∷ []) ((2, 5 ∷ 6 ∷ 7 ∷ 8 ∷ []) ∷ []) old_pages 1 2
      (receiving (page_frames new_rows ++ txn_frame 2))
      (length (receiving (page_frames new_rows ++ txn_frame 2)).reader.input + 1) (omega arith)
      new_rows-Sendable (omega arith) (omega arith)
      (receiving-Takes (page_frames new_rows ++ txn_frame 2))

pub new_pages-IsFile : IsFile 4 1 2 new_pages
new_pages-IsFile = record {
  has_page = has_page;
  bounds = bounds;
  sized = sized;
  same_mode = same_mode;
}
  where
    has_page : (k : ℕ) → 1 ≤ k → k ≤ 2 → (c : List ℕ) × (new_pages k ≡ some c)
    has_page zero lo hi = absurd (omega arith)
    has_page (suc zero) lo hi = (_, refl)
    has_page (suc (suc zero)) lo hi = (_, refl)
    has_page (suc (suc (suc k))) lo hi = absurd (omega arith)

    bounds : (k : ℕ) (c : List ℕ) → new_pages k ≡ some c → (1 ≤ k) × (k ≤ 2)
    bounds zero c e = absurd (ground (arith, e))
    bounds (suc zero) c e = (omega arith, omega arith)
    bounds (suc (suc zero)) c e = (omega arith, omega arith)
    bounds (suc (suc (suc k))) c e = absurd (ground (arith, e))

    sized : (k : ℕ) (c : List ℕ) → new_pages k ≡ some c → length c ≡ 4
    sized zero c e = absurd (ground (arith, e))
    sized (suc zero) c e = ground (arith, e)
    sized (suc (suc zero)) c e = ground (arith, e)
    sized (suc (suc (suc k))) c e = absurd (ground (arith, e))

    same_mode : (k : ℕ) (c : List ℕ) → new_pages k ≡ some c → keep_wal k 1 c ≡ some c
    same_mode k c e = unfold keep_wal in ground arith

-- The origin has written page 1 down, and has seen no hash of page 2.
abbrev after_hashes : Locals
after_hashes = record (first_locals 9) { i_hash = 2; mx_hash = 2 }

abbrev page_1_differs : Table
page_1_differs = record { first = 1; count = 1 } ∷ []

pages-Checked : Checked new_pages 2 after_hashes page_1_differs old_pages 1
pages-Checked = record { hashed = omega arith; equal = equal }
  where
    equal :
        (k : ℕ)
        → 1 ≤ k
        → k < 2
        → k ≤ 2
        → has_key k page_1_differs ≡ false
        → old_pages k ≡ new_pages k
    equal zero lo hi hi' h = absurd (omega arith)
    equal (suc zero) lo hi hi' h = absurd (unfold has_key in ground (arith, h))
    equal (suc (suc k)) lo hi hi' h = absurd (omega arith)

rows_sent : page_rows new_pages (resend after_hashes 2 page_1_differs) ≡ new_rows
unfolding page_rows tail_rows delete_key
rows_sent = refl

replica_loop-Converged_example :
    let s =
      receiving
        (page_frames (page_rows new_pages (resend after_hashes 2 page_1_differs)) ++ txn_frame 2) in
    (s' : Rsync) × (replica_loop (length s.reader.input + 1) s ≡ (ok tt, s'))
    × Converged new_pages 2 9 s'
replica_loop-Converged_example =
    replica_loop-Converged new_pages-IsFile after_hashes page_1_differs (1, 1 ∷ 2 ∷ 3 ∷ 4 ∷ [])
      ((2, 5 ∷ 6 ∷ 7 ∷ 8 ∷ []) ∷ [])
      (receiving
        (page_frames (page_rows new_pages (resend after_hashes 2 page_1_differs)) ++ txn_frame 2))
      (length
          (receiving (
            page_frames (page_rows new_pages (resend after_hashes 2 page_1_differs))
            ++ txn_frame 2)).reader.input
        + 1)
      (omega arith) (omega arith) (omega arith) (λ e. omega (arith, e)) pages-Checked rows_sent
      (receiving-Takes
        (page_frames (page_rows new_pages (resend after_hashes 2 page_1_differs)) ++ txn_frame 2))
