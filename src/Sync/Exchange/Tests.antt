-- ===== src/Sync/Exchange/Tests.antt =====
-- A round and a transfer at concrete inputs.
use go_sqlite_rsync.Common.{
  true, ◌≡◌, ℕ, refl, inr, Option, none, some, List, [], ◌∷◌, ◌++◌, replicate, arith,
}
use mathlib.Core.List.{Memᴰ}
use go_sqlite_rsync.Sync.Origin.Complete.{transfer_complete}
use go_sqlite_rsync.Sync.Exchange.Agree.{mismatches-Equal}
use go_sqlite_rsync.Hash.Sql.{hash_func, hash_bytes}
use go_sqlite_rsync.Hash.Sponge.{
  hash_init, rate_of, hash_update, update_byte, advance, xor_byte, pad, output, hash_final,
}
use go_sqlite_rsync.Hash.Keccak.{keccak_f1600_step, rol64}
use go_sqlite_rsync.Sync.Table.{Range}
use go_sqlite_rsync.Sync.PageHash.{page_hash}
use go_sqlite_rsync.Sync.Run.{Rsync}
use go_sqlite_rsync.Sync.Run.Emits.{Emitted}
use go_sqlite_rsync.Sync.Messages.{entry_hash, send_hash_messages}
use go_sqlite_rsync.Sync.Options.{new_rsync}
use go_sqlite_rsync.Sync.Origin.Loop.{Locals, first_locals}
use go_sqlite_rsync.Sync.Origin.Passes.{Passes}
use go_sqlite_rsync.Sync.Origin.Ready.{page_rows, transfer}
use go_sqlite_rsync.Sync.Origin.Frames.{page_frames, txn_frame}
use go_sqlite_rsync.Sync.Origin.Transfer.{transfer-Emits, resend, file_of}
use go_sqlite_rsync.Sync.Exchange.{Entry, messages, mismatches, mx_after}
use go_sqlite_rsync.Sync.Exchange.Receive.{Fixed, Awaits}
use go_sqlite_rsync.Sync.Exchange.Round.{messages-Passes}
use go_sqlite_rsync.Wire.{replica_ready}
use go_sqlite_rsync.Sync.Exchange.Finish.{Delivered, send_hash_messages_delivers}
use go_sqlite_rsync.Sync.Tests.{two_pages, small_database, fresh}

abbrev page_1 : Range
page_1 = record { first = 1; count = 1 }

abbrev page_2 : Range
page_2 = record { first = 2; count = 1 }

-- Two entries with hashes that the pages do not have.
abbrev wrong_entries : List Entry
wrong_entries = (page_1, replicate 20 0) ∷ (page_2, replicate 20 0) ∷ []

abbrev origin_side_fixed : Fixed
origin_side_fixed = record { page = two_pages; count = 0; writer = (fresh []).writer; lock = 1 }

messages-Passes_example :
    (v' : Locals) × (s' : Rsync) × (i' : ℕ) × (n' : ℕ) × Passes
      (first_locals 1)
      (fresh (messages 1 1 wrong_entries ++ 0x65 ∷ []))
      v'
      s'
    × Awaits origin_side_fixed
        ([] ++ mismatches two_pages wrong_entries)
        i'
        n'
        (mx_after 0 wrong_entries)
        (0x65 ∷ [])
        v'
        s'
unfolding new_rsync
messages-Passes_example =
    messages-Passes origin_side_fixed 1 [] 1 1 0 wrong_entries (0x65 ∷ []) (first_locals 1)
      (fresh (messages 1 1 wrong_entries ++ 0x65 ∷ [])) tt
      (
        omega arith,
        omega arith,
        omega arith,
        refl,
        (omega arith, omega arith, omega arith, refl, tt),
      )
      (record {
        healthy = λ k. refl;
        page = refl;
        count = refl;
        writer = refl;
        lock = refl;
        ledger = (refl, refl);
        at_i = refl;
        at_n = refl;
        at_mx = refl;
        made = inr refl;
        input = refl;
      })

abbrev hash_or_nothing : Option (List ℕ) → List ℕ
hash_or_nothing none = []
hash_or_nothing (some h) = h

abbrev hash_of_page_1 : List ℕ
hash_of_page_1 = hash_or_nothing (entry_hash two_pages page_1)

abbrev one_entry : Rsync
one_entry = record (fresh []) {
  db = record small_database { send_hash_table = page_1 ∷ [] };
  is_replica = true;
}

send_hash_messages_delivers_example :
    Delivered one_entry.writer
      (messages 1 1 ((page_1, hash_of_page_1) ∷ []) ++ (replica_ready ∷ []))
      (send_hash_messages 1 1 one_entry)
unfolding new_rsync entry_hash page_hash hash_func hash_bytes hash_init rate_of hash_update
    update_byte advance xor_byte pad output hash_final keccak_f1600_step rol64
send_hash_messages_delivers_example =
    send_hash_messages_delivers (file_of one_entry) 1 1 ((page_1, hash_of_page_1) ∷ []) one_entry
      (record { healthy = λ k. refl; page = refl; count = refl; ready = refl; fits = omega arith })
      ((omega arith, omega arith), tt) (refl, refl, tt)

-- Page 1 is known to differ, and the replica has no page beyond it.
abbrev one_bad_page : Rsync
one_bad_page = record (fresh []) {
  db = record small_database { bad_hash = some (page_1 ∷ []) };
  pages = 2;
}

abbrev after_page_1 : Locals
after_page_1 = record (first_locals 9) { mx_hash = 2 }

transfer-Emits_example :
    Emitted
      (file_of one_bad_page)
      one_bad_page.writer
      (page_frames (page_rows two_pages (resend after_page_1 2 (page_1 ∷ []))) ++ txn_frame 2)
      (transfer after_page_1 one_bad_page)
unfolding new_rsync
transfer-Emits_example =
    transfer-Emits after_page_1 one_bad_page (page_1 ∷ [])
      (record { healthy = λ k. refl; page = refl; count = refl; ready = refl; fits = omega arith })
      refl (omega arith, tt)

transfer_complete_example :
    (rows : List (ℕ × List ℕ)) × Memᴰ (2, 4 ∷ []) rows
    × Emitted
        (file_of one_bad_page)
        one_bad_page.writer
        (page_frames rows ++ txn_frame 2)
        (transfer after_page_1 one_bad_page)
unfolding new_rsync
transfer_complete_example =
    transfer_complete after_page_1 one_bad_page 2 (4 ∷ []) (page_1 ∷ [])
      (record { healthy = λ k. refl; page = refl; count = refl; ready = refl; fits = omega arith })
      refl (omega arith, tt) refl (λ e. omega (arith, e)) (inr (omega arith, omega arith))

mismatches-Equal_example : mismatches two_pages ((page_1, hash_of_page_1) ∷ []) ≡ []
unfolding entry_hash page_hash hash_func hash_bytes hash_init rate_of hash_update update_byte
    advance xor_byte pad output hash_final keccak_f1600_step rol64
mismatches-Equal_example =
    mismatches-Equal two_pages two_pages (page_1 ∷ []) ((page_1, hash_of_page_1) ∷ [])
      (refl, refl, tt) ((omega arith, λ k lo hi. refl), tt)
