-- ===== src/Sync/Replica/Untouched.antt =====
-- sqlitersync/replica.go: what the handlers leave of the file on disk and of the transaction.
use go_sqlite_rsync.Common.{
  ℕ, ◌≡◌, refl, ◌∙◌, Bool, true, false, Option, none, some, List, [], if◌then◌else◌,
}
use go_sqlite_rsync.Common.Act.{Result, ok, err, ◌>>=◌, ◌>>◌, modify}
use go_sqlite_rsync.Sync.Table.{Range, Table, insert_rows}
use go_sqlite_rsync.Sync.Run.{
  Rsync, Run, run, run_return, replica_page_count, Statement, RunError, Snapshot, DbError, call,
  effect, write_error, sql_failed, attach, create_send_hash, set_page_size, replace_send_hash,
}
use go_sqlite_rsync.Sync.Run.Keeps.{
  Keeps, Frame, Blind, keeps_rules, Keeps-call, Keeps-modify, Keeps-run, Keeps-write_error,
}
use go_sqlite_rsync.Sync.Messages.{send_hash_messages}
use go_sqlite_rsync.Sync.Messages.Keeps.{Uncounted}
use go_sqlite_rsync.Sync.Messages
use go_sqlite_rsync.Sync.Replica.File.{attached, into_send_hash, inserted}
use go_sqlite_rsync.Sync.Replica.Attach.{
  is_wrong_encoding, run_attach, attach_third, attach_second, attach_replica,
}
use go_sqlite_rsync.Sync.Replica.Begin.{
  drop_db, close_db, open_replica, size_empty_file, note_journal_mode, check_page_size, subdivide,
  first_hashes,
}
use go_sqlite_rsync.Sync.Replica.{drop_message, on_origin_error, on_detail, on_origin_ready}

-- The file on disk, and where the run stands with it.
pub record Standing : Type 0 where
  pub saved : Snapshot
  pub in_transaction : Bool
  pub db_open : Bool
  pub has_insert : Bool

abbrev pub standing : Rsync → Standing
standing s = record {
  saved = s.db.saved;
  in_transaction = s.db.in_transaction;
  db_open = s.db_open;
  has_insert = s.kept.has_insert;
}

-- What closing and opening the database leaves, too.
abbrev pub stable : Rsync → Snapshot × Bool
stable s = (s.db.saved, s.kept.has_insert)

pub Frame-standing : Frame standing
Frame-standing = record { writer = λ s w. refl; calls = λ s n. refl }

pub Blind-standing : Blind standing
Blind-standing = record { reader = λ s r. refl }

pub Frame-stable : Frame stable
Frame-stable = record { writer = λ s w. refl; calls = λ s n. refl }

-- sendHashMessages.
Uncounted-standing : Uncounted standing
Uncounted-standing = record { messages = λ s n. refl; rounds = λ s n. refl; table = λ s t. refl }

pub Keeps-send_hash_messages : (i n : ℕ) → Keeps standing (send_hash_messages i n)
Keeps-send_hash_messages = Messages.Keeps.Keeps-send_hash_messages Frame-standing Uncounted-standing

pub Keeps-subdivide : (fpg npg : ℕ) → Keeps standing (subdivide fpg npg)
unfolding subdivide
Keeps-subdivide fpg npg = Keeps-run replace_send_hash _ Frame-standing (λ s. refl)

-- ORIGIN_BEGIN, as far as the transaction.
Keeps-run_attach : Keeps stable run_attach
unfolding run_attach attached
Keeps-run_attach = record { at = λ s. kept s (call s) ((Keeps-call Frame-stable).at s) }
  where
    refused : (b : Bool) → DbError → Run (Unit {0})
    refused b e s' =
        if b then (ok tt, record s' { wrong_enc = true }) else write_error (sql_failed attach e) s'

    refused-Keeps : (b : Bool) (e : DbError) → Keeps stable (refused b e)
    refused-Keeps true e = record { at = λ s. refl }
    refused-Keeps false e = Keeps-write_error (sql_failed attach e) Frame-stable

    kept :
        (s : Rsync) (r : Result DbError (Unit {0}) × Rsync)
        → stable r.1 ≡ stable s
        → stable
            (elim r.0 as (λ x. Result RunError (Unit {0}) × Rsync) [
              | ok u ↦ (ok tt, record r.1 { db = attached r.1.db })
              | err e ↦ refused (is_wrong_encoding s.env e) e r.1
            ]).1
          ≡ stable s
    kept s (ok u, s') h = h
    kept s (err x, s') h = (refused-Keeps (is_wrong_encoding s.env x) x).at s' ∙ h

Keeps-set_wrong_enc :
    (b : Bool) → Keeps {E = RunError} stable (modify (λ s. record s { wrong_enc = b }))
Keeps-set_wrong_enc b = Keeps-modify _ (λ s. refl)

Keeps-attach_third : Keeps stable attach_third
unfolding attach_third
Keeps-attach_third = search (keeps_rules, Frame-stable, Keeps-run_attach) depth 12

Keeps-attach_second : Keeps stable attach_second
unfolding attach_second
Keeps-attach_second =
    search (keeps_rules, Frame-stable, Keeps-run_attach, Keeps-set_wrong_enc, Keeps-attach_third)
      depth 12

Keeps-attach_replica : Keeps stable attach_replica
unfolding attach_replica
Keeps-attach_replica =
    search (keeps_rules, Keeps-run_attach, Keeps-set_wrong_enc, Keeps-attach_second) depth 12

Keeps-note_open : Keeps {E = RunError} stable (modify (λ s. record s { db_open = true }))
Keeps-note_open = Keeps-modify _ (λ s. refl)

Keeps-create_table :
    Keeps stable (run create_send_hash (λ d. ok (record d { send_hash_table = [] })))
Keeps-create_table = Keeps-run create_send_hash _ Frame-stable (λ s. refl)

pub Keeps-open_replica : Keeps stable open_replica
unfolding open_replica
Keeps-open_replica =
    search (keeps_rules, Frame-stable, Keeps-attach_replica, Keeps-note_open, Keeps-create_table)
      depth 14

pub Keeps-size_empty_file : (n : ℕ) → Keeps standing (size_empty_file n)
unfolding size_empty_file
Keeps-size_empty_file n = search (keeps_rules, Frame-standing, sized) depth 12
  where
    sized :
        (size : ℕ)
        → Keeps standing (run set_page_size (λ d. ok (record d { file_page_size = size })))
    sized size = Keeps-run set_page_size _ Frame-standing (λ s. refl)

-- ORIGIN_BEGIN, within the transaction.
Keeps-set_j_mode :
    (j : ℕ)
    → Keeps {E = RunError} standing (modify (λ s. record s { kept = record s.kept { j_mode = j } }))
Keeps-set_j_mode j = Keeps-modify _ (λ s. refl)

Keeps-note_journal_mode : (n : ℕ) → Keeps standing (note_journal_mode n)
unfolding note_journal_mode
Keeps-note_journal_mode n = search (keeps_rules, Frame-standing, Keeps-set_j_mode) depth 12

Keeps-check_page_size : Keeps standing check_page_size
unfolding check_page_size
Keeps-check_page_size = search (keeps_rules, Frame-standing) depth 12

Keeps-into_send_hash :
    (q : Statement) (rows : List Range) → Keeps standing (run q (into_send_hash rows))
unfolding into_send_hash
Keeps-into_send_hash q rows =
    Keeps-run q (into_send_hash rows) Frame-standing
      (λ s. stands s (insert_rows rows s.db.send_hash_table))
  where
    stands : (s : Rsync) (o : Option Table) → standing (effect (inserted s.db o) s).1 ≡ standing s
    stands s none = refl
    stands s (some t) = refl

Keeps-first_hashes : (n : ℕ) → Keeps standing (first_hashes n)
unfolding first_hashes
Keeps-first_hashes n = search (keeps_rules, Keeps-into_send_hash, Keeps-subdivide) depth 12

-- What follows the opening of the transaction.
abbrev pub in_transaction_part : ℕ → Run (Unit {0})
in_transaction_part before = do
  note_journal_mode before
  n_r_page ← run_return replica_page_count (λ d. d.file_page_count)
  check_page_size
  first_hashes n_r_page
  send_hash_messages 1 1

pub Keeps-in_transaction_part : (n : ℕ) → Keeps standing (in_transaction_part n)
Keeps-in_transaction_part n =
    search
      (
        keeps_rules, Frame-standing, Keeps-note_journal_mode, Keeps-check_page_size,
        Keeps-first_hashes, Keeps-send_hash_messages,
      )
      depth 12

-- The other handlers.
Keeps-drop_db : Keeps {E = RunError} stable (modify drop_db)
Keeps-drop_db = Keeps-modify drop_db (λ s. refl)

pub Keeps-close_db : Keeps stable close_db
unfolding close_db
Keeps-close_db = search (keeps_rules, Frame-stable, Keeps-drop_db) depth 12

pub Keeps-drop_message : Keeps standing drop_message
unfolding drop_message
Keeps-drop_message = search (keeps_rules, Blind-standing)

pub Keeps-on_origin_error : Keeps standing on_origin_error
unfolding on_origin_error
Keeps-on_origin_error = search (keeps_rules, Blind-standing)

pub Keeps-on_detail : Keeps standing on_detail
unfolding on_detail
Keeps-on_detail = search (keeps_rules, Blind-standing, Keeps-subdivide) depth 12

pub Keeps-on_origin_ready : Keeps standing on_origin_ready
unfolding on_origin_ready
Keeps-on_origin_ready = search (keeps_rules, Keeps-send_hash_messages) depth 12
