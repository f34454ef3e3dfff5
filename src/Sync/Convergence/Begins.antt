-- ===== src/Sync/Convergence/Begins.antt =====
-- sqlitersync/replica.go, ORIGIN_BEGIN: the beginning on a file that has pages and can be read.
use go_sqlite_rsync.Common.{
  ℕ, suc, ◌≤◌, ◌≡◌, ◌⊎◌, inl, inr, refl, ap, ◌∙◌, Bool, true, false, ◌&&◌, [], ltb, ◌==◌,
  if◌then◌else◌, arith,
}
use go_sqlite_rsync.Common.Act.{ok, bind, pure, ◌>>=◌, ◌>>◌, gets, modify}
use go_sqlite_rsync.Sync.Run.{
  Rsync, Run, Database, cannot_open_memory, replica_not_in_wal_mode, writable_schema,
  create_send_hash, replica_page_count, begin_immediate, replica_journal_mode, replica_page_size,
  write_error, call, run_return,
}
use go_sqlite_rsync.Sync.Run.Healthy.{
  Healthy, tick, call-Healthy, query-Healthy, run-Healthy, or_report-ok,
}
use go_sqlite_rsync.Sync.Replica.File.{attached, begun, put_page}
use go_sqlite_rsync.Sync.Replica.Attach.{run_attach, attach_second, attach_replica}
use go_sqlite_rsync.Sync.Replica.Begin.{
  open_replica, size_empty_file, begin_transaction, note_journal_mode, check_page_size, begin_sync,
  set_j_mode,
}
use go_sqlite_rsync.Sync.Convergence.Greets.{first_round}

run_attach-Healthy :
    (s : Rsync) → Healthy s.env → run_attach s ≡ (ok tt, record s { db = attached (tick s).db })
unfolding run_attach
run_attach-Healthy s h = simp (call-Healthy s h, run_attach)

attach_replica-Healthy :
    (s : Rsync)
    → Healthy s.env
    → s.wrong_enc ≡ false
    → attach_replica s ≡ (ok tt, record s { db = attached (tick s).db })
unfolding attach_replica
attach_replica-Healthy s h clear =
    let s1 = record s { db = attached (tick s).db } in
    ap (λ r. bind r (λ u. after_attach)) (run_attach-Healthy s h)
    ∙ ap
        (λ b.
          (if b then (modify (λ s. record s { wrong_enc = false }) >> attach_second) else pure tt)
            s1)
        clear
  where
    after_attach : Run (Unit {0})
    after_attach = do
      wrong_enc ← gets (λ s. s.wrong_enc)
      if wrong_enc then (modify (λ s. record s { wrong_enc = false }) >> attach_second) else pure tt

-- The database of the replica with the file that is on disk.
abbrev with_file : ℕ → Database → Database
with_file c d = record d {
  calls = c;
  page = d.saved.page;
  file_page_count = d.saved.page_count;
  file_page_size = d.saved.page_size;
  in_transaction = false;
  changed = false;
  send_hash_table = [];
}

open_replica-Healthy :
    (s : Rsync)
    → Healthy s.env
    → s.wrong_enc ≡ false
    → (c : ℕ) × (open_replica s
        ≡ (ok s.db.saved.page_count, record s { db_open = true; db = with_file c s.db }))
unfolding open_replica attached run_return
open_replica-Healthy s h clear =
    let s1 = record (tick s) { db_open = true } in
    let s2 = tick s1 in
    let s3 = record s2 { db = attached (tick s2).db } in
    let s4 = record s3 { db = record (tick s3).db { send_hash_table = [] } } in
    (
      suc s4.db.calls,
      simp (
        or_report-ok call cannot_open_memory s (tick s) tt (call-Healthy s h),
        run-Healthy writable_schema ok s1 (tick s1).db h refl,
        attach_replica-Healthy s2 h clear,
        run-Healthy create_send_hash (λ d. ok (record d { send_hash_table = [] })) s3 s4.db h refl,
        query-Healthy replica_page_count s4 h,
        open_replica,
        run_return,
      ),
    )

begin_transaction-Healthy :
    (s : Rsync)
    → Healthy s.env
    → (s.db.file_page_count == 0) ≡ false
    → begin_transaction s ≡ (ok tt, record s { db = record (tick s).db { in_transaction = true } })
unfolding begin_transaction begun
begin_transaction-Healthy s h some_page =
    run-Healthy begin_immediate (λ d. ok (begun s.env d)) s (begun s.env (tick s).db) h refl
    ∙ ap
        (λ b. (
          ok tt,
          record s {
            db =
                if b
                then record (tick s).db {
                  page = put_page 1 (s.env.first_page s.db.file_page_size) s.db.page;
                  file_page_count = 1;
                  in_transaction = true;
                  changed = true;
                }
                else record (tick s).db { in_transaction = true };
          },
        ))
        some_page

size_empty_file-skips : (n : ℕ) (s : Rsync) → (n == 0) ≡ false → size_empty_file n s ≡ (ok tt, s)
unfolding size_empty_file
size_empty_file-skips n s some_page = simp (some_page, size_empty_file)

-- The journal mode that is noted where the file is in WAL mode, or not.
abbrev pub mode_of : Bool → ℕ
mode_of is_wal = if is_wal then 2 else 1

abbrev noted_mode : Bool → Rsync → Rsync
noted_mode is_wal s = record s { kept = record s.kept { j_mode = mode_of is_wal } }

abbrev choose_mode : ℕ → Bool → Bool → Run (Unit {0})
choose_mode n wal_only is_wal =
    if is_wal
    then set_j_mode 2
    else if wal_only && ltb 0 n
    then write_error replica_not_in_wal_mode
    else set_j_mode 1

choose_mode-known :
    (n : ℕ) (wal_only is_wal : Bool) (s : Rsync)
    → (wal_only ≡ false) ⊎ (is_wal ≡ true)
    → choose_mode n wal_only is_wal s ≡ (ok tt, noted_mode is_wal s)
choose_mode-known n wal_only true s mode = refl
choose_mode-known n false false s mode = refl
choose_mode-known n true false s (inl any) = absurd (ground (arith, any))
choose_mode-known n true false s (inr wal) = absurd (ground (arith, wal))

note_journal_mode-Healthy :
    (n : ℕ) (s : Rsync)
    → Healthy s.env
    → (s.wal_only ≡ false) ⊎ (s.env.reads_wal s.db.page ≡ true)
    → note_journal_mode n s ≡ (ok tt, noted_mode (s.env.reads_wal s.db.page) (tick s))
unfolding note_journal_mode run_return
note_journal_mode-Healthy n s h mode =
    ap
      (λ r.
        bind (bind r (λ u. gets (λ t. s.env.reads_wal t.db.page)))
          (λ is_wal. do wal_only ← gets (λ s. s.wal_only); choose_mode n wal_only is_wal))
      (query-Healthy replica_journal_mode s h)
    ∙ choose_mode-known n s.wal_only (s.env.reads_wal s.db.page) (tick s) mode

check_page_size-Healthy :
    (s : Rsync)
    → Healthy s.env
    → s.db.file_page_size ≡ s.page_bytes
    → check_page_size s ≡ (ok tt, tick s)
unfolding check_page_size run_return
check_page_size-Healthy s h same =
    let equal : (s.db.file_page_size == s.page_bytes) ≡ true = ground (arith, same) in
    simp (query-Healthy replica_page_size s h, equal, check_page_size, run_return)

-- The replica in its transaction, after `c` calls of the database.
abbrev pub prepared : ℕ → Rsync → Rsync
prepared c s = record s {
  db_open = true;
  kept = record s.kept { j_mode = mode_of (s.env.reads_wal s.db.saved.page) };
  db = record (with_file c s.db) { in_transaction = true };
}

pub begin_sync-first_round :
    (s : Rsync)
    → Healthy s.env
    → s.wrong_enc ≡ false
    → 1 ≤ s.db.saved.page_count
    → (s.wal_only ≡ false) ⊎ (s.env.reads_wal s.db.saved.page ≡ true)
    → s.db.saved.page_size ≡ s.page_bytes
    → (c : ℕ) × (begin_sync s ≡ first_round s.db.saved.page_count (prepared c s))
unfolding begin_sync run_return
begin_sync-first_round s h clear pos mode size =
    let m = s.db.saved.page_count in
    let some_page : (m == 0) ≡ false = ground (arith, pos) in
    let (c, opened) = open_replica-Healthy s h clear in
    let s1 = record s { db_open = true; db = with_file c s.db } in
    let s2 = record s1 { db = record (tick s1).db { in_transaction = true } } in
    let s3 = noted_mode (s.env.reads_wal s.db.saved.page) (tick s2) in
    (
      suc (suc (suc (suc c))),
      simp (
        opened,
        size_empty_file-skips m s1 some_page,
        begin_transaction-Healthy s1 h some_page,
        note_journal_mode-Healthy m s2 h mode,
        query-Healthy replica_page_count s3 h,
        check_page_size-Healthy (tick s3) h size,
        begin_sync,
        run_return,
      ),
    )
