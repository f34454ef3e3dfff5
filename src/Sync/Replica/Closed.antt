-- ===== src/Sync/Replica/Closed.antt =====
-- sqlitersync/replica.go, and closeDb of sqlitersync/sql.go: no database is open.
use go_sqlite_rsync.Common.{
  ℕ, suc, ◌+◌, ◌≤◌, ◌≡◌, ap, ◌∙◌, true, false, none, List, [], ◌∷◌, length, drop, length-drop, take,
  leb, ◌==◌, if◌then◌else◌, arith,
}
use go_sqlite_rsync.Common.Act.{ok, err, pure, raise, ◌>>◌, modify}
use go_sqlite_rsync.Wire.{protocol_version, origin_detail, origin_ready, origin_txn, origin_page}
use go_sqlite_rsync.Wire.Uint32.{uint32_of_bytes}
use go_sqlite_rsync.Wire.RoundTrip.{after_read}
use go_sqlite_rsync.Wire.Reader.{read_uint32, read_full}
use go_sqlite_rsync.Sync.Run.{
  Rsync, Run, RunError, nil_pointer, commit, insert_page, reading, call, or_driver, run, prepare,
}
use go_sqlite_rsync.Sync.Run.Healthy.{tick}
use go_sqlite_rsync.Sync.Exchange.Receive.{next_message-byte}
use go_sqlite_rsync.Sync.Messages.{send_hash_messages}
use go_sqlite_rsync.Sync.Replica.File.{commit_file}
use go_sqlite_rsync.Sync.Replica.Begin.{with_db, drop_db, close_db, subdivide}
use go_sqlite_rsync.Sync.Replica.Page.{prepare_insert, on_page, on_txn}
use go_sqlite_rsync.Sync.Replica.{
  on_detail, on_origin_ready, respond, replica_loop, answer_messages, close_insert, run_deferred,
  start_replica, chosen_run, replica_side,
}

pub close_db-closed : (s : Rsync) → s.db_open ≡ false → close_db s ≡ (ok tt, s)
unfolding close_db
close_db-closed s closed =
    ap (λ b. (if b then (modify drop_db >> or_driver call) else pure tt) s) closed

-- No database is open and no statement is prepared.
pub record Closed (s : Rsync) : Type 0 where
  pub db_open : s.db_open ≡ false
  pub has_insert : s.kept.has_insert ≡ false
  pub closes_insert : s.kept.closes_insert ≡ false

with_db-Closed :
    {A : Type 0} (m : Run A) (s : Rsync) → Closed s → with_db m s ≡ (err nil_pointer, s)
with_db-Closed m s c = ap (λ b. (if b then m else raise nil_pointer) s) c.db_open

-- Where four bytes are there, a number is read.
reading-number :
    (s : Rsync)
    → 4 ≤ length s.reader.input
    → (x : ℕ) × (reading read_uint32 s
        ≡ (ok x, record s { reader = after_read s.reader 4 (drop 4 s.reader.input) }))
unfolding reading read_uint32 read_full
reading-number s h =
    let enough : leb 4 (length s.reader.input) ≡ true = ground arith in
    (uint32_of_bytes (take 4 s.reader.input), simp (enough, reading, read_uint32, read_full))

-- The messages whose handlers use the database.
pub data NeedsDatabase : ℕ → Type 0 where
  detail : NeedsDatabase origin_detail
  ready : NeedsDatabase origin_ready
  txn : NeedsDatabase origin_txn
  page : NeedsDatabase origin_page

respond-Closed :
    (c : ℕ) (s : Rsync)
    → NeedsDatabase c
    → Closed s
    → 8 ≤ length s.reader.input
    → (s' : Rsync) × (respond c s ≡ (err nil_pointer, s')) × Closed s'
unfolding respond on_detail on_origin_ready on_txn on_page prepare_insert
respond-Closed c s detail closed h =
    let (x, read_x) = reading-number s (omega (arith, h)) in
    let s1 = record s { reader = after_read s.reader 4 (drop 4 s.reader.input) } in
    let (y, read_y) = reading-number s1 (omega (arith, h, length-drop 4 s.reader.input)) in
    let s2 = record s1 { reader = after_read s1.reader 4 (drop 4 s1.reader.input) } in
    let closed2 : Closed s2 = record {
      db_open = closed.db_open;
      has_insert = closed.has_insert;
      closes_insert = closed.closes_insert;
    } in
    (
      s2,
      simp (read_x, read_y, with_db-Closed (subdivide x y) s2 closed2, respond, on_detail),
      closed2,
    )
respond-Closed c s ready closed h =
    (s, simp (with_db-Closed (send_hash_messages 0 0) s closed, respond, on_origin_ready), closed)
respond-Closed c s txn closed h =
    let (x, read_x) = reading-number s (omega (arith, h)) in
    let s1 = record s { reader = after_read s.reader 4 (drop 4 s.reader.input) } in
    let closed1 : Closed s1 = record {
      db_open = closed.db_open;
      has_insert = closed.has_insert;
      closes_insert = closed.closes_insert;
    } in
    (
      s1,
      simp (
        read_x,
        closed.has_insert,
        with_db-Closed (run commit commit_file) s1 closed1,
        respond,
        on_txn,
      ),
      closed1,
    )
respond-Closed c s page closed h =
    let (x, read_x) = reading-number s (omega (arith, h)) in
    let s1 = record s { reader = after_read s.reader 4 (drop 4 s.reader.input) } in
    let closed1 : Closed s1 = record {
      db_open = closed.db_open;
      has_insert = closed.has_insert;
      closes_insert = closed.closes_insert;
    } in
    (
      s1,
      simp (
        read_x,
        closed.has_insert,
        with_db-Closed (prepare insert_page) s1 closed1,
        respond,
        on_page,
        prepare_insert,
      ),
      closed1,
    )

run_deferred-Closed : (e : RunError) (s : Rsync) → Closed s → run_deferred (err e, s) ≡ (e ∷ [], s)
unfolding run_deferred close_insert
run_deferred-Closed e s c =
    simp (c.closes_insert, close_db-closed s c.db_open, run_deferred, close_insert)

-- The state at the first message.
abbrev started : Rsync → Rsync
started s = record (tick s) {
  is_replica = true;
  protocol = if s.protocol == 0 then protocol_version else s.protocol;
}

start_replica-ok :
    (s : Rsync)
    → s.env.fails s.db.calls ≡ none
    → start_replica s ≡ (ok s.comm_check, record (tick s) { is_replica = true })
unfolding start_replica call or_driver
start_replica-ok s h = simp (h, start_replica, call, or_driver)

-- Where the functions are registered, the run is no communication check, and a message that needs the
-- database comes first, with its fields, in place of ORIGIN_BEGIN, the replica does not report it: its
-- run ends with the panic of a nil pointer, and closes nothing.
pub replica_side_before_begin :
    (s : Rsync) (c : ℕ) (rest : List ℕ)
    → NeedsDatabase c
    → Closed s
    → s.env.fails s.db.calls ≡ none
    → s.comm_check ≡ false
    → s.reader.input ≡ c ∷ rest
    → 8 ≤ length rest
    → (replica_side s).0 ≡ nil_pointer ∷ []
unfolding replica_side answer_messages replica_loop
replica_side_before_begin s c rest needs closed registered full input enough =
    let s0 = started s in
    let s1 = record s0 { reader = after_read s0.reader 1 rest } in
    let (s2, panics, closed2) =
      respond-Closed c s1 needs
        (record {
          db_open = closed.db_open;
          has_insert = closed.has_insert;
          closes_insert = closed.closes_insert;
        })
        enough in
    let more : length s.reader.input + 1 ≡ suc (length s.reader.input) = omega arith in
    let one_pass : replica_loop (suc (length s.reader.input)) s0 ≡ (err nil_pointer, s2) =
      simp (next_message-byte s0 c rest input, panics, replica_loop) in
    ap (λ r. (chosen_run r).0)
      (start_replica-ok s registered ∙ ap (λ b. (ok b, record (tick s) { is_replica = true })) full)
    ∙ ap (λ r. (run_deferred r).0) (ap (λ f. replica_loop f s0) more ∙ one_pass)
    ∙ ap (λ r. r.0) (run_deferred-Closed nil_pointer s2 closed2)
