-- ===== src/Sync/Replica/Atomic/Begin.antt =====
-- sqlitersync/replica.go, ORIGIN_BEGIN: the transaction is open before the first hashes.
use go_sqlite_rsync.Common.{ℕ, ◌≡◌, refl, ap, ◌∙◌, true, false, ltb, if◌then◌else◌, arith}
use go_sqlite_rsync.Common.Act.{Result, ok, err, bind, pure, ◌>>◌, modify, gets}
use go_sqlite_rsync.Wire.Reader.{read_byte, read_uint32, read_pow2}
use go_sqlite_rsync.Sync.Run.{
  Rsync, Run, RunError, Env, Database, DbError, begin_immediate, sql_failed, call, effect, change,
  or_report, or_driver, run, write_error, reading, writing,
}
use go_sqlite_rsync.Sync.Run.Keeps.{
  Keeps, Keeps-reading, Keeps-writing, Keeps-gets, Keeps-modify, Keeps-pure, Keeps-call,
  Keeps-or_driver, Keeps-write_error,
}
use go_sqlite_rsync.Sync.Replica.File.{begun}
use go_sqlite_rsync.Sync.Replica.Begin.{
  drop_db, close_db, write_offer, open_replica, size_empty_file, begin_transaction, begin_sync,
  on_begin,
}
use go_sqlite_rsync.Sync.Replica.Untouched.{
  Standing, standing, Frame-standing, Blind-standing, Keeps-open_replica, Keeps-size_empty_file,
  in_transaction_part, Keeps-in_transaction_part,
}
use go_sqlite_rsync.Sync.Replica.Atomic.{
  Leaves, Leaves-Keeps, Leaves-bind, Leaves-if, Leaves-then, Leaves-from, Leaves-gets, Safe,
}
use go_sqlite_rsync.Sync.Replica.Atomic.Page.{write_error-fails}

-- Closed, and no statement is prepared.
abbrev Closed : Standing → Type 0
Closed v = v.db_open ≡ false

abbrev Idle : Standing → Type 0
Idle v = (v.db_open ≡ false) × (v.has_insert ≡ false)

abbrev NoInsert : Standing → Type 0
NoInsert v = v.has_insert ≡ false

abbrev Begun : Standing → Type 0
Begun v = (v.in_transaction ≡ true) × (v.has_insert ≡ false)

Idle-Safe : (v : Standing) → Idle v → Safe v
Idle-Safe v (closed, no_insert) = record {
  in_transaction = λ e. absurd (ground (arith, closed, e));
  db_open = λ e. absurd (ground (arith, no_insert, e));
}

Begun-Safe : (v : Standing) → Begun v → Safe v
Begun-Safe v (begun, no_insert) = record {
  in_transaction = λ e. begun;
  db_open = λ e. absurd (ground (arith, no_insert, e));
}

Leaves-drop_db : {P : Standing → Type 0} → Leaves P Closed (modify drop_db)
Leaves-drop_db = record { saved = λ s p. refl; ends = λ s p a e. refl }

Leaves-close_db : {P : Standing → Type 0} → Leaves P Closed close_db
unfolding close_db
Leaves-close_db {P} =
    Leaves-gets (λ v. v.db_open) (λ b. if b then close else pure tt)
      (λ b.
        Leaves-if b close (pure tt) (λ e. Leaves-close)
          (λ e. Leaves-from (pure tt) (λ v p. p.1 ∙ e) (Leaves-Keeps (pure tt) (Keeps-pure tt))))
  where
    close : Run (Unit {0})
    close = modify drop_db >> or_driver call

    Leaves-close : {Q : Standing → Type 0} → Leaves Q Closed close
    Leaves-close =
        Leaves-bind (modify drop_db) (λ u. or_driver call) Leaves-drop_db
          (λ u. Leaves-Keeps _ (Keeps-or_driver call (Keeps-call Frame-standing)))

Leaves-open_replica : Leaves NoInsert NoInsert open_replica
Leaves-open_replica = record {
  saved = λ s p. ap (λ v. v.0) (Keeps-open_replica.at s);
  ends = λ s p a e. ap (λ v. v.1) (Keeps-open_replica.at s) ∙ p;
}

begun-stands :
    (env : Env) (d : Database)
    → ((begun env d).saved ≡ d.saved) × ((begun env d).in_transaction ≡ true)
unfolding begun
begun-stands env d = (ground arith, ground arith)

Leaves-begin_immediate :
    (env : Env) → Leaves NoInsert Begun (run begin_immediate (λ d. ok (begun env d)))
unfolding run change or_report
Leaves-begin_immediate env = record {
  saved = λ s p. saved s (call s) ((Keeps-call Frame-standing).at s);
  ends = λ s p. ends s p (call s) ((Keeps-call Frame-standing).at s);
}
  where
    outcome : Result DbError (Unit {0}) × Rsync → Result RunError (Unit {0}) × Rsync
    outcome r =
        let (x, s') = bind r (λ u s. effect (ok (begun env s.db)) s) in
        elim x [ ok a ↦ (ok a, s') | err e ↦ write_error (sql_failed begin_immediate e) s' ]

    saved :
        (s : Rsync) (r : Result DbError (Unit {0}) × Rsync)
        → standing r.1 ≡ standing s
        → (outcome r).1.db.saved ≡ s.db.saved
    saved s (ok u, s') e = (begun-stands env s'.db).0 ∙ ap (λ v. v.saved) e
    saved s (err x, s') e =
        ap (λ v. v.saved)
          ((Keeps-write_error {A = Unit {0}} (sql_failed begin_immediate x) Frame-standing).at s'
            ∙ e)

    ends :
        (s : Rsync)
        → NoInsert (standing s)
        → (r : Result DbError (Unit {0}) × Rsync) → standing r.1 ≡ standing s
        → (a : Unit {0}) → (outcome r).0 ≡ ok a
        → Begun (standing (outcome r).1)
    ends s p (ok u, s') e a x = ((begun-stands env s'.db).1, ap (λ v. v.has_insert) e ∙ p)
    ends s p (err y, s') e a x = absurd (write_error-fails (sql_failed begin_immediate y) s' a x)

Leaves-begin_transaction : Leaves NoInsert Begun begin_transaction
unfolding begin_transaction
Leaves-begin_transaction =
    Leaves-bind (gets (λ s. s.env)) _ (Leaves-Keeps _ (Keeps-gets (λ s. s.env)))
      Leaves-begin_immediate

Leaves-begin_sync : Leaves NoInsert Safe begin_sync
unfolding begin_sync
Leaves-begin_sync = Leaves-bind open_replica _ Leaves-open_replica (λ before.
    Leaves-bind (size_empty_file before) _ (Leaves-Keeps _ (Keeps-size_empty_file before)) (λ u.
      Leaves-bind begin_transaction (λ u. in_transaction_part before) Leaves-begin_transaction
        (λ u.
          Leaves-then (in_transaction_part before)
            (Leaves-Keeps _ (Keeps-in_transaction_part before)) Begun-Safe)))

Leaves-forget_insert :
    Leaves Closed Idle (modify (λ s. record s { kept = record s.kept { has_insert = false } }))
Leaves-forget_insert = record { saved = λ s p. refl; ends = λ s p a e. (p, refl) }

Keeps-adopt :
    (protocol pages page_bytes : ℕ)
    → Keeps {E = RunError} standing
        (modify (λ s. record s { protocol = protocol; pages = pages; page_bytes = page_bytes }))
Keeps-adopt protocol pages page_bytes = Keeps-modify _ (λ s. refl)

pub Leaves-on_begin : {P : Standing → Type 0} → Leaves P Safe on_begin
unfolding on_begin
Leaves-on_begin = Leaves-bind close_db _ Leaves-close_db (λ u.
    Leaves-bind _ _ Leaves-forget_insert (λ u.
      Leaves-bind (reading read_byte) _ (Leaves-Keeps _ (Keeps-reading _ Blind-standing)) (λ proto.
        Leaves-bind (reading read_pow2) _ (Leaves-Keeps _ (Keeps-reading _ Blind-standing))
          (λ page_bytes.
            Leaves-bind (reading read_uint32) _ (Leaves-Keeps _ (Keeps-reading _ Blind-standing))
              (λ pages.
                Leaves-bind (gets (λ s. s.protocol)) _ (Leaves-Keeps _ (Keeps-gets _))
                  (answer proto page_bytes pages))))))
  where
    start : ℕ → ℕ → ℕ → Run (Unit {0})
    start proto page_bytes pages = do
      modify (λ s. record s { protocol = proto; pages = pages; page_bytes = page_bytes })
      begin_sync

    answer :
        (proto page_bytes pages own : ℕ)
        → Leaves Idle Safe
            (if ltb own proto then writing (write_offer own) else start proto page_bytes pages)
    answer proto page_bytes pages own =
        Leaves-if (ltb own proto) _ _
          (λ e.
            Leaves-then _ (Leaves-Keeps _ (Keeps-writing (write_offer own) Frame-standing))
              Idle-Safe)
          (λ e.
            Leaves-bind _ (λ u. begin_sync) (Leaves-Keeps _ (Keeps-adopt proto pages page_bytes))
              (λ u. Leaves-from begin_sync (λ v p. p.1) Leaves-begin_sync))
