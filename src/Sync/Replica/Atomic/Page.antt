-- ===== src/Sync/Replica/Atomic/Page.antt =====
-- sqlitersync/replica.go, ORIGIN_PAGE: a page is written within the transaction.
use go_sqlite_rsync.Common.{
  ℕ, ◌+◌, ◌≡◌, ◌≢◌, refl, sym, ap, subst, ◌∙◌, Bool, true, false, Option, none, some, List, ltb,
  ◌==◌, if◌then◌else◌, arith,
}
use go_sqlite_rsync.Common.Act.{Result, ok, err, bind, pure, raise, ◌>>◌, modify, gets}
use go_sqlite_rsync.Common.Int.{pos}
use go_sqlite_rsync.Common.Words.{u32}
use go_sqlite_rsync.Wire.Reader.{read_uint32, read_bytes}
use go_sqlite_rsync.Sync.Run.{
  Rsync, Run, RunError, Database, DbError, bad_page, Report, write_error, nil_pointer, insert_page,
  insert_failed, call, or_report, change, effect, prepare, reading,
}
use go_sqlite_rsync.Sync.Run.Keeps.{
  Keeps, keeps_rules, Keeps-prepare, Keeps-reading, Keeps-gets, Keeps-modify, Keeps-pure,
  Keeps-call, Keeps-write_error,
}
use go_sqlite_rsync.Sync.Replica.File.{store_page, settled, committed, put_page}
use go_sqlite_rsync.Sync.Replica.Begin.{with_db}
use go_sqlite_rsync.Sync.Replica.Page.{keep_wal, or_panic, prepare_insert, insert_received, on_page}
use go_sqlite_rsync.Sync.Replica.Untouched.{Standing, standing, Frame-standing, Blind-standing}
use go_sqlite_rsync.Sync.Replica.Atomic.{
  Leaves, Leaves-Keeps, Leaves-bind, Leaves-if, Leaves-raise, Leaves-then, Leaves-from, Leaves-gets,
  Safe, Writing, Writing-Safe,
}

-- With pIns, the run writes within the transaction.
note_insert : Run (Unit {0})
note_insert =
    modify (λ s. record s { kept = record s.kept { has_insert = true; closes_insert = true } })

Leaves-note_insert : Leaves Writing Writing note_insert
unfolding note_insert
Leaves-note_insert = record {
  saved = λ s p. refl;
  ends = λ s p a e. record { in_transaction = p.in_transaction; db_open = p.db_open };
}

pub Leaves-with_db :
    (m : Run (Unit {0})) → Leaves Writing Writing m → Leaves Safe Writing (with_db m)
Leaves-with_db m h =
    Leaves-gets (λ v. v.db_open) (λ b. if b then m else raise nil_pointer)
      (λ b.
        Leaves-if b m (raise nil_pointer) (λ e. Leaves-from m (λ v p. opened v p.0 (p.1 ∙ e)) h)
          (λ e. Leaves-raise nil_pointer))
  where
    opened : (v : Standing) → Safe v → v.db_open ≡ true → Writing v
    opened v p e = record { in_transaction = p.in_transaction e; db_open = e }

Leaves-prepare_insert : Leaves Safe Writing prepare_insert
unfolding prepare_insert note_insert
Leaves-prepare_insert =
    Leaves-gets (λ v. v.has_insert) (λ b. if b then pure tt else new)
      (λ b.
        Leaves-if b (pure tt) new
          (λ e.
            Leaves-from (pure tt) (λ v p. ready v p.0 (p.1 ∙ e))
              (Leaves-Keeps (pure tt) (Keeps-pure tt)))
          (λ e. Leaves-from new (λ v p. p.0) Leaves-new))
  where
    new : Run (Unit {0})
    new = with_db (prepare insert_page) >> note_insert

    Leaves-new : Leaves Safe Writing new
    Leaves-new =
        Leaves-bind (with_db (prepare insert_page)) (λ u. note_insert)
          (Leaves-with_db (prepare insert_page)
            (Leaves-Keeps (prepare insert_page) (Keeps-prepare insert_page Frame-standing)))
          (λ u. Leaves-note_insert)

    ready : (v : Standing) → Safe v → v.has_insert ≡ true → Writing v
    ready v p e = record { in_transaction = p.in_transaction (p.db_open e); db_open = p.db_open e }

-- In a transaction, a page does not reach the disk.
store_page-within :
    (s : Rsync) (pgno : ℕ) (page : List ℕ)
    → s.db.in_transaction ≡ true
    → standing (effect (store_page pgno page s.db) s).1 ≡ standing s
unfolding store_page settled
store_page-within s pgno page h = choose (pgno == 0)
  where
    stored_page : Database
    stored_page = record s.db {
      page = put_page pgno page s.db.page;
      file_page_count = if ltb s.db.file_page_count pgno then pgno else s.db.file_page_count;
      changed = true;
    }

    choose :
        (b : Bool)
        → standing (effect (if b then err bad_page else ok (settled stored_page)) s).1 ≡ standing s
    choose true = refl
    choose false =
        ap (λ b. standing (record s { db = if b then stored_page else committed stored_page })) h

pub write_error-fails :
    {A : Type 0} (report : Report) (s : Rsync) (a : A) → (write_error report s).0 ≢ ok a
unfolding write_error
write_error-fails report s a e = ground (arith, e)

Leaves-insert_received :
    (pgno : ℕ) (page : List ℕ) → Leaves Writing Writing (insert_received pgno page)
unfolding insert_received change or_report
Leaves-insert_received pgno page = record {
  saved = λ s p. saved s p (call s) ((Keeps-call Frame-standing).at s);
  ends = λ s p. ends s p (call s) ((Keeps-call Frame-standing).at s);
}
  where
    told : Result DbError (Unit {0}) × Rsync → Result RunError (Unit {0}) × Rsync
    told (x, s') = elim x [ ok a ↦ (ok a, s') | err e ↦ write_error (insert_failed pgno e) s' ]

    outcome : Result DbError (Unit {0}) × Rsync → Result RunError (Unit {0}) × Rsync
    outcome r = told (bind r (λ u s. effect (store_page pgno page s.db) s))

    told-standing : (r : Result DbError (Unit {0}) × Rsync) → standing (told r).1 ≡ standing r.1
    told-standing (ok u, s') = refl
    told-standing (err x, s') =
        (Keeps-write_error {A = Unit {0}} (insert_failed pgno x) Frame-standing).at s'

    outcome-standing :
        (s : Rsync)
        → Writing (standing s)
        → (r : Result DbError (Unit {0}) × Rsync) → standing r.1 ≡ standing s
        → standing (outcome r).1 ≡ standing s
    outcome-standing s p (ok u, s') e =
        told-standing (effect (store_page pgno page s'.db) s')
        ∙ store_page-within s' pgno page (ap (λ v. v.in_transaction) e ∙ p.in_transaction)
        ∙ e
    outcome-standing s p (err x, s') e = told-standing (err x, s') ∙ e

    saved :
        (s : Rsync)
        → Writing (standing s)
        → (r : Result DbError (Unit {0}) × Rsync) → standing r.1 ≡ standing s
        → (outcome r).1.db.saved ≡ s.db.saved
    saved s p r e = ap (λ v. v.saved) (outcome-standing s p r e)

    ends :
        (s : Rsync)
        → Writing (standing s)
        → (r : Result DbError (Unit {0}) × Rsync) → standing r.1 ≡ standing s
        → (a : Unit {0}) → (outcome r).0 ≡ ok a
        → Writing (standing (outcome r).1)
    ends s p r e a x = subst Writing (sym (outcome-standing s p r e)) p

Keeps-count_page :
    Keeps {E = RunError} standing
      (modify (λ s. record s { page_updates = u32 (s.page_updates + 1) }))
Keeps-count_page = Keeps-modify _ (λ s. refl)

Keeps-or_panic : (page : Option (List ℕ)) → Keeps standing (or_panic page)
Keeps-or_panic none = search keeps_rules
Keeps-or_panic (some page) = search keeps_rules

-- The page is counted and written.
stored : ℕ → List ℕ → Run (Unit {0})
stored pgno page = do
  modify (λ s. record s { page_updates = u32 (s.page_updates + 1) })
  insert_received pgno page

Leaves-stored : (pgno : ℕ) (page : List ℕ) → Leaves Writing Safe (stored pgno page)
unfolding stored
Leaves-stored pgno page =
    Leaves-bind _ (λ u. insert_received pgno page) (Leaves-Keeps _ Keeps-count_page)
      (λ u. Leaves-then (insert_received pgno page) (Leaves-insert_received pgno page) Writing-Safe)

pub Leaves-on_page : Leaves Safe Safe on_page
unfolding on_page stored
Leaves-on_page =
    Leaves-bind (reading read_uint32) _ (Leaves-Keeps _ (Keeps-reading read_uint32 Blind-standing))
      (λ pgno. Leaves-bind prepare_insert _ Leaves-prepare_insert (λ u.
        Leaves-bind (gets (λ s. s.page_bytes)) _ (Leaves-Keeps _ (Keeps-gets _)) (λ n.
          Leaves-bind (reading (read_bytes (pos n))) _
            (Leaves-Keeps _ (Keeps-reading (read_bytes (pos n)) Blind-standing))
            (λ bytes.
              Leaves-bind (gets (λ s. s.kept.j_mode)) _ (Leaves-Keeps _ (Keeps-gets _)) (λ j.
                Leaves-bind (or_panic (keep_wal pgno j bytes)) (stored pgno)
                  (Leaves-Keeps _ (Keeps-or_panic (keep_wal pgno j bytes)))
                  (Leaves-stored pgno))))))
