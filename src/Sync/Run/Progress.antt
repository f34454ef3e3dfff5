-- ===== src/Sync/Run/Progress.antt =====
-- sqlitersync/sql.go: the input before and after the operations of a run.
use go_sqlite_rsync.Common.{
  ◌≡◌, ◌≢◌, refl, sym, subst, ◌∙◌, Bool, true, false, if◌then◌else◌, arith,
}
use go_sqlite_rsync.Common.Act.{Act, Result, ok, err, pure, raise, ◌>>=◌, modify, gets}
use go_sqlite_rsync.Common.Act.Steps.{Never, Moves, Never-bind, Moves-bind}
use go_sqlite_rsync.Wire.{WireError}
use go_sqlite_rsync.Wire.Reader.{Read}
use go_sqlite_rsync.Wire.Writer.{Write}
use go_sqlite_rsync.Sync.Run.Reads.{
  Shorter, Shorter-refl, Shorter-trans, Shorter-same, Moves-read_byte, Moves-read_uint32,
  Moves-read_pow2, Moves-read_bytes, Moves-read_message,
}
use go_sqlite_rsync.Sync.Run.{
  Rsync, Run, RunError, out_of_fuel, Database, DbError, Report, Statement, reading, writing,
  write_error, call, change, or_report, or_driver, run, prepare, query, run_return, wire_result,
  effect, driver, sql_failed, prepare_failed,
}

-- An action that neither lengthens the input nor ends for want of fuel.
pub record Progress {A : Type 0} (m : Run A) : Type 0 where
  pub never : Never out_of_fuel m
  pub shorter : Moves (λ s s'. Shorter s.reader s'.reader) m

pub Progress-bind :
    {A B : Type 0} (m : Run A) (k : A → Run B)
    → Progress m
    → ((a : A) → Progress (k a))
    → Progress (m >>= k)
Progress-bind m k pm pk = record {
  never = Never-bind m k pm.never (λ a. (pk a).never);
  shorter =
      Moves-bind m k (λ a b c. Shorter-trans a.reader b.reader c.reader) pm.shorter
        (λ a. (pk a).shorter);
}

pub Progress-pure : {A : Type 0} (a : A) → Progress (pure a)
Progress-pure a = record { never = λ s e. ground (arith, e); shorter = λ s. omega arith }

pub Progress-gets : {A : Type 0} (f : Rsync → A) → Progress (gets f)
Progress-gets f = record { never = λ s e. ground (arith, e); shorter = λ s. omega arith }

pub Progress-modify :
    (f : Rsync → Rsync) → ((s : Rsync) → (f s).reader ≡ s.reader) → Progress (modify f)
Progress-modify f h = record {
  never = λ s e. ground (arith, e);
  shorter = λ s. subst (Shorter s.reader) (sym (h s)) (Shorter-refl s.reader);
}

pub Progress-raise : {A : Type 0} (e : RunError) → e ≢ out_of_fuel → Progress (raise {A = A} e)
Progress-raise e h = record { never = λ s x. ground (arith, h, x); shorter = λ s. omega arith }

pub Progress-if :
    {A : Type 0} (b : Bool) (m n : Run A) → Progress m → Progress n → Progress (if b then m else n)
Progress-if true m n pm pn = pm
Progress-if false m n pm pn = pn

pub Progress-reading : {A : Type 0} (m : Read A) → Moves Shorter m → Progress (reading m)
unfolding reading
Progress-reading m h = record { never = λ s e. result (m s.reader).0 e; shorter = λ s. h s.reader }
  where
    result : {A : Type 0} (r : Result WireError A) → wire_result r ≢ err out_of_fuel
    result (ok a) e = ground (arith, e)
    result (err x) e = ground (arith, e)

pub Progress-writing : (m : Write) → Progress (writing m)
unfolding writing
Progress-writing m = record { never = λ s e. result (m s.writer).0 e; shorter = λ s. omega arith }
  where
    result : (r : Result WireError (Unit {0})) → wire_result r ≢ err out_of_fuel
    result (ok a) e = ground (arith, e)
    result (err x) e = ground (arith, e)

pub Progress-write_error : {A : Type 0} (report : Report) → Progress (write_error {A = A} report)
unfolding write_error
Progress-write_error report = record {
  never = λ s e. ground (arith, e);
  shorter = λ s. omega arith;
}

-- A use of the database leaves the reader as it is.
pub record Quiet {A : Type 0} (m : Act Rsync DbError A) : Type 0 where
  pub at : (s : Rsync) → (m s).1.reader ≡ s.reader

pub Quiet-call : Quiet call
unfolding call
Quiet-call = record { at = λ s. ground arith }

pub Quiet-bind :
    {A B : Type 0} (m : Act Rsync DbError A) (k : A → Act Rsync DbError B)
    → Quiet m
    → ((a : A) → Quiet (k a))
    → Quiet (m >>= k)
Quiet-bind m k qm qk = record {
  at =
      Moves-bind {R = λ s s'. s'.reader ≡ s.reader} m k (λ a b c h h'. h' ∙ h) qm.at
        (λ a. (qk a).at);
}

pub Quiet-change : (f : Database → Result DbError Database) → Quiet (change f)
unfolding change
Quiet-change f = Quiet-bind call _ Quiet-call (λ u. record { at = λ s. kept (f s.db) s })
  where
    kept : (r : Result DbError Database) (s : Rsync) → (effect r s).1.reader ≡ s.reader
    kept (ok d) s = refl
    kept (err e) s = refl

pub Progress-or_report :
    {A : Type 0} (m : Act Rsync DbError A) (report : DbError → Report)
    → Quiet m
    → Progress (or_report m report)
unfolding or_report
Progress-or_report {A} m report q = record {
  never = λ s. never (m s);
  shorter = λ s. shorter s (m s) (q.at s);
}
  where
    outcome : Result DbError A × Rsync → Result RunError A × Rsync
    outcome (r, s') = elim r [ ok a ↦ (ok a, s') | err e ↦ write_error (report e) s' ]

    never : (r : Result DbError A × Rsync) → (outcome r).0 ≢ err out_of_fuel
    never (ok a, s') e = ground (arith, e)
    never (err x, s') e = (Progress-write_error (report x)).never s' e

    shorter :
        (s : Rsync) (r : Result DbError A × Rsync)
        → r.1.reader ≡ s.reader
        → Shorter s.reader (outcome r).1.reader
    shorter s (ok a, s') h = Shorter-same s s'.reader h
    shorter s (err x, s') h =
        Shorter-trans s.reader s'.reader _ (Shorter-same s s'.reader h)
          ((Progress-write_error {A = A} (report x)).shorter s')

pub Progress-or_driver : {A : Type 0} (m : Act Rsync DbError A) → Quiet m → Progress (or_driver m)
unfolding or_driver
Progress-or_driver {A} m q = record {
  never = λ s. never (m s);
  shorter = λ s. shorter s (m s) (q.at s);
}
  where
    outcome : Result DbError A × Rsync → Result RunError A × Rsync
    outcome (r, s') = elim r [ ok a ↦ (ok a, s') | err e ↦ (err (driver e), s') ]

    never : (r : Result DbError A × Rsync) → (outcome r).0 ≢ err out_of_fuel
    never (ok a, s') e = ground (arith, e)
    never (err x, s') e = ground (arith, e)

    shorter :
        (s : Rsync) (r : Result DbError A × Rsync)
        → r.1.reader ≡ s.reader
        → Shorter s.reader (outcome r).1.reader
    shorter s (ok a, s') h = Shorter-same s s'.reader h
    shorter s (err x, s') h = Shorter-same s s'.reader h

pub Progress-run : (q : Statement) (f : Database → Result DbError Database) → Progress (run q f)
unfolding run
Progress-run q f = Progress-or_report (change f) (sql_failed q) (Quiet-change f)

pub Progress-prepare : (q : Statement) → Progress (prepare q)
unfolding prepare
Progress-prepare q = Progress-or_report call (prepare_failed q) Quiet-call

pub Progress-query : (q : Statement) → Progress (query q)
unfolding query
Progress-query q = Progress-or_report call (sql_failed q) Quiet-call

pub Progress-run_return :
    {A : Type 0} (q : Statement) (f : Database → A) → Progress (run_return q f)
unfolding run_return
Progress-run_return q f =
    Progress-bind (query q) _ (Progress-query q) (λ u. Progress-gets (λ s. f s.db))

pub ruleset progress_rules = (
  Progress-bind, Progress-pure, Progress-gets, Progress-raise, Progress-if, Progress-reading,
  Progress-writing, Progress-write_error, Progress-or_report, Progress-or_driver, Progress-run,
  Progress-prepare, Progress-query, Progress-run_return, Quiet-call, Quiet-change, Moves-read_byte,
  Moves-read_uint32, Moves-read_pow2, Moves-read_bytes, Moves-read_message,
)
