-- ===== src/Sync/Run/Keeps.antt =====
-- sqlitersync/sql.go: what the operations of a run leave as it was.
use go_sqlite_rsync.Common.{
  ℕ, suc, ◌≡◌, refl, ◌∙◌, Bool, true, false, Option, none, some, List, if◌then◌else◌,
}
use go_sqlite_rsync.Common.Act.{Act, Result, ok, err, pure, raise, ◌>>=◌, modify, gets}
use go_sqlite_rsync.Common.Act.Steps.{Moves-bind}
use go_sqlite_rsync.Wire.Reader.{Reader, Read}
use go_sqlite_rsync.Wire.Writer.{Writer, Write}
use go_sqlite_rsync.Sync.Run.{
  Rsync, RunError, Database, DbError, engine, Report, Statement, reading, writing, write_error,
  call, change, or_report, or_driver, run, prepare, query, run_return, effect, driver, sql_failed,
  prepare_failed,
}

-- `g` of the state is the same after `m`, whether or not it failed.
pub record Keeps {X E A : Type 0} (g : Rsync → X) (m : Act Rsync E A) : Type 0 where
  pub at : (s : Rsync) → g (m s).1 ≡ g s

-- `g` does not look at what is read.
pub record Blind {X : Type 0} (g : Rsync → X) : Type 0 where
  pub reader : (s : Rsync) (r : Reader) → g (record s { reader = r }) ≡ g s

-- `g` does not look at what is written, nor at how often the database was called.
pub record Frame {X : Type 0} (g : Rsync → X) : Type 0 where
  pub writer : (s : Rsync) (w : Writer) → g (record s { writer = w }) ≡ g s
  pub calls : (s : Rsync) (n : ℕ) → g (record s { db = record s.db { calls = n } }) ≡ g s

module _ {X : Type 0} {g : Rsync → X} where
  pub Keeps-bind :
      {E A B : Type 0} (m : Act Rsync E A) (k : A → Act Rsync E B)
      → Keeps g m
      → ((a : A) → Keeps g (k a))
      → Keeps g (m >>= k)
  Keeps-bind m k hm hk = record {
    at = Moves-bind {R = λ s s'. g s' ≡ g s} m k (λ a b c h h'. h' ∙ h) hm.at (λ a. (hk a).at);
  }

  pub Keeps-pure : {E A : Type 0} (a : A) → Keeps {E = E} g (pure a)
  Keeps-pure a = record { at = λ s. refl }

  pub Keeps-raise : {E A : Type 0} (e : E) → Keeps {E = E} {A = A} g (raise e)
  Keeps-raise e = record { at = λ s. refl }

  pub Keeps-gets : {E A : Type 0} (f : Rsync → A) → Keeps {E = E} g (gets f)
  Keeps-gets f = record { at = λ s. refl }

  pub Keeps-modify :
      {E : Type 0} (f : Rsync → Rsync) → ((s : Rsync) → g (f s) ≡ g s) → Keeps {E = E} g (modify f)
  Keeps-modify f h = record { at = h }

  pub Keeps-if :
      {E A : Type 0} (b : Bool) (m n : Act Rsync E A)
      → Keeps g m
      → Keeps g n
      → Keeps g (if b then m else n)
  Keeps-if true m n hm hn = hm
  Keeps-if false m n hm hn = hn

  pub Keeps-reading : {A : Type 0} (m : Read A) → Blind g → Keeps g (reading m)
  unfolding reading
  Keeps-reading m blind = record { at = λ s. blind.reader s (m s.reader).1 }

  pub Keeps-writing : (m : Write) → Frame g → Keeps g (writing m)
  unfolding writing
  Keeps-writing m frame = record { at = λ s. frame.writer s (m s.writer).1 }

  pub Keeps-write_error :
      {A : Type 0} (report : Report) → Frame g → Keeps {A = A} g (write_error report)
  unfolding write_error
  Keeps-write_error report frame = record { at = λ s. frame.writer s _ }

  pub Keeps-call : Frame g → Keeps g call
  unfolding call
  Keeps-call frame = record { at = λ s. counted s (s.env.fails s.db.calls) }
    where
      counted :
          (s : Rsync) (o : Option (List ℕ))
          → g
              (elim o as (λ x. Result DbError (Unit {0}) × Rsync) [
                | none ↦ (ok tt, record s { db = record s.db { calls = suc s.db.calls } })
                | some text ↦
                    (err (engine text), record s { db = record s.db { calls = suc s.db.calls } })
              ]).1
            ≡ g s
      counted s none = frame.calls s _
      counted s (some text) = frame.calls s _

  pub Keeps-or_report :
      {A : Type 0} (m : Act Rsync DbError A) (report : DbError → Report)
      → Frame g
      → Keeps g m
      → Keeps g (or_report m report)
  unfolding or_report
  Keeps-or_report {A} m report frame h = record { at = λ s. kept s (m s) (h.at s) }
    where
      kept :
          (s : Rsync) (r : Result DbError A × Rsync)
          → g r.1 ≡ g s
          → g
              (elim r.0 as (λ x. Result RunError A × Rsync) [
                | ok a ↦ (ok a, r.1)
                | err e ↦ write_error (report e) r.1
              ]).1
            ≡ g s
      kept s (ok a, s') e = e
      kept s (err x, s') e = (Keeps-write_error {A = A} (report x) frame).at s' ∙ e

  pub Keeps-or_driver : {A : Type 0} (m : Act Rsync DbError A) → Keeps g m → Keeps g (or_driver m)
  unfolding or_driver
  Keeps-or_driver {A} m h = record { at = λ s. kept s (m s) (h.at s) }
    where
      kept :
          (s : Rsync) (r : Result DbError A × Rsync)
          → g r.1 ≡ g s
          → g
              (elim r.0 as (λ x. Result RunError A × Rsync) [
                | ok a ↦ (ok a, r.1)
                | err e ↦ (err (driver e), r.1)
              ]).1
            ≡ g s
      kept s (ok a, s') e = e
      kept s (err x, s') e = e

  -- A statement whose effect, if it has one, `g` does not see.
  pub Keeps-change :
      (f : Database → Result DbError Database)
      → Frame g
      → ((s : Rsync) → g (effect (f s.db) s).1 ≡ g s)
      → Keeps g (change f)
  unfolding change
  Keeps-change f frame h = Keeps-bind call _ (Keeps-call frame) (λ u. record { at = h })

  pub Keeps-run :
      (q : Statement) (f : Database → Result DbError Database)
      → Frame g
      → ((s : Rsync) → g (effect (f s.db) s).1 ≡ g s)
      → Keeps g (run q f)
  unfolding run
  Keeps-run q f frame h = Keeps-or_report (change f) (sql_failed q) frame (Keeps-change f frame h)

  pub Keeps-run_ok : (q : Statement) → Frame g → Keeps g (run q ok)
  Keeps-run_ok q frame = Keeps-run q ok frame (λ s. refl)

  pub Keeps-prepare : (q : Statement) → Frame g → Keeps g (prepare q)
  unfolding prepare
  Keeps-prepare q frame = Keeps-or_report call (prepare_failed q) frame (Keeps-call frame)

  pub Keeps-query : (q : Statement) → Frame g → Keeps g (query q)
  unfolding query
  Keeps-query q frame = Keeps-or_report call (sql_failed q) frame (Keeps-call frame)

  pub Keeps-run_return :
      {A : Type 0} (q : Statement) (f : Database → A) → Frame g → Keeps g (run_return q f)
  unfolding run_return
  Keeps-run_return q f frame =
      Keeps-bind (query q) _ (Keeps-query q frame) (λ u. Keeps-gets (λ s. f s.db))

pub ruleset keeps_rules = (
  Keeps-bind, Keeps-pure, Keeps-raise, Keeps-gets, Keeps-if, Keeps-reading, Keeps-writing,
  Keeps-write_error, Keeps-call, Keeps-or_report, Keeps-or_driver, Keeps-run_ok, Keeps-prepare,
  Keeps-query, Keeps-run_return,
)
