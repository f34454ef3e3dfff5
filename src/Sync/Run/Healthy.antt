-- ===== src/Sync/Run/Healthy.antt =====
-- The operations of a run where no call of the database fails.
use go_sqlite_rsync.Common.{ℕ, suc, ◌≡◌, ap, ◌∙◌, none}
use go_sqlite_rsync.Common.Act.{Act, Result, ok}
use go_sqlite_rsync.Sync.Run.{
  Rsync, Env, Database, DbError, Report, sql_failed, Statement, call, effect, change, or_report,
  run, prepare, query,
}

abbrev pub Healthy : Env → Type 0
Healthy env = (k : ℕ) → env.fails k ≡ none

-- One more call of the database.
abbrev pub tick : Rsync → Rsync
tick s = record s { db = record s.db { calls = suc s.db.calls } }

pub call-Healthy : (s : Rsync) → Healthy s.env → call s ≡ (ok tt, tick s)
unfolding call
call-Healthy s h = simp (h s.db.calls, call)

pub query-Healthy : (q : Statement) (s : Rsync) → Healthy s.env → query q s ≡ (ok tt, tick s)
unfolding query or_report
query-Healthy q s h = simp (call-Healthy s h, query, or_report)

pub prepare-Healthy : (q : Statement) (s : Rsync) → Healthy s.env → prepare q s ≡ (ok tt, tick s)
unfolding prepare or_report
prepare-Healthy q s h = simp (call-Healthy s h, prepare, or_report)

pub change-Healthy :
    (f : Database → Result DbError Database) (s : Rsync)
    → Healthy s.env
    → change f s ≡ effect (f (tick s).db) (tick s)
unfolding change
change-Healthy f s h = simp (call-Healthy s h, change)

pub or_report-ok :
    {A : Type 0} (m : Act Rsync DbError A) (report : DbError → Report) (s s' : Rsync) (a : A)
    → m s ≡ (ok a, s')
    → or_report m report s ≡ (ok a, s')
unfolding or_report
or_report-ok m report s s' a h = simp (h, or_report)

pub run-Healthy :
    (q : Statement) (f : Database → Result DbError Database) (s : Rsync) (d : Database)
    → Healthy s.env
    → f (tick s).db ≡ ok d
    → run q f s ≡ (ok tt, record s { db = d })
unfolding run
run-Healthy q f s d h e =
    or_report-ok (change f) (sql_failed q) s _ tt
      (change-Healthy f s h ∙ ap (λ r. effect r (tick s)) e)
