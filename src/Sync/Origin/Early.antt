-- ===== src/Sync/Origin/Early.antt =====
-- sqlitersync/origin.go: REPLICA_READY before any REPLICA_HASH.
use go_sqlite_rsync.Common.{◌+◌, ◌≡◌, ap, ◌∙◌, Option, none, some, List, arith}
use go_sqlite_rsync.Common.Act.{Act, Result, ok, err, bind}
use go_sqlite_rsync.Common.Words.{u32}
use go_sqlite_rsync.Wire.{WireError}
use go_sqlite_rsync.Wire.Writer.{write_message}
use go_sqlite_rsync.Sync.Table.{Range, multi}
use go_sqlite_rsync.Sync.Run.{
  Rsync, Run, Report, RunError, DbError, send_error, err_msg_byte, Database, sql_failed,
  select_multi, no_such_table, reported, write_error, or_report,
}
use go_sqlite_rsync.Sync.Run.Healthy.{Healthy, tick, call-Healthy}
use go_sqlite_rsync.Sync.Origin.Loop.{Locals}
use go_sqlite_rsync.Sync.Origin.Ready.{rows_of, found, multi_rows, on_ready}

pub rows_of-Healthy :
    {A : Type 0} (f : Database → Option A) (s : Rsync)
    → Healthy s.env
    → rows_of f s ≡ (found (f (tick s).db), tick s)
unfolding rows_of
rows_of-Healthy f s h = simp (call-Healthy s h, rows_of)

pub bind-err :
    {A B : Type 0} (r : Result RunError A × Rsync) (k : A → Run B) (e : RunError)
    → r.0 ≡ err e
    → (bind r k).0 ≡ err e
bind-err (ok a, s) k e h = absurd (ground (arith, h))
bind-err (err x, s) k e h = ground (arith, h)

reports :
    {A : Type 0} (m : Act Rsync DbError A) (report : DbError → Report) (s s' : Rsync) (x : DbError)
    → m s ≡ (err x, s')
    → (e : Option WireError) × ((or_report m report s).0 ≡ err (reported (report x) e))
unfolding or_report write_error
reports m report s s' x h = (
  send_error (write_message (err_msg_byte s'.is_replica) (s'.env.render (report x)) s'.writer).0,
  simp (h, or_report, write_error),
)

pub on_ready_before_hash :
    (v : Locals) (s : Rsync)
    → Healthy s.env
    → s.db.bad_hash ≡ none
    → (e : Option WireError) × ((on_ready v s).0
        ≡ err (reported (sql_failed select_multi no_such_table) e))
unfolding on_ready
on_ready_before_hash v s h absent =
    let s1 = record s { hash_rounds = u32 (s.hash_rounds + 1) } in
    let (e, failed) =
      reports (rows_of multi_rows) (sql_failed select_multi) s1 (tick s1) no_such_table (
        rows_of-Healthy multi_rows s1 h
        ∙ ap (λ r. (found r, tick s1)) (no_rows (tick s1).db absent)) in
    (e, bind-err (or_report (rows_of multi_rows) (sql_failed select_multi) s1) _ _ failed)
  where
    no_rows : (d : Database) → d.bad_hash ≡ none → multi_rows d ≡ none
    no_rows d none_yet =
        ap (λ o. elim o as (λ x. Option (List Range)) [ none ↦ none | some t ↦ some (multi t) ])
          none_yet
