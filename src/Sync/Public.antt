-- ===== src/Sync/Public.antt =====
-- sqlitersync/sync.go: Origin and Replica, and the stream that checks the context.
pub mod Received
pub mod Tests
use go_sqlite_rsync.Common.{
  ℕ, Bool, true, false, Option, none, some, List, length, take, ltb, if◌then◌else◌,
}
use go_sqlite_rsync.Common.Act.{Result}
use go_sqlite_rsync.Wire.Reader.{Ending, fails}
use go_sqlite_rsync.Wire.Writer.{Sink}
use go_sqlite_rsync.Sync.Run.{Rsync, Env, Database, RunError}
use go_sqlite_rsync.Sync.Options.{Options, Stats, new_rsync, stats}
use go_sqlite_rsync.Sync.Origin.{origin_side}
use go_sqlite_rsync.Sync.Replica.{replica_side}

-- When the context is found cancelled, with which error: at a read, by the bytes that came in before,
-- and at a write, by those that went out.
pub record Context : Type 0 where
  pub at_read : Option (ℕ × ℕ)
  pub at_write : List ℕ → Option ℕ

-- The stream below a run: the bytes that will come in, how they end, and what takes those that go out.
pub record Stream : Type 0 where
  pub input : List ℕ
  pub ending : Ending
  pub sink : Sink

unfoldable pub ctx_read : Option (ℕ × ℕ) → Stream → List ℕ × Ending
ctx_read none rw = (rw.input, rw.ending)
ctx_read (some (n, e)) rw =
    if ltb (length rw.input) n then (rw.input, rw.ending) else (take n rw.input, fails e)

unfoldable pub ctx_write : (List ℕ → Option ℕ) → Sink → Sink
ctx_write cancelled sink sent chunk = elim (cancelled sent) [
  | none ↦ sink sent chunk
  | some e ↦ some (0, e)
]

unfoldable pub new_run : Env → Database → Context → Stream → Options → Rsync
new_run env db ctx rw opts =
    let (input, ending) = ctx_read ctx.at_read rw in
    new_rsync env db input ending (ctx_write ctx.at_write rw.sink) opts

unfoldable pub origin :
    Env → Database → Context → Stream → Options → Stats × Result RunError (Unit {0})
origin env db ctx rw opts = let (r, s) = origin_side (new_run env db ctx rw opts) in (stats s, r)

unfoldable pub replica : Env → Database → Context → Stream → Options → Stats × List RunError
replica env db ctx rw opts =
    let (errs, s) = replica_side (new_run env db ctx rw opts) in (stats s, errs)
