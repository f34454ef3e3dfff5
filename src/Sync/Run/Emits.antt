-- ===== src/Sync/Run/Emits.antt =====
-- What a run sends, put together from the writer's operations, where the database does not fail.
use go_sqlite_rsync.Common.{ℕ, ◌≡◌, sym, ap, subst, ◌∙◌, none, List, ◌++◌, append_assoc, arith}
use go_sqlite_rsync.Common.Act.{Result, ok, err, bind, ◌>>◌}
use go_sqlite_rsync.Wire.{WireError, broken}
use go_sqlite_rsync.Wire.Writer.{Writer, Write}
use go_sqlite_rsync.Wire.Writer.Pending.{pending, Fits}
use go_sqlite_rsync.Wire.Writer.Loop.{Wrote, whole, cut_off}
use go_sqlite_rsync.Wire.Writer.Sends.{Sends}
use go_sqlite_rsync.Sync.PageHash.{Pages}
use go_sqlite_rsync.Sync.Run.{
  call, or_driver, Rsync, Run, RunError, wire, wire_result, writing, query, Statement,
}
use go_sqlite_rsync.Sync.Run.Healthy.{Healthy, tick, call-Healthy, query-Healthy}

-- The pages of a file, and how many the run takes it to have.
pub record File : Type 0 where
  pub page : Pages
  pub count : ℕ

-- A run on a file, whose database and stream have not failed.
pub record Outgoing (file : File) (s : Rsync) : Type 0 where
  pub healthy : Healthy s.env
  pub page : s.db.page ≡ file.page
  pub count : s.pages ≡ file.count
  pub ready : s.writer.fault ≡ none
  pub fits : Fits s.writer

-- The writer accepted `p` after what `w` had accepted, or the stream broke and has a first part.
pub data Emitted (file : File) (w : Writer) (p : List ℕ) (r : Result RunError (Unit {0}) × Rsync)
    : Type 0 where
  emitted :
      r.0 ≡ ok tt → Outgoing file r.1 → pending r.1.writer ≡ pending w ++ p → Emitted file w p r
  broke_off :
      (e : ℕ) (lost : List ℕ)
      → r.0 ≡ err (wire (broken e))
      → r.1.writer.delivered ++ lost ≡ pending w ++ p
      → Emitted file w p r

abbrev pub Emits : File → Run (Unit {0}) → List ℕ → Type 0
Emits file m p = (s : Rsync) → Outgoing file s → Emitted file s.writer p (m s)

pub Emits-then :
    {file : File} (m k : Run (Unit {0})) (p q : List ℕ)
    → Emits file m p
    → Emits file k q
    → Emits file (m >> k) (p ++ q)
Emits-then {file} m k p q em ek s out = go (m s) (em s out)
  where
    after :
        (s' : Rsync) (r : Result RunError (Unit {0}) × Rsync)
        → pending s'.writer ≡ pending s.writer ++ p
        → Emitted file s'.writer q r
        → Emitted file s.writer (p ++ q) r
    after s' r all (emitted d o a) =
        emitted d o (a ∙ ap (λ x. x ++ q) all ∙ append_assoc (pending s.writer) p q)
    after s' r all (broke_off e lost d a) =
        broke_off e lost d (a ∙ ap (λ x. x ++ q) all ∙ append_assoc (pending s.writer) p q)

    go :
        (r : Result RunError (Unit {0}) × Rsync)
        → Emitted file s.writer p r
        → Emitted file s.writer (p ++ q) (bind r (λ u. k))
    go (ok u, s') (emitted d o all) = after s' (k s') all (ek s' o)
    go (ok u, s') (broke_off e lost d a) = absurd (ground (arith, d))
    go (err x, s') (emitted d o all) = absurd (ground (arith, d))
    go (err x, s') (broke_off e lost d a) = broke_off e (lost ++ q) d (
        sym (append_assoc s'.writer.delivered lost q)
        ∙ ap (λ x. x ++ q) a
        ∙ append_assoc (pending s.writer) p q)

pub Emits-writing : {file : File} (m : Write) (p : List ℕ) → Sends m p → Emits file (writing m) p
unfolding writing
Emits-writing {file} m p sends s out = go (m s.writer) (sends s.writer out.ready out.fits)
  where
    go :
        (r : Result WireError (Unit {0}) × Writer)
        → Wrote s.writer p r
        → Emitted file s.writer p (wire_result r.0, record s { writer = r.1 })
    go (x, w) (whole d h a f) =
        emitted (ap wire_result d)
          (record {
            healthy = out.healthy;
            page = out.page;
            count = out.count;
            ready = h;
            fits = f;
          })
          a
    go (x, w) (cut_off e lost d h a) = broke_off e lost (ap wire_result d) a

-- A call of the database sends nothing.
pub Emits-query :
    {file : File} (q : Statement) (k : Run (Unit {0})) (p : List ℕ)
    → Emits file k p
    → Emits file (query q >> k) p
Emits-query {file} q k p ek s out =
    subst (Emitted file s.writer p)
      (ap (λ r. bind r (λ u. k)) (sym (query-Healthy q s out.healthy)))
      (ek (tick s) (record {
        healthy = out.healthy;
        page = out.page;
        count = out.count;
        ready = out.ready;
        fits = out.fits;
      }))

pub or_driver-Healthy : (s : Rsync) → Healthy s.env → or_driver call s ≡ (ok tt, tick s)
unfolding or_driver
or_driver-Healthy s h = simp (call-Healthy s h, or_driver)

pub Emits-driver :
    {file : File} (k : Run (Unit {0})) (p : List ℕ)
    → Emits file k p
    → Emits file (or_driver call >> k) p
Emits-driver {file} k p ek s out =
    subst (Emitted file s.writer p)
      (ap (λ r. bind r (λ u. k)) (sym (or_driver-Healthy s out.healthy)))
      (ek (tick s) (record {
        healthy = out.healthy;
        page = out.page;
        count = out.count;
        ready = out.ready;
        fits = out.fits;
      }))
