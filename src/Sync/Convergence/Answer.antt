-- ===== src/Sync/Convergence/Answer.antt =====
-- sqlitersync/origin.go: the answer to a round after which no range of several pages is left.
use go_sqlite_rsync.Common.{
  ℕ, ◌+◌, ◌≡◌, inl, inr, refl, sym, ap, ◌∙◌, Option, none, some, List, [], ◌++◌, append-nil, arith,
}
use go_sqlite_rsync.Common.Act.{Result, ok, err, bind, pure, ◌>>◌}
use go_sqlite_rsync.Common.Words.{u32}
use go_sqlite_rsync.Wire.{WireError}
use go_sqlite_rsync.Wire.Writer.{Writer, flush}
use go_sqlite_rsync.Wire.Writer.Pending.{pending}
use go_sqlite_rsync.Wire.Writer.Sends.{Sends-flush, flush-empties}
use go_sqlite_rsync.Sync.Table.{Range, Table, multi}
use go_sqlite_rsync.Sync.Subdivide.Tiles.{KeysBelow}
use go_sqlite_rsync.Sync.Run.{
  Rsync, RunError, Database, or_report, select_multi, sql_failed, writing, wire_result,
}
use go_sqlite_rsync.Sync.Run.Healthy.{Healthy, tick, query-Healthy, or_report-ok}
use go_sqlite_rsync.Sync.Run.Emits.{
  File, Outgoing, Emitted, emitted, broke_off, Emits-writing, or_driver-Healthy,
}
use go_sqlite_rsync.Sync.Exchange.Finish.{Delivered}
use go_sqlite_rsync.Sync.Origin.Early.{rows_of-Healthy}
use go_sqlite_rsync.Sync.Origin.Frames.{page_frames, txn_frame}
use go_sqlite_rsync.Sync.Origin.Transfer.{file_of, resend, transfer-Emits}
use go_sqlite_rsync.Sync.Origin.Loop.{Locals}
use go_sqlite_rsync.Sync.Origin.Ready.{
  found, multi_rows, rows_of, page_rows, send_details, after_details, transfer, on_ready,
}

-- The answer: the pages and the end.
abbrev pub answer_bytes : Locals → Rsync → Table → List ℕ
answer_bytes v s t = page_frames (page_rows s.db.page (resend v s.pages t)) ++ txn_frame s.pages

found_rows :
    (t : Table) (d : Database) → d.bad_hash ≡ some t → multi t ≡ [] → found (multi_rows d) ≡ ok []
found_rows t d there single =
    ap (λ o. found (elim o as (λ x. Option (List Range)) [ none ↦ none | some t ↦ some (multi t) ]))
      there
    ∙ ap ok single

pub on_ready-transfer :
    (v : Locals) (s : Rsync) (t : Table)
    → Healthy s.env
    → s.db.bad_hash ≡ some t
    → multi t ≡ []
    → on_ready v s
      ≡ (transfer v >> (writing flush >> pure v))
          (tick (tick (tick (record s { hash_rounds = u32 (s.hash_rounds + 1) }))))
unfolding on_ready send_details after_details
on_ready-transfer v s t h there single =
    let s1 = record s { hash_rounds = u32 (s.hash_rounds + 1) } in
    let read : or_report (rows_of multi_rows) (sql_failed select_multi) s1 ≡ (ok [], tick s1) =
      or_report-ok (rows_of multi_rows) (sql_failed select_multi) s1 (tick s1) [] (
        rows_of-Healthy multi_rows s1 h
        ∙ ap (λ r. (r, tick s1)) (found_rows t (tick s1).db there single)) in
    simp (
      read,
      query-Healthy select_multi (tick s1) h,
      or_driver-Healthy (tick (tick s1)) h,
      on_ready,
      send_details,
      after_details,
    )

-- The flush at the end of a round hands all bytes down, or fails.
flushed :
    {file : File} (w : Writer) (p : List ℕ) (r : Result RunError (Unit {0}) × Rsync)
    → Emitted file w p r
    → Delivered w p (bind r (λ u. writing flush))
unfolding writing
flushed {file} w p (ok u, s) (emitted d out all) =
    go (flush s.writer) (Emits-writing flush [] Sends-flush s out)
      (flush-empties s.writer out.ready)
  where
    go :
        (f : Result WireError (Unit {0}) × Writer)
        → Emitted file s.writer [] (wire_result f.0, record s { writer = f.1 })
        → (f.0 ≡ ok tt → f.1.buf ≡ [])
        → Delivered w p (wire_result f.0, record s { writer = f.1 })
    go (ok x, w') (emitted d' out' all') empties = inl (
      refl,
      sym (append-nil w'.delivered)
          ∙ ap (◌++◌ w'.delivered) (sym (empties refl))
          ∙ all'
          ∙ append-nil (pending s.writer)
          ∙ all,
    )
    go (err x, w') (emitted d' out' all') empties = absurd (ground (arith, d'))
    go (ok x, w') (broke_off e lost d' a) empties = absurd (ground (arith, d'))
    go (err x, w') (broke_off e lost d' a) empties =
        inr (_, lost, refl, a ∙ append-nil (pending s.writer) ∙ all)
flushed w p (ok u, s) (broke_off e lost d a) = absurd (ground (arith, d))
flushed w p (err x, s) (emitted d out all) = absurd (ground (arith, d))
flushed w p (err x, s) (broke_off e lost d a) = inr (x, lost, refl, a)

-- REPLICA_READY, where badHash has single pages only: the answer is delivered, or an error comes back
-- and a first part of it is.
pub on_ready-Delivered :
    (v : Locals) (s : Rsync) (t : Table)
    → Outgoing (file_of s) s
    → s.db.bad_hash ≡ some t
    → multi t ≡ []
    → KeysBelow v.mx_hash t
    → Delivered s.writer (answer_bytes v s t) (
        let s' = tick (tick (tick (record s { hash_rounds = u32 (s.hash_rounds + 1) }))) in
        (transfer v >> writing flush) s')
on_ready-Delivered v s t out there single below =
    let s' = tick (tick (tick (record s { hash_rounds = u32 (s.hash_rounds + 1) }))) in
    flushed s.writer (answer_bytes v s t) (transfer v s') (
      transfer-Emits v s' t
        (record {
          healthy = out.healthy;
          page = refl;
          count = refl;
          ready = out.ready;
          fits = out.fits;
        })
        there below)
