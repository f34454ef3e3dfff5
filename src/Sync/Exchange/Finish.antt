-- ===== src/Sync/Exchange/Finish.antt =====
-- sqlitersync/subdivide.go, sendHashMessages: the end of a round, and the whole call.
use go_sqlite_rsync.Common.{
  All, ℕ, ◌+◌, ◌≡◌, ◌⊎◌, inl, inr, refl, sym, ap, subst, ◌∙◌, some, List, [], ◌∷◌, ◌++◌, append-nil,
  append_assoc, arith,
}
use go_sqlite_rsync.Sync.Run.{
  DbError, driver, and_close, call, Rsync, Run, RunError, joined, query, run, send_hash,
  delete_send_hash,
}
use go_sqlite_rsync.Common.Act.{Result, ok, err, bind, ◌>>◌}
use go_sqlite_rsync.Common.Words.{u32}
use go_sqlite_rsync.Wire.{WireError, broken, replica_ready}
use go_sqlite_rsync.Wire.Writer.{Writer, write_byte, flush}
use go_sqlite_rsync.Wire.Writer.Pending.{pending}
use go_sqlite_rsync.Wire.Writer.Loop.{Wrote, whole, cut_off}
use go_sqlite_rsync.Wire.Writer.Sends.{Sends-write_byte, Sends-flush, flush-empties}
use go_sqlite_rsync.Sync.Run.Healthy.{tick, query-Healthy, prepare-Healthy, run-Healthy}
use go_sqlite_rsync.Sync.Run.Emits.{File, Outgoing, Emitted, emitted, broke_off}
use go_sqlite_rsync.Sync.Messages.{
  closed_after, closing, send_rows, send_entries, finish_round, send_hash_messages,
}
use go_sqlite_rsync.Sync.Exchange.{Entry, messages}
use go_sqlite_rsync.Sync.Exchange.Send.{Scannable, Hashed, send_entries-Emits}

-- The stream has all that `w` had accepted and then `p`, or an error came back and it has a first part.
abbrev pub Delivered : Writer → List ℕ → Result RunError (Unit {0}) × Rsync → Type 0
Delivered w p r =
    ((r.0 ≡ ok tt) × (r.1.writer.delivered ≡ pending w ++ p))
    ⊎ ((x : RunError) × (lost : List ℕ) × (r.0 ≡ err x)
        × (r.1.writer.delivered ++ lost ≡ pending w ++ p))

flush-faulted : (w : Writer) (e : ℕ) → w.fault ≡ some e → flush w ≡ (err (broken e), w)
unfolding flush
flush-faulted w e h = simp (h, flush)

Delivered-finish_round :
    {file : File} (s : Rsync)
    → Outgoing file s
    → Delivered s.writer (replica_ready ∷ []) (finish_round s)
unfolding finish_round
Delivered-finish_round s out =
    go (write_byte replica_ready s.writer)
      (Sends-write_byte replica_ready s.writer out.ready out.fits)
  where
    ended :
        Result WireError (Unit {0})
        → Result WireError (Unit {0}) × Writer
        → Result RunError (Unit {0}) × Rsync
    ended r (r', w') =
        (joined r r', record s { writer = w'; hash_rounds = u32 (s.hash_rounds + 1) })

    flushed :
        (u : Unit {0}) (w : Writer) (f : Result WireError (Unit {0}) × Writer)
        → pending w ≡ pending s.writer ++ (replica_ready ∷ [])
        → (f.0 ≡ ok tt → f.1.buf ≡ [])
        → Wrote w [] f
        → Delivered s.writer (replica_ready ∷ []) (ended (ok u) f)
    flushed u w (ok u', w') all empties (whole d h a small) = inl (
      refl,
      sym (append-nil w'.delivered)
          ∙ ap (◌++◌ w'.delivered) (sym (empties refl))
          ∙ a
          ∙ append-nil (pending w)
          ∙ all,
    )
    flushed u w (err x, w') all empties (whole d h a small) = absurd (ground (arith, d))
    flushed u w (ok u', w') all empties (cut_off e lost d h a) = absurd (ground (arith, d))
    flushed u w (err x, w') all empties (cut_off e lost d h a) =
        inr (_, lost, refl, a ∙ append-nil (pending w) ∙ all)

    go :
        (r : Result WireError (Unit {0}) × Writer)
        → Wrote s.writer (replica_ready ∷ []) r
        → Delivered s.writer (replica_ready ∷ []) (ended r.0 (flush r.1))
    go (ok u, w) (whole d h a small) =
        flushed u w (flush w) a (flush-empties w h) (Sends-flush w h small)
    go (err x, w) (whole d h a small) = absurd (ground (arith, d))
    go (ok u, w) (cut_off e lost d h a) = absurd (ground (arith, d))
    go (err x, w) (cut_off e lost d h a) =
        subst (λ f. Delivered s.writer (replica_ready ∷ []) (ended (err x) f))
          (sym (flush-faulted w e h)) (inr (_, lost, refl, a))

-- After the entries: the table is emptied and the round finished.
after_entries : Run (Unit {0})
after_entries = do
  query send_hash
  run delete_send_hash (λ d. ok (record d { send_hash_table = [] }))
  finish_round

Delivered-after_entries :
    {file : File} (s : Rsync)
    → Outgoing file s
    → Delivered s.writer (replica_ready ∷ []) (after_entries s)
unfolding after_entries
Delivered-after_entries {file} s out =
    let emptied = record (tick (tick s)).db { send_hash_table = [] } in
    let s' = record s { db = emptied } in
    let out' : Outgoing file s' = record {
      healthy = out.healthy;
      page = out.page;
      count = out.count;
      ready = out.ready;
      fits = out.fits;
    } in
    let steps : after_entries s ≡ finish_round s' = simp (
      query-Healthy send_hash s out.healthy,
      run-Healthy delete_send_hash (λ d. ok (record d { send_hash_table = [] })) (tick s) emptied
          out.healthy refl,
      after_entries,
    ) in
    subst (Delivered s.writer (replica_ready ∷ [])) (sym steps) (Delivered-finish_round s' out')

call-writer : (s : Rsync) → (call s).1.writer ≡ s.writer
unfolding call
call-writer s = ground arith

-- A deferred Close sends nothing, and may fail.
Delivered-closing :
    (w : Writer) (p : List ℕ) (m : Run (Unit {0})) (s : Rsync)
    → Delivered w p (m s)
    → Delivered w p (closing m s)
unfolding closing
Delivered-closing w p m s d =
    go (call (m s).1).0 (m s).0 (m s).1 (call (m s).1).1 (call-writer (m s).1) d
  where
    go :
        (r' : Result DbError (Unit {0})) (r : Result RunError (Unit {0})) (s1 s2 : Rsync)
        → s2.writer ≡ s1.writer
        → Delivered w p (r, s1)
        → Delivered w p (closed_after r r', s2)
    go (ok u) r s1 s2 same (inl (d, a)) = inl (d, ap (λ w. w.delivered) same ∙ a)
    go (ok u) r s1 s2 same (inr (x, lost, d, a)) =
        inr (x, lost, d, ap (λ w. w.delivered ++ lost) same ∙ a)
    go (err e) (ok u) s1 s2 same (inl (d, a)) =
        inr (driver e, [], refl, append-nil s2.writer.delivered ∙ ap (λ w. w.delivered) same ∙ a)
    go (err e) (err x) s1 s2 same (inl (d, a)) = absurd (ground (arith, d))
    go (err e) (ok u) s1 s2 same (inr (x, lost, d, a)) = absurd (ground (arith, d))
    go (err e) (err y) s1 s2 same (inr (x, lost, d, a)) =
        inr (and_close y e, lost, refl, ap (λ w. w.delivered ++ lost) same ∙ a)

Delivered-send_rows :
    (file : File) (i n : ℕ) (es : List Entry) (s : Rsync)
    → Outgoing file s
    → All Scannable s.db.send_hash_table
    → Hashed file.page s.db.send_hash_table es
    → Delivered s.writer (messages i n es ++ (replica_ready ∷ [])) (send_rows i n s)
unfolding send_rows after_entries
Delivered-send_rows file i n es s out fit hashed =
    go (send_entries i n s.db.send_hash_table s)
      (send_entries-Emits file i n s.db.send_hash_table es fit hashed s out)
  where
    ms : List ℕ
    ms = messages i n es

    shift :
        (s1 : Rsync)
        → pending s1.writer ≡ pending s.writer ++ ms
        → pending s1.writer ++ (replica_ready ∷ [])
          ≡ pending s.writer ++ (ms ++ (replica_ready ∷ []))
    shift s1 all =
        ap (λ x. x ++ (replica_ready ∷ [])) all
        ∙ append_assoc (pending s.writer) ms (replica_ready ∷ [])

    later :
        (s1 : Rsync) (r : Result RunError (Unit {0}) × Rsync)
        → pending s1.writer ≡ pending s.writer ++ ms
        → Delivered s1.writer (replica_ready ∷ []) r
        → Delivered s.writer (ms ++ (replica_ready ∷ [])) r
    later s1 r all (inl (d, a)) = inl (d, a ∙ shift s1 all)
    later s1 r all (inr (x, lost, d, a)) = inr (x, lost, d, a ∙ shift s1 all)

    go :
        (r : Result RunError (Unit {0}) × Rsync)
        → Emitted file s.writer ms r
        → Delivered s.writer (ms ++ (replica_ready ∷ [])) (bind r (λ u. after_entries))
    go (ok u, s1) (emitted d o all) = later s1 (after_entries s1) all (Delivered-after_entries s1 o)
    go (ok u, s1) (broke_off e lost d a) = absurd (ground (arith, d))
    go (err x, s1) (emitted d o all) = absurd (ground (arith, d))
    go (err x, s1) (broke_off e lost d a) = inr (
      x,
      lost ++ (replica_ready ∷ []),
      refl,
      sym (append_assoc s1.writer.delivered lost (replica_ready ∷ []))
          ∙ ap (λ x. x ++ (replica_ready ∷ [])) a
          ∙ append_assoc (pending s.writer) ms (replica_ready ∷ []),
    )

-- Where the pages of all entries of sendHash exist, their numbers fit 32 bits and the database does not
-- fail, sendHashMessages delivers what was accepted before, the messages of the entries and
-- REPLICA_READY, and returns no error; or it returns an error, and the stream has a first part of these
-- bytes and nothing else.
pub send_hash_messages_delivers :
    (file : File) (i n : ℕ) (es : List Entry) (s : Rsync)
    → Outgoing file s
    → All Scannable s.db.send_hash_table
    → Hashed file.page s.db.send_hash_table es
    → Delivered s.writer (messages i n es ++ (replica_ready ∷ [])) (send_hash_messages i n s)
unfolding send_hash_messages
send_hash_messages_delivers file i n es s out fit hashed =
    let ms = messages i n es ++ (replica_ready ∷ []) in
    let rows = query send_hash >> closing (send_rows i n) in
    let s2 = tick (tick s) in
    let out' : Outgoing file s2 = record {
      healthy = out.healthy;
      page = out.page;
      count = out.count;
      ready = out.ready;
      fits = out.fits;
    } in
    subst (Delivered s.writer ms)
      (ap (λ r. bind r (λ u. closing rows)) (sym (prepare-Healthy send_hash s out.healthy)))
      (Delivered-closing s.writer ms rows (tick s) (
        subst (Delivered s.writer ms)
          (ap (λ r. bind r (λ u. closing (send_rows i n)))
            (sym (query-Healthy send_hash (tick s) out.healthy)))
          (Delivered-closing s.writer ms (send_rows i n) s2
            (Delivered-send_rows file i n es s2 out' fit hashed))))
