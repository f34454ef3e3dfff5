-- ===== src/Sync/Convergence/Sends.antt =====
-- sqlitersync/origin.go: the message loop on a round of single pages and what it sends at its end.
use go_sqlite_rsync.Common.{
  ℕ, zero, suc, ◌+◌, ◌-◌, ◌^◌, ◌≤◌, ◌<◌, ◌≡◌, refl, sym, ap, ap₂, subst, ◌∙◌, none, some, inl, inr,
  true, false, List, [], ◌∷◌, ◌++◌, length, arith,
}
use go_sqlite_rsync.Wire.{replica_ready}
use go_sqlite_rsync.Wire.Writer.Pending.{Fits}
use go_sqlite_rsync.Sync.Table.{Table}
use go_sqlite_rsync.Sync.PageHash.{Pages}
use go_sqlite_rsync.Sync.Run.{Rsync}
use go_sqlite_rsync.Sync.Origin.{origin_loop, message_loop}
use go_sqlite_rsync.Sync.Origin.Loop.{Locals, first_locals}
use go_sqlite_rsync.Sync.Origin.Passes.{passes, origin_loop-passes}
use go_sqlite_rsync.Sync.Origin.Ready.{page_rows, tail_rows}
use go_sqlite_rsync.Sync.Origin.Frames.{page_frames, txn_frame}
use go_sqlite_rsync.Sync.Origin.Transfer.{resend}
use go_sqlite_rsync.Sync.Exchange.{Entry, messages, mismatches, mx_after}
use go_sqlite_rsync.Sync.Exchange.Send.{Hashed}
use go_sqlite_rsync.Sync.Exchange.Receive.{Fixed, Awaits}
use go_sqlite_rsync.Sync.Exchange.Round.{messages-Passes}
use go_sqlite_rsync.Sync.Convergence.Answer.{answer_bytes}
use go_sqlite_rsync.Sync.Convergence.Loop.{Sent, passes-input, round_end}
use go_sqlite_rsync.Sync.Convergence.Singles.{
  mismatches-KeysBelow, mismatches-single, mx_after-end, Hashed-Rising,
}

-- The rows of badHash when the origin, whose lock byte page is `lock`, has the hashes `es` of `m` pages.
abbrev pub final_rows : Pages → ℕ → ℕ → ℕ → List Entry → Table
final_rows origin n lock m es =
    resend (record (first_locals lock) { mx_hash = m + 1 }) n (mismatches origin es)

-- What the origin sends then.
abbrev pub sync_bytes : Pages → ℕ → ℕ → ℕ → List Entry → List ℕ
sync_bytes origin n lock m es =
    page_frames (page_rows origin (final_rows origin n lock m es)) ++ txn_frame n

resend-cong :
    (v w : Locals) (n : ℕ) (t : Table)
    → v.lock_byte_page ≡ w.lock_byte_page
    → v.mx_hash ≡ w.mx_hash
    → resend v n t ≡ resend w n t
resend-cong v w n t lock mx =
    ap₂ (λ l x. resend (record w { lock_byte_page = l; mx_hash = x }) n t) lock mx

bad_hash-made :
    (o : Fixed) (t : Table) (i n mx : ℕ) (rest : List ℕ) (v : Locals) (s : Rsync)
    → Awaits o t i n (suc mx) rest v s
    → s.db.bad_hash ≡ some t
bad_hash-made o t i n mx rest v s a = elim a.made [
  | inl made ↦
      subst
        (λ b. elim b as (λ x. Type 0) [
          | true ↦ s.db.bad_hash ≡ some t
          | false ↦ (s.db.bad_hash ≡ none) × (t ≡ [])
        ])
        made a.ledger
  | inr none_yet ↦ absurd (ground (arith, none_yet))
]

-- The loop of the origin on a round of the `m` pages of the replica, and the end.
module _ (origin held : Pages) (n lock m : ℕ) (es : List Entry) (s : Rsync) where
  origin_end :
      (o : Fixed) (f i' n' : ℕ) (v' : Locals) (s' : Rsync)
      → o.page ≡ origin
      → o.count ≡ n
      → o.writer ≡ s.writer
      → o.lock ≡ lock
      → s'.writer.fault ≡ none
      → Fits s'.writer
      → Hashed held (tail_rows 1 m) es
      → Awaits o (mismatches origin es) i' n' (m + 1) (replica_ready ∷ []) v' s'
      → Sent s.writer (sync_bytes origin n lock m es) (origin_loop (suc (suc f)) v' s')
  origin_end o f i' n' v' s' page count writer same_lock ready fits hashed a =
      let bad = mismatches origin es in
      let final =
        resend-cong v' (record (first_locals lock) { mx_hash = m + 1 }) n bad (a.lock ∙ same_lock)
          a.at_mx in
      let bytes : answer_bytes v' s' bad ≡ sync_bytes origin n lock m es =
        ap₂ (λ p c. page_frames (page_rows p (resend v' c bad)) ++ txn_frame c) (a.page ∙ page)
          (a.count ∙ count)
        ∙ ap (λ t. page_frames (page_rows origin t) ++ txn_frame n) final in
      subst (λ w. Sent w (sync_bytes origin n lock m es) (origin_loop (suc (suc f)) v' s'))
        (a.writer ∙ writer)
        (subst (λ b. Sent s'.writer b (origin_loop (suc (suc f)) v' s')) bytes
          (round_end f v' s' bad
            (record { healthy = a.healthy; page = refl; count = refl; ready = ready; fits = fits })
            a.input
            (bad_hash-made o bad i' n' m (replica_ready ∷ []) v' s'
              (subst (λ x. Awaits o bad i' n' x (replica_ready ∷ []) v' s') (omega arith) a))
            (mismatches-single origin held 1 m es hashed)
            (mismatches-KeysBelow origin held 1 m v'.mx_hash es hashed (omega (arith, a.at_mx)))))

  mx_after-round :
      (m : ℕ) → 1 ≤ m → m + 1 < 2 ^ 32 → Hashed held (tail_rows 1 m) es → mx_after 0 es ≡ m + 1
  mx_after-round zero lo hi hashed = absurd (omega (arith, lo))
  mx_after-round (suc k) lo hi hashed =
      mx_after-end origin held 1 k 0 es hashed (omega arith) (omega (arith, hi)) ∙ omega arith

  pub message_loop-Sent :
      1 ≤ m
      → m + 1 < 2 ^ 32
      → s.writer.fault ≡ none
      → Fits s.writer
      → Hashed held (tail_rows 1 m) es
      → Awaits
          (record { page = origin; count = n; writer = s.writer; lock = lock })
          []
          1
          1
          0
          (messages 1 1 es ++ (replica_ready ∷ []))
          (first_locals lock)
          s
      → Sent s.writer (sync_bytes origin n lock m es) (message_loop (first_locals lock) s)
  unfolding message_loop
  message_loop-Sent some_page small ready fits hashed a =
      let o : Fixed = record { page = origin; count = n; writer = s.writer; lock = lock } in
      let (v', s', i', n', p, a') =
        messages-Passes o 1 [] 1 1 0 es (replica_ready ∷ []) (first_locals lock) s tt
          (Hashed-Rising held 1 m es hashed (omega (arith, small))) a in
      let last =
        subst (λ x. Awaits o (mismatches origin es) i' n' x (replica_ready ∷ []) v' s')
          (mx_after-round m some_page small hashed) a' in
      let left : length s'.reader.input ≡ 1 = ap length a'.input in
      let f = length s.reader.input - 1 - passes p in
      let fuel : length s.reader.input + 1 ≡ passes p + suc (suc f) =
        omega (arith, left, passes-input p) in
      subst (Sent s.writer (sync_bytes origin n lock m es))
        (sym
          (ap (λ k. origin_loop k (first_locals lock) s) fuel ∙ origin_loop-passes p (suc (suc f))))
        (origin_end o f i' n' v' s' refl refl refl refl (ap (λ w. w.fault) a'.writer ∙ ready)
          (subst Fits (sym a'.writer) fits) hashed last)
