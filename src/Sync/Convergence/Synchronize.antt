-- ===== src/Sync/Convergence/Synchronize.antt =====
-- sqlitersync/origin.go: a whole run of one round.
use go_sqlite_rsync.Common.{
  ℕ, zero, suc, ◌+◌, ◌/◌, ◌^◌, ◌≤◌, ◌<◌, ◌≡◌, ◌⊎◌, inl, inr, refl, sym, ap, subst, ◌∙◌, true, false,
  none, List, [], ◌∷◌, ◌++◌, append_assoc, ◌==◌, arith,
}
use go_sqlite_rsync.Common.Act.{Result, ok, err, bind, ◌>>=◌, gets}
use go_sqlite_rsync.Common.Words.{IsByte}
use go_sqlite_rsync.Wire.{WireError, origin_begin, replica_ready}
use go_sqlite_rsync.Wire.Writer.{Writer}
use go_sqlite_rsync.Wire.Writer.Pending.{pending, Fits}
use go_sqlite_rsync.Wire.Writer.Loop.{Wrote, whole, cut_off}
use go_sqlite_rsync.Sync.PageHash.{Pages}
use go_sqlite_rsync.Sync.Run.{Rsync, Run, RunError, wire, wire_result, writing}
use go_sqlite_rsync.Sync.Run.Healthy.{Healthy}
use go_sqlite_rsync.Sync.Negotiation.{begin_fields, Sends-write_begin}
use go_sqlite_rsync.Sync.Origin.Loop.{first_locals}
use go_sqlite_rsync.Sync.Origin.Ready.{tail_rows}
use go_sqlite_rsync.Sync.Origin.{write_begin, lock_byte_page, send_begin, message_loop, synchronize}
use go_sqlite_rsync.Sync.Exchange.{Entry, messages}
use go_sqlite_rsync.Sync.Exchange.Send.{Hashed}
use go_sqlite_rsync.Sync.Convergence.Loop.{Sent}
use go_sqlite_rsync.Sync.Convergence.Opens.{opened, open_origin-Healthy}
use go_sqlite_rsync.Sync.Convergence.Sends.{sync_bytes, message_loop-Sent}

-- An origin with a file of `n` pages of 2 ^ `k` bytes, on which nothing fails, at the start of its run.
pub record IsOrigin (origin : Pages) (n k : ℕ) (rest : List ℕ) (s : Rsync) : Type 0 where
  pub healthy : Healthy s.env
  pub known : 1 ≤ s.protocol
  pub byte : IsByte s.protocol
  pub mode : (s.wal_only ≡ false) ⊎ (s.db.is_wal ≡ true)
  pub page : s.db.page ≡ origin
  pub count : s.db.file_page_count ≡ n
  pub size : s.db.file_page_size ≡ 2 ^ k
  pub exponent : k ≤ 16
  pub no_table : s.db.bad_hash ≡ none
  pub input : s.reader.input ≡ rest
  pub ready : s.writer.fault ≡ none
  pub fits : Fits s.writer

-- The lock byte page of a file with pages of 2 ^ `k` bytes.
abbrev pub lock_of : ℕ → ℕ
lock_of k = 2 ^ 30 / 2 ^ k + 1

abbrev pub after_begin : Run (Unit {0})
after_begin = do
  page_bytes ← gets (λ s. s.page_bytes)
  lock ← lock_byte_page page_bytes
  message_loop (first_locals lock)

pub lock_byte_page-known :
    (size : ℕ) (s : Rsync) → 1 ≤ size → lock_byte_page size s ≡ (ok (2 ^ 30 / size + 1), s)
unfolding lock_byte_page
lock_byte_page-known size s h =
    let some_size : (size == 0) ≡ false = ground arith in simp (some_size, lock_byte_page)

after_begin-loop :
    (k : ℕ) (s : Rsync)
    → s.page_bytes ≡ 2 ^ k
    → 1 ≤ 2 ^ k
    → after_begin s ≡ message_loop (first_locals (lock_of k)) s
after_begin-loop k s size h =
    ap (λ n. bind (lock_byte_page n s) (λ lock. message_loop (first_locals lock))) size
    ∙ ap (λ r. bind r (λ lock. message_loop (first_locals lock))) (lock_byte_page-known (2 ^ k) s h)

-- What is sent after `p` is sent.
Sent-after :
    (w : Writer) (p q : List ℕ) (w' : Writer) (r : Result RunError (Unit {0}) × Rsync)
    → pending w' ≡ pending w ++ p
    → Sent w' q r
    → Sent w (p ++ q) r
Sent-after w p q w' r all (inl a) = inl (a ∙ ap (λ x. x ++ q) all ∙ append_assoc (pending w) p q)
Sent-after w p q w' r all (inr (x, lost, d, a)) =
    inr (x, lost, d, a ∙ ap (λ x. x ++ q) all ∙ append_assoc (pending w) p q)

-- The bytes of the whole run in version `protocol`.
abbrev pub run_bytes : ℕ → Pages → ℕ → ℕ → ℕ → List Entry → List ℕ
run_bytes protocol origin n k m es =
    (origin_begin ∷ begin_fields protocol k n) ++ sync_bytes origin n (lock_of k) m es

pow_pos : (k : ℕ) → 1 ≤ 2 ^ k
pow_pos zero = omega arith
pow_pos (suc k) = omega (arith, pow_pos k)

module _ (origin held : Pages) (n k m : ℕ) (es : List Entry) (s : Rsync)
    (is_origin : IsOrigin origin n k (messages 1 1 es ++ (replica_ready ∷ [])) s) where
  after_begin-Sent :
      (c : ℕ) (w : Writer)
      → w.fault ≡ none
      → Fits w
      → 1 ≤ m
      → m + 1 < 2 ^ 32
      → Hashed held (tail_rows 1 m) es
      → Sent w
          (sync_bytes origin n (lock_of k) m es)
          (after_begin (record (opened c s) { writer = w }))
  after_begin-Sent c w ready fits some_page few hashed =
      let s2 = record (opened c s) { writer = w } in
      subst (Sent w (sync_bytes origin n (lock_of k) m es))
        (sym (after_begin-loop k s2 is_origin.size (pow_pos k)))
        (message_loop-Sent origin held n (lock_of k) m es s2 some_page few ready fits hashed
          (record {
            healthy = is_origin.healthy;
            page = is_origin.page;
            count = is_origin.count;
            writer = refl;
            lock = refl;
            ledger = (is_origin.no_table, refl);
            at_i = refl;
            at_n = refl;
            at_mx = refl;
            made = inr refl;
            input = is_origin.input;
          }))

  pub synchronize-Sent :
      1 ≤ m
      → m + 1 < 2 ^ 32
      → Hashed held (tail_rows 1 m) es
      → Sent s.writer (run_bytes s.protocol origin n k m es) (synchronize s)
  unfolding synchronize send_begin writing
  synchronize-Sent some_page few hashed =
      let (c, began) = open_origin-Healthy s is_origin.healthy is_origin.known is_origin.mode in
      let s1 = opened c s in
      subst (Sent s.writer (run_bytes s.protocol origin n k m es))
        (sym (ap (λ r. bind r (λ u. after_begin)) began))
        (go c (write_begin s1 s1.writer) (
          subst
            (λ x.
              Wrote s.writer (origin_begin ∷ begin_fields s.protocol k x) (write_begin s1 s.writer))
            is_origin.count
            (Sends-write_begin s1 k is_origin.exponent is_origin.byte is_origin.size s.writer
              is_origin.ready is_origin.fits)))
    where
      go :
          (c : ℕ) (r : Result WireError (Unit {0}) × Writer)
          → Wrote s.writer (origin_begin ∷ begin_fields s.protocol k n) r
          → Sent s.writer
              (run_bytes s.protocol origin n k m es)
              (bind (wire_result r.0, record (opened c s) { writer = r.1 }) (λ u. after_begin))
      go c (ok u, w) (whole d h a f) =
          Sent-after s.writer (origin_begin ∷ begin_fields s.protocol k n)
            (sync_bytes origin n (lock_of k) m es) w
            (after_begin (record (opened c s) { writer = w })) a
            (after_begin-Sent c w h f some_page few hashed)
      go c (err x, w) (whole d h a f) = absurd (ground (arith, d))
      go c (ok u, w) (cut_off e lost d h a) = absurd (ground (arith, d))
      go c (err x, w) (cut_off e lost d h a) = inr (
        wire x,
        lost ++ sync_bytes origin n (lock_of k) m es,
        refl,
        sym (append_assoc w.delivered lost (sync_bytes origin n (lock_of k) m es))
            ∙ ap (λ y. y ++ sync_bytes origin n (lock_of k) m es) a
            ∙ append_assoc (pending s.writer) (origin_begin ∷ begin_fields s.protocol k n)
                (sync_bytes origin n (lock_of k) m es),
      )
