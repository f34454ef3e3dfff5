-- ===== src/Sync/Convergence/Sync.antt =====
-- Both roles: a whole run of one round, from the hashes that sqlitersync/replica.go sends to the commit
-- of what sqlitersync/origin.go answers.
use go_sqlite_rsync.Common.{
  ℕ, suc, ◌+◌, ◌-◌, ◌^◌, ◌≤◌, ◌<◌, ◌≡◌, ◌≢◌, ◌⊎◌, inl, inr, refl, sym, ap, subst, ◌∙◌, some, true,
  List, [], ◌∷◌, ◌++◌, length, length-append, if◌then◌else◌, arith,
}
use go_sqlite_rsync.Common.Act.{Result, ok, err, bind, pure}
use go_sqlite_rsync.Wire.{replica_ready, origin_begin}
use go_sqlite_rsync.Sync.Exchange.Receive.{next_message-byte}
use go_sqlite_rsync.Sync.Origin.{next_message, synchronize}
use go_sqlite_rsync.Sync.PageHash.{Pages}
use go_sqlite_rsync.Sync.Run.{Rsync, RunError}
use go_sqlite_rsync.Sync.Origin.Loop.{first_locals}
use go_sqlite_rsync.Sync.Origin.Ready.{page_rows, tail_rows}
use go_sqlite_rsync.Sync.Exchange.{Entry, messages, mismatches}
use go_sqlite_rsync.Sync.Exchange.Send.{Hashed}
use go_sqlite_rsync.Sync.Exchange.Finish.{Delivered}
use go_sqlite_rsync.Sync.Replica.{replica_loop, respond}
use go_sqlite_rsync.Sync.Replica.Begin.{on_begin}
use go_sqlite_rsync.Sync.Negotiation.{begin_fields}
use go_sqlite_rsync.Sync.Convergence.Replies.{
  IsReplica, kept_mode, on_begin-Takes, on_begin-Delivered,
}
use go_sqlite_rsync.Wire.RoundTrip.{after_read}
use go_sqlite_rsync.Wire.Uint32.{bytes_of_uint32}
use go_sqlite_rsync.Sync.Replica.Receive.{Takes}
use go_sqlite_rsync.Sync.Convergence.{IsFile}
use go_sqlite_rsync.Sync.Convergence.Transfer.{Checked, Converged, replica_loop-Converged}
use go_sqlite_rsync.Sync.Convergence.Loop.{Sent}
use go_sqlite_rsync.Sync.Convergence.Singles.{NoCollision, mismatches-equal}
use go_sqlite_rsync.Sync.Convergence.Sends.{final_rows, sync_bytes}
use go_sqlite_rsync.Sync.Convergence.Synchronize.{IsOrigin, lock_of, run_bytes, synchronize-Sent}

round-Checked :
    (origin held : Pages) (n lock m : ℕ) (es : List Entry)
    → NoCollision origin held
    → Hashed held (tail_rows 1 m) es
    → Checked origin n
        (record (first_locals lock) { mx_hash = m + 1 })
        (mismatches origin es)
        held
        m
round-Checked origin held n lock m es collision hashed = record {
  hashed = omega arith;
  equal = λ k lo seen hi free.
      mismatches-equal origin held 1 m k es collision hashed lo (omega (arith, seen)) free;
}

begin_pass :
    (f : ℕ) (s s1 : Rsync)
    → next_message s ≡ (ok (some origin_begin), s1)
    → replica_loop (suc f) s ≡ bind (on_begin s1) (λ u. replica_loop f)
unfolding replica_loop respond
begin_pass f s s1 m = simp (m, replica_loop, respond) (assoc (on_begin s1))
  where
    assoc :
        (r : Result RunError (Unit {0}) × Rsync)
        → bind (bind r (λ u. pure true)) (λ b. if b then replica_loop f else pure tt)
          ≡ bind r (λ u. replica_loop f)
    assoc (ok u, s) = refl
    assoc (err e, s) = refl

-- The replica after the message byte of ORIGIN_BEGIN, with `rest` to read.
abbrev pub byte_read : List ℕ → Rsync → Rsync
byte_read rest s = record s { reader = after_read s.reader 1 rest }

-- How the loop of the replica ends: with the error of its answer to ORIGIN_BEGIN, or with the file of
-- the origin on disk, as a commit leaves it.
abbrev pub Ends :
    Pages → ℕ → ℕ → Result RunError (Unit {0}) → Result RunError (Unit {0}) × Rsync → Type 0
Ends origin n lock begun r =
    ((x : RunError) × (begun ≡ err x) × (r.0 ≡ err x))
    ⊎ ((s' : Rsync) × (begun ≡ ok tt) × (r ≡ (ok tt, s')) × Converged origin n lock s')

-- A run of one round makes the replica equal to the origin, but for what the commit writes into the
-- header of page 1. The replica has a file with at least one page, all hashed alone, since the version is
-- before 2 or there are at most 100; no two pages of the same number have the same hash unless they are
-- equal; the file of the origin has pages of 2 ^ k bytes as the replica's has, at least one and fewer than
-- 0xffffffff, the last of them is not the lock byte page, page 1 says no other journal mode than the
-- replica keeps, and some page is to be sent; the streams of both have not failed, no database fails, and
-- the replica speaks the version of the origin. Then the origin's run on the hashes of the replica
-- delivers ORIGIN_BEGIN, the pages that are to be sent, ORIGIN_TXN and ORIGIN_END; the handler of
-- ORIGIN_BEGIN of the replica delivers these hashes and REPLICA_READY; each of the two may instead return
-- an error after a first part of its bytes; and the loop of the replica, on all the bytes of the origin,
-- ends with this error of its handler, or returns no error, the page count of the file on disk is that
-- of the origin, each page but page 1 and the lock byte page is the origin's, and page 1 is as long and
-- has the same bytes but at 24 to 27 and 92 to 99.
pub sync-Converged :
    (origin : Pages) (n k : ℕ) (es : List Entry) (p : ℕ × List ℕ) (ps : List (ℕ × List ℕ))
    (sender replica : Rsync)
    → let held = replica.db.saved.page in
      let m = replica.db.saved.page_count in
      IsFile (2 ^ k) (kept_mode replica) n origin
      → m + 1 < 2 ^ 32
      → 1 ≤ n
      → n < 2 ^ 32 - 1
      → n ≢ lock_of k
      → NoCollision origin held
      → Hashed held (tail_rows 1 m) es
      → page_rows origin (final_rows origin n (lock_of k) m es) ≡ p ∷ ps
      → IsOrigin origin n k (messages 1 1 es ++ (replica_ready ∷ [])) sender
      → replica.reader.input ≡ run_bytes sender.protocol origin n k m es
      → let rest = sync_bytes origin n (lock_of k) m es in
        let s1 = byte_read (begin_fields sender.protocol k n ++ rest) replica in
        IsReplica sender.protocol k n rest s1
        → Sent sender.writer (run_bytes sender.protocol origin n k m es) (synchronize sender)
          × Delivered replica.writer (messages 1 1 es ++ (replica_ready ∷ [])) (on_begin s1)
          × Ends origin n
              (lock_of k)
              (on_begin s1).0
              (replica_loop (length replica.reader.input + 1) replica)
sync-Converged origin n k es p ps sender replica file few paged small last collision hashed some_row
      is_origin input is_replica =
    (
      synchronize-Sent origin held n k m es sender is_origin is_replica.some_page few hashed,
      on_begin-Delivered version k n rest s1 is_replica es few hashed,
      subst (Ends origin n (lock_of k) (on_begin s1).0) (sym started)
          (go (on_begin s1) (on_begin-Takes version k n rest s1 is_replica)),
    )
  where
    held : Pages
    held = replica.db.saved.page

    m : ℕ
    m = replica.db.saved.page_count

    version : ℕ
    version = sender.protocol

    rest : List ℕ
    rest = sync_bytes origin n (lock_of k) m es

    s1 : Rsync
    s1 = byte_read (begin_fields version k n ++ rest) replica

    f : ℕ
    f = length replica.reader.input

    started : replica_loop (f + 1) replica ≡ bind (on_begin s1) (λ u. replica_loop f)
    started =
        let next : f + 1 ≡ suc f = omega arith in
        ap (λ i. replica_loop i replica) next
        ∙ begin_pass f replica s1
            (next_message-byte replica origin_begin (begin_fields version k n ++ rest) input)

    lasts : (s2 : Rsync) → s2.reader.input ≡ rest → length s2.reader.input + 1 ≤ f
    lasts s2 left =
        omega (arith, ap length left, ap length input, length-append (bytes_of_uint32 n) rest)

    go :
        (r : Result RunError (Unit {0}) × Rsync)
        → Takes (2 ^ k) (kept_mode replica) held m rest r.1
        → Ends origin n (lock_of k) r.0 (bind r (λ u. replica_loop f))
    go (err x, s2) takes = inl (x, refl, refl)
    go (ok u, s2) takes =
        let (s', ends, converged) =
          replica_loop-Converged file (record (first_locals (lock_of k)) { mx_hash = m + 1 })
            (mismatches origin es) p ps s2 f (lasts s2 takes.input) paged small last
            (round-Checked origin held n (lock_of k) m es collision hashed) some_row takes in
        inr (s', refl, ends, converged)
