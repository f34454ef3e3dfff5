-- ===== src/Sync/Replica/Attach/Safe.antt =====
-- sqlitersync/replica.go, ATTACH: a run that goes on has the file.
use go_sqlite_rsync.Common.{
  ◌≡◌, ◌≢◌, refl, sym, ap, subst, ◌∙◌, Bool, true, false, if◌then◌else◌, arith,
}
use go_sqlite_rsync.Common.Act.{Result, ok, err, bind-eq-ok, pure, ◌>>=◌, ◌>>◌, modify, gets}
use go_sqlite_rsync.Sync.Run.{
  Rsync, Run, RunError, Database, DbError, Report, call, run, write_error, sql_failed, attach,
  unsupported_encoding, encoding_utf16le, encoding_utf16be, Statement,
}
use go_sqlite_rsync.Sync.Run.Keeps.{Frame, Keeps-run_ok, Keeps-call}
use go_sqlite_rsync.Sync.Replica.File.{attached, snapshot}
use go_sqlite_rsync.Sync.Replica.Attach.{
  is_wrong_encoding, run_attach, if_wrong_enc, attach_third, attach_second, attach_replica,
}

abbrev flag : Rsync → Bool
flag s = s.wrong_enc

Frame-flag : Frame flag
Frame-flag = record { writer = λ s w. refl; calls = λ s n. refl }

-- The connection sees the file on disk, outside a transaction, and no encoding is in doubt.
pub record HasFile (s : Rsync) : Type 0 where
  pub file : snapshot s.db ≡ s.db.saved
  pub idle : s.db.in_transaction ≡ false
  pub settled : s.wrong_enc ≡ false

write_error-fails :
    {A : Type 0} (report : Report) (s s' : Rsync) (a : A) → write_error report s ≢ (ok a, s')
unfolding write_error
write_error-fails report s s' a e = ground (arith, e)

attached-snapshot : (d : Database) → snapshot (attached d) ≡ (attached d).saved
unfolding attached
attached-snapshot d = refl

attached-idle : (d : Database) → (attached d).in_transaction ≡ false
unfolding attached
attached-idle d = refl

-- An ATTACH that returns nil has the file, or has set the flag.
run_attach-ok :
    (s s' : Rsync)
    → s.wrong_enc ≡ false
    → run_attach s ≡ (ok tt, s')
    → s'.wrong_enc ≡ false
    → HasFile s'
unfolding run_attach
run_attach-ok s s' start done clear =
    go (call s) ((Keeps-call Frame-flag).at s) (is_wrong_encoding s.env) done
  where
    go :
        (r : Result DbError (Unit {0}) × Rsync)
        → flag r.1 ≡ flag s
        → (wrong : DbError → Bool)
        → (elim r.0 as (λ x. Result RunError (Unit {0}) × Rsync) [
          | ok u ↦ (ok tt, record r.1 { db = attached r.1.db })
          | err e ↦
              if wrong e
              then (ok tt, record r.1 { wrong_enc = true })
              else write_error (sql_failed attach e) r.1
        ])
          ≡ (ok tt, s')
        → HasFile s'
    go (ok u, s1) kept wrong e =
        let same : record s1 { db = attached s1.db } ≡ s' = ap (λ r. r.1) e in
        record {
          file =
              ap (λ s. snapshot s.db) (sym same)
              ∙ attached-snapshot s1.db
              ∙ ap (λ s. s.db.saved) same;
          idle = ap (λ s. s.db.in_transaction) (sym same) ∙ attached-idle s1.db;
          settled = clear;
        }
    go (err x, s1) kept wrong e = refused (wrong x) e
      where
        refused :
            (b : Bool)
            → (if b
                then (ok tt, record s1 { wrong_enc = true })
                else write_error (sql_failed attach x) s1)
              ≡ (ok tt, s')
            → HasFile s'
        refused true h = absurd (ground (arith, ap (λ r. flag r.1) h, clear))
        refused false h = absurd (write_error-fails (sql_failed attach x) s1 s' tt h)

abbrev EndsWithFile : Run (Unit {0}) → Type 0
EndsWithFile m = (s s' : Rsync) → s.wrong_enc ≡ false → m s ≡ (ok tt, s') → HasFile s'

-- ATTACH, and a way on where the flag is set.
retry-EndsWithFile :
    (m : Run (Unit {0})) → EndsWithFile m → EndsWithFile (run_attach >> if_wrong_enc m)
retry-EndsWithFile m next s s' start done =
    let (u, s1, tried, rest) = bind-eq-ok (run_attach s) (λ u. if_wrong_enc m) done in
    flagged s1 tried s1.wrong_enc refl rest
  where
    flagged :
        (s1 : Rsync)
        → run_attach s ≡ (ok tt, s1)
        → (b : Bool) → s1.wrong_enc ≡ b
        → (if b then (modify (λ s. record s { wrong_enc = false }) >> m) else pure tt) s1
          ≡ (ok tt, s')
        → HasFile s'
    flagged s1 tried true e h = next (record s1 { wrong_enc = false }) s' refl h
    flagged s1 tried false e h =
        let same : s1 ≡ s' = ap (λ r. r.1) h in
        subst HasFile same (run_attach-ok s s1 start tried e)

-- A change of the encoding first.
encoding-EndsWithFile :
    (q : Statement) (m : Run (Unit {0})) → EndsWithFile m → EndsWithFile (run q ok >> m)
encoding-EndsWithFile q m next s s' start done =
    let (u, s1, switched, rest) = bind-eq-ok (run q ok s) (λ u. m) done in
    next s1 s' (sym (ap (λ r. flag r.1) switched) ∙ (Keeps-run_ok q Frame-flag).at s ∙ start) rest

-- The last try, after which the flag is an error.
last_try : Run (Unit {0})
last_try = do
  run_attach
  wrong_enc ← gets (λ s. s.wrong_enc)
  if wrong_enc then write_error unsupported_encoding else pure tt

last_try-EndsWithFile : EndsWithFile last_try
unfolding last_try
last_try-EndsWithFile s s' start done =
    let (u, s1, tried, rest) =
      bind-eq-ok (run_attach s)
        (λ u.
          gets (λ s. s.wrong_enc) >>= λ b. if b then write_error unsupported_encoding else pure tt)
        done in
    flagged s1 tried s1.wrong_enc refl rest
  where
    flagged :
        (s1 : Rsync)
        → run_attach s ≡ (ok tt, s1)
        → (b : Bool) → s1.wrong_enc ≡ b
        → (if b then write_error unsupported_encoding else pure tt) s1 ≡ (ok tt, s')
        → HasFile s'
    flagged s1 tried true e h = absurd (write_error-fails unsupported_encoding s1 s' tt h)
    flagged s1 tried false e h =
        let same : s1 ≡ s' = ap (λ r. r.1) h in
        subst HasFile same (run_attach-ok s s1 start tried e)

-- Where no encoding is in doubt before, and the attaching of the replica file goes on without an error
-- after at most three tries, the connection sees the file that is on disk and no encoding is in doubt:
-- an ATTACH that failed for its encoding is never taken for one that succeeded.
pub attach_replica-HasFile :
    (s s' : Rsync) → s.wrong_enc ≡ false → attach_replica s ≡ (ok tt, s') → HasFile s'
unfolding attach_replica attach_second attach_third last_try
attach_replica-HasFile = retry-EndsWithFile attach_second (
    encoding-EndsWithFile encoding_utf16le (run_attach >> if_wrong_enc attach_third) (
      retry-EndsWithFile attach_third
        (encoding-EndsWithFile encoding_utf16be last_try last_try-EndsWithFile)))
