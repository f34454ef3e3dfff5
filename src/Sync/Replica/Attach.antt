-- ===== src/Sync/Replica/Attach.antt =====
-- sqlitersync/sql.go, attachSQL and the case of run for ATTACH; sqlitersync/replica.go: the replica
-- file is attached in its own text encoding.
pub mod Safe
pub mod Quoting
use go_sqlite_rsync.Common.{ℕ, Bool, true, false, List, [], ◌∷◌, ◌++◌, ◌==◌, if◌then◌else◌}
use go_sqlite_rsync.Common.Act.{ok, err, pure, ◌>>=◌, ◌>>◌, modify, gets}
use go_sqlite_rsync.Sync.Run.{
  Run, Env, DbError, engine, sql_failed, unsupported_encoding, attach, encoding_utf16le,
  encoding_utf16be, call, run, write_error,
}
use go_sqlite_rsync.Sync.Replica.File.{attached}

abbrev pub quote : ℕ
quote = 39

-- strings.ReplaceAll(path, "'", "''")
unfoldable pub double_quotes : List ℕ → List ℕ
double_quotes [] = []
double_quotes (b ∷ bs) =
    if b == quote then quote ∷ quote ∷ double_quotes bs else b ∷ double_quotes bs

-- `ATTACH `
abbrev pub attach_word : List ℕ
attach_word = 65 ∷ 84 ∷ 84 ∷ 65 ∷ 67 ∷ 72 ∷ 32 ∷ []

-- ` AS 'replica'`
abbrev pub as_replica : List ℕ
as_replica = 32 ∷ 65 ∷ 83 ∷ 32 ∷ 39 ∷ 114 ∷ 101 ∷ 112 ∷ 108 ∷ 105 ∷ 99 ∷ 97 ∷ 39 ∷ []

unfoldable pub attach_sql : List ℕ → List ℕ
unfolding double_quotes
attach_sql path = attach_word ++ (quote ∷ (double_quotes path ++ (quote ∷ as_replica)))

-- strings.Contains(err.Error(), "must use the same text encoding")
abbrev pub is_wrong_encoding : Env → DbError → Bool
is_wrong_encoding env (engine text) = env.is_encoding_error text
is_wrong_encoding env _ = false

-- s.run(attachSQL(…))
unfoldable pub run_attach : Run (Unit {0})
unfolding call
run_attach s =
    let (r, s') = call s in
    elim r [
      | ok u ↦ (ok tt, record s' { db = attached s'.db })
      | err e ↦
          if is_wrong_encoding s.env e
          then (ok tt, record s' { wrong_enc = true })
          else write_error (sql_failed attach e) s'
    ]

-- `if s.wrongEnc { s.wrongEnc = false; … }`
abbrev pub if_wrong_enc : Run (Unit {0}) → Run (Unit {0})
if_wrong_enc m = do
  wrong_enc ← gets (λ s. s.wrong_enc)
  if wrong_enc then (do modify (λ s. record s { wrong_enc = false }); m) else pure tt

unfoldable pub attach_third : Run (Unit {0})
unfolding run_attach
attach_third = do
  run encoding_utf16be ok
  run_attach
  wrong_enc ← gets (λ s. s.wrong_enc)
  if wrong_enc then write_error unsupported_encoding else pure tt

unfoldable pub attach_second : Run (Unit {0})
attach_second = do run encoding_utf16le ok; run_attach; if_wrong_enc attach_third

unfoldable pub attach_replica : Run (Unit {0})
attach_replica = do run_attach; if_wrong_enc attach_second
