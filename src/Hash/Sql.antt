-- ===== src/Hash/Sql.antt =====
-- hash/sql.go: the SQL functions hash(X) and agghash(X). The driver that calls them is a third
-- party; a list of values is the argument slice that it passes, and a Go panic is `panics`.
pub mod Aggregate
use go_sqlite_rsync.Common.{
  ℕ, Bool, true, false, not, Option, none, some, List, [], ◌∷◌, replicate, if◌then◌else◌,
}
use go_sqlite_rsync.Hash.Sponge.{HashContext, hash_init, hash_update, hash_final}

-- The dynamic types of a driver.Value beside nil, []byte and string.
pub data OtherType : Type 0 where
  int64 float64 boolean time : OtherType

pub data Value : Type 0 where
  null : Value
  blob : List ℕ → Value
  text : List ℕ → Value
  other : OtherType → Value

pub data FuncError : Type 0 where
  hash_unsupported : OtherType → FuncError
  agghash_unsupported : OtherType → FuncError

pub data Outcome {ℓ} (A : Type ℓ) : Type ℓ where
  returns : A → Outcome A
  panics : Outcome A

infixl 5 ◌>>=◌
abbrev pub ◌>>=◌ {ℓ κ} : {A : Type ℓ} {B : Type κ} → Outcome A → (A → Outcome B) → Outcome B
returns a >>= f = f a
panics >>= f = panics

abbrev pub or_panic {ℓ} : {A : Type ℓ} → Option A → Outcome A
or_panic none = panics
or_panic (some a) = returns a

-- A Go pair (value, error): an error or a value.
pub data Answer {ℓ} (A : Type ℓ) : Type ℓ where
  value : A → Answer A
  error : FuncError → Answer A

-- `var cx HashContext; HashInit(&cx, 160); HashUpdate(&cx, v); sum := HashFinal(&cx)`
unfoldable pub hash_bytes : List ℕ → Outcome (Answer Value)
hash_bytes v = do
  cx ← or_panic (hash_update (hash_init 160) v)
  (sum, _) ← or_panic (hash_final cx)
  returns (value (blob sum))

unfoldable pub hash_func : List Value → Outcome (Answer Value)
hash_func [] = panics
hash_func (null ∷ _) = returns (value null)
hash_func (blob v ∷ _) = hash_bytes v
hash_func (text v ∷ _) = hash_bytes v
hash_func (other t ∷ _) = returns (error (hash_unsupported t))

pub record AgghashAggregate : Type 0 where
  pub cx : HashContext
  pub started : Bool
  pub finalized : Bool  -- the source's field `done`
  pub result : List ℕ  -- [20]byte

-- `&agghashAggregate{}`: all zero.
abbrev pub make_aggregate : AgghashAggregate
make_aggregate = record {
  cx = record { s = replicate 25 0; n_rate = 0; n_loaded = 0; i_size = 0 };
  started = false;
  finalized = false;
  result = replicate 20 0;
}

start : AgghashAggregate → AgghashAggregate
start a = if not a.started then record a { cx = hash_init 160; started = true } else a

-- A step leaves the aggregate changed, also where it reports an error.
abbrev Stepped : Type 0
Stepped = Outcome (AgghashAggregate × Option FuncError)

step_bytes : AgghashAggregate → List ℕ → Stepped
step_bytes a v = do cx ← or_panic (hash_update a.cx v); returns (record a { cx = cx }, none)

unfoldable pub step : AgghashAggregate → List Value → Stepped
unfolding start step_bytes
step a [] = panics
step a (null ∷ _) = returns (a, none)
step a (blob v ∷ _) = step_bytes (start a) v
step a (text v ∷ _) = step_bytes (start a) v
step a (other t ∷ _) = returns (start a, some (agghash_unsupported t))

finalize : AgghashAggregate → Outcome AgghashAggregate
finalize a = do
  (sum, cx) ← or_panic (hash_final a.cx)
  returns (record a { cx = cx; result = sum; finalized = true })

unfoldable pub window_value : AgghashAggregate → Outcome (AgghashAggregate × Value)
unfolding finalize
window_value a =
    if not a.started
    then returns (a, null)
    else (do b ← if not a.finalized then finalize a else returns a; returns (b, blob b.result))

-- The rows of one evaluation, in order; it ends at the first row that reports an error.
unfoldable pub step_all : AgghashAggregate → List Value → Stepped
step_all a [] = returns (a, none)
step_all a (v ∷ vs) = do
  (b, e) ← step a (v ∷ [])
  elim e [ none ↦ step_all b vs | some x ↦ returns (b, some x) ]

-- A query's value of agghash over some rows.
unfoldable pub agghash : List Value → Outcome (Answer Value)
agghash vs = do
  (a, e) ← step_all make_aggregate vs
  elim e [ none ↦ (do (_, v) ← window_value a; returns (value v)) | some x ↦ returns (error x) ]
