-- ===== src/Hash/Sql/Aggregate.antt =====
-- hash/sql.go: the aggregate over the rows of a query, and hashFunc.
use go_sqlite_rsync.Common.{
  ℕ, ◌≡◌, refl, true, false, Option, none, some, List, [], ◌∷◌, ◌++◌, foldl, foldl-append, All, sym,
  ap, ◌∙◌, replicate,
}
use go_sqlite_rsync.Hash.Sponge.{hash_init, hash_update}
use go_sqlite_rsync.Hash.Sponge.Reference.{sponge}
use go_sqlite_rsync.Hash.Sponge.Ready.{absorb_byte, hash_update-some, foldl-absorb_byte-IsReady}
use go_sqlite_rsync.Hash.Sponge.Digest.{
  initial, hash_init-initial, initial-IsReady, hash_final-message, padded,
}
use go_sqlite_rsync.Hash.Sql.{
  Value, null, blob, text, other, OtherType, returns, value, error, hash_unsupported,
  agghash_unsupported, AgghashAggregate, make_aggregate, step, window_value, step_all, agghash,
  hash_func, hash_bytes,
}

-- What has been put together so far: nothing before the first row that is not NULL.
abbrev pub add : Option (List ℕ) → Value → Option (List ℕ)
add m null = m
add none (blob v) = some v
add none (text v) = some v
add (some m) (blob v) = some (m ++ v)
add (some m) (text v) = some (m ++ v)
add m (other t) = m

-- The bytes of the rows that are not NULL, one after the other.
unfoldable pub joined : List Value → Option (List ℕ)
joined vs = foldl add none vs

abbrev pub IsSupported : Value → Type 0
IsSupported (other t) = ⊥
IsSupported _ = Unit {0}

abbrev pub hashed : Option (List ℕ) → Value
hashed none = null
hashed (some m) = blob (sponge m)

-- The aggregate after rows that come to `m`.
abbrev holding : Option (List ℕ) → AgghashAggregate
holding none = make_aggregate
holding (some m) = record {
  cx = foldl absorb_byte initial m;
  started = true;
  finalized = false;
  result = replicate 20 0;
}

update_first : (v : List ℕ) → hash_update (hash_init 160) v ≡ some (foldl absorb_byte initial v)
update_first v = rw hash_init-initial (hash_update-some initial v initial-IsReady)

update_next :
    (m v : List ℕ)
    → hash_update (foldl absorb_byte initial m) v ≡ some (foldl absorb_byte initial (m ++ v))
update_next m v =
    hash_update-some _ v (foldl-absorb_byte-IsReady initial m initial-IsReady)
    ∙ ap some (sym (foldl-append absorb_byte initial m v))

step-holding :
    (m : Option (List ℕ)) (v : Value)
    → IsSupported v
    → step (holding m) (v ∷ []) ≡ returns (holding (add m v), none)
unfolding step
step-holding m null h = refl
step-holding none (blob v) h = rw (update_first v)
step-holding none (text v) h = rw (update_first v)
step-holding (some m) (blob v) h = rw (update_next m v)
step-holding (some m) (text v) h = rw (update_next m v)
step-holding m (other t) h = elim h [ ]

step_all-holding :
    (m : Option (List ℕ)) (vs : List Value)
    → All IsSupported vs
    → step_all (holding m) vs ≡ returns (holding (foldl add m vs), none)
unfolding step_all
step_all-holding m [] h = refl
step_all-holding m (v ∷ vs) (hv, hvs) = rw (step-holding m v hv) (step_all-holding (add m v) vs hvs)

window_value-holding :
    (m : Option (List ℕ))
    → (a : AgghashAggregate) × (window_value (holding m) ≡ returns (a, hashed m))
      × (window_value a ≡ returns (a, hashed m))
unfolding window_value
window_value-holding none = (make_aggregate, refl, refl)
window_value-holding (some m) = (
  record {
    cx = foldl absorb_byte initial (padded m);
    started = true;
    finalized = true;
    result = sponge m;
  },
  rw (hash_final-message m),
  refl,
)

-- On rows that are NULL, BLOB or TEXT, agghash is NULL if all of them are NULL, and else the sponge's
-- digest of the bytes of the others put together in their order.
pub agghash-joined :
    (vs : List Value) → All IsSupported vs → agghash vs ≡ returns (value (hashed (joined vs)))
unfolding agghash joined
agghash-joined vs h =
    rw (step_all-holding none vs h) (rw ((window_value-holding (foldl add none vs)).1))

-- After such rows WindowValue may be called again: the second call gives the value of the first and
-- changes nothing.
pub window_value_twice :
    (vs : List Value)
    → All IsSupported vs
    → (a b : AgghashAggregate) × (step_all make_aggregate vs ≡ returns (a, none))
      × (window_value a ≡ returns (b, hashed (joined vs)))
      × (window_value b ≡ returns (b, hashed (joined vs)))
unfolding joined
window_value_twice vs h =
    let m = foldl add none vs in
    let (b, first, again) = window_value-holding m in
    (holding m, b, step_all-holding none vs h, first, again)

step-other :
    (m : Option (List ℕ)) (t : OtherType)
    → (a : AgghashAggregate) × (step (holding m) (other t ∷ [])
        ≡ returns (a, some (agghash_unsupported t)))
unfolding step
step-other none t = (_, refl)
step-other (some m) t = (_, refl)

step_all_stops :
    (ws : List Value) (t : OtherType) (m : Option (List ℕ)) (vs : List Value)
    → All IsSupported vs
    → (a : AgghashAggregate) × (step_all (holding m) (vs ++ other t ∷ ws)
        ≡ returns (a, some (agghash_unsupported t)))
unfolding step_all
step_all_stops ws t m [] h = let (a, e) = step-other m t in (a, rw e)
step_all_stops ws t m (v ∷ vs) (hv, hvs) =
    rw (step-holding m v hv) (step_all_stops ws t (add m v) vs hvs)

-- A row of another type ends the evaluation with its error, after any rows that are supported.
pub agghash_unsupported_row :
    (vs ws : List Value) (t : OtherType)
    → All IsSupported vs
    → agghash (vs ++ other t ∷ ws) ≡ returns (error (agghash_unsupported t))
unfolding agghash
agghash_unsupported_row vs ws t h = rw ((step_all_stops ws t none vs h).1)

-- hash(X) is NULL on NULL, the sponge's digest of a BLOB or a TEXT, and an error on any other type.
pub hash_func-sponge :
    (v : Value)
    → hash_func (v ∷ []) ≡ elim v [
      | null ↦ returns (value null)
      | blob b ↦ returns (value (blob (sponge b)))
      | text b ↦ returns (value (blob (sponge b)))
      | other t ↦ returns (error (hash_unsupported t))
    ]
unfolding hash_func hash_bytes
hash_func-sponge null = refl
hash_func-sponge (blob b) = rw (update_first b) (rw (hash_final-message b))
hash_func-sponge (text b) = rw (update_first b) (rw (hash_final-message b))
hash_func-sponge (other t) = refl
