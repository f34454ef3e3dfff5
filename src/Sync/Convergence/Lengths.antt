-- ===== src/Sync/Convergence/Lengths.antt =====
-- hash/sql.go: the size of a page's hash.
use go_sqlite_rsync.Common.{
  ℕ, ◌≡◌, refl, sym, ap, ◌∙◌, Bool, true, false, Option, none, some, List, length, ◌==◌,
  if◌then◌else◌, arith,
}
use go_sqlite_rsync.Hash.Sponge.{HashContext, hash_init, hash_update, pad, output, hash_final}
use go_sqlite_rsync.Hash.Sponge
use go_sqlite_rsync.Hash.Sql.{◌>>=◌, blob, value, returns, or_panic, hash_bytes, hash_func}
use go_sqlite_rsync.Sync.PageHash.{Pages, column, page_hash}

length-output : (s : List ℕ) → length (output s) ≡ 20
unfolding output
length-output s = refl

length-hash_final :
    (p : HashContext) (r : Option (List ℕ × HashContext))
    → hash_final p ≡ r
    → (x : List ℕ) (q : HashContext) → r ≡ some (x, q)
    → length x ≡ 20
unfolding hash_final
length-hash_final p r e x q h = go (p.i_size == 160) (pad p) (e ∙ h)
  where
    go :
        (b : Bool) (o : Option HashContext)
        → (if b
            then Sponge.◌>>=◌ {B = List ℕ × HashContext} o (λ q. some (output q.s, q))
            else none)
          ≡ some (x, q)
        → length x ≡ 20
    go true none h = absurd (ground (arith, h))
    go true (some q') h =
        ap (λ o. length (elim o as (λ z. List ℕ) [ none ↦ x | some r ↦ r.0 ])) (sym h)
        ∙ length-output q'.s
    go false o h = absurd (ground (arith, h))

length-hash_bytes : (v h : List ℕ) → column (hash_bytes v) ≡ some h → length h ≡ 20
unfolding hash_bytes
length-hash_bytes v h e = loaded (hash_update (hash_init 160) v) e
  where
    ended :
        (p : HashContext) (r : Option (List ℕ × HashContext))
        → hash_final p ≡ r
        → column (do (sum, _) ← or_panic r; returns (value (blob sum))) ≡ some h
        → length h ≡ 20
    ended p none f e = absurd (ground (arith, e))
    ended p (some (x, q)) f e =
        ap (λ o. length (elim o as (λ z. List ℕ) [ none ↦ h | some y ↦ y ])) (sym e)
        ∙ length-hash_final p (some (x, q)) f x q refl

    loaded :
        (o : Option HashContext)
        → column
            (do cx ← or_panic o; (sum, _) ← or_panic (hash_final cx); returns (value (blob sum)))
          ≡ some h
        → length h ≡ 20
    loaded none e = absurd (ground (arith, e))
    loaded (some p) e = ended p (hash_final p) refl e

pub length-page_hash :
    (pages : Pages) (n : ℕ) (h : List ℕ) → page_hash pages n ≡ some h → length h ≡ 20
unfolding page_hash hash_func
length-page_hash pages n h e = go (pages n) e
  where
    go :
        (o : Option (List ℕ))
        → elim o as (λ z. Option (List ℕ)) [ none ↦ none | some bytes ↦ column (hash_bytes bytes) ]
          ≡ some h
        → length h ≡ 20
    go none e = absurd (ground (arith, e))
    go (some bytes) e = length-hash_bytes bytes h e
