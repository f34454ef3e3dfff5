-- ===== src/Hash/Sponge/Ready.antt =====
-- hash/hash.go: the invariant of a HashContext between calls.
use go_sqlite_rsync.Common.{
  all_below, all_below_sound, ℕ, Bool-cases, inl, inr, ltb, ltb→lt, ◌/◌, ◌≤◌, ◌<◌, ◌≡◌, refl, true,
  ◌&&◌, some, List, [], ◌∷◌, foldl, length, All, length-set, All-set, All-get_or,
  get_elem?-eq-get_or, leb, arith,
}
use go_sqlite_rsync.Common.Bits.{bit_xor-lt}
use go_sqlite_rsync.Common.Words.{IsU64}
use go_sqlite_rsync.Hash.Keccak.Bounds.{length-keccak_f1600_step, keccak_f1600_step-IsU64}
use go_sqlite_rsync.Hash.Sponge.{
  HashContext, rate_of, hash_init, xor_byte, advance, update_byte, hash_update,
}

pub record IsReady (p : HashContext) : Type 0 where
  pub lanes : length p.s ≡ 25
  pub words : All IsU64 p.s
  pub room : p.n_loaded < p.n_rate
  pub fits : p.n_rate ≤ 200

-- What `update_byte` returns where the index is in range.
abbrev pub absorb_byte : HashContext → ℕ → HashContext
absorb_byte p b = advance (record p { s = xor_byte p.s p.n_loaded b })

pub length-xor_byte : (s : List ℕ) (n b : ℕ) → length (xor_byte s n b) ≡ length s
unfolding xor_byte
length-xor_byte s n b = length-set s (n / 8) _

pub xor_byte-IsU64 : (s : List ℕ) (n b : ℕ) → All IsU64 s → All IsU64 (xor_byte s n b)
unfolding xor_byte
xor_byte-IsU64 s n b h =
    All-set IsU64 s (n / 8) _
      (bit_xor-lt 64 _ _ (All-get_or IsU64 s (n / 8) 0 (omega arith) h) (omega arith)) h

advance-IsReady : (p : HashContext) → IsReady p → IsReady (advance p)
unfolding advance
advance-IsReady p h =
    ground (arith, length-keccak_f1600_step p.s, keccak_f1600_step-IsU64 p.s h.words)

absorb_byte-IsReady : (p : HashContext) (b : ℕ) → IsReady p → IsReady (absorb_byte p b)
absorb_byte-IsReady p b h =
    advance-IsReady (record p { s = xor_byte p.s p.n_loaded b })
      (record {
        lanes = omega (arith, length-xor_byte p.s p.n_loaded b, h.lanes);
        words = xor_byte-IsU64 p.s p.n_loaded b h.words;
        room = h.room;
        fits = h.fits;
      })

pub update_byte-some :
    (p : HashContext) (b : ℕ) → IsReady p → update_byte p b ≡ some (absorb_byte p b)
unfolding update_byte
update_byte-some p b h = rw (
  get_elem?-eq-get_or p.s (p.n_loaded / 8) 0 (omega (arith, h.lanes, h.room, h.fits)),
  update_byte,
)

pub foldl-absorb_byte-IsReady :
    (p : HashContext) (bs : List ℕ) → IsReady p → IsReady (foldl absorb_byte p bs)
foldl-absorb_byte-IsReady p [] h = h
foldl-absorb_byte-IsReady p (b ∷ bs) h =
    foldl-absorb_byte-IsReady (absorb_byte p b) bs (absorb_byte-IsReady p b h)

pub hash_update-some :
    (p : HashContext) (bs : List ℕ) → IsReady p → hash_update p bs ≡ some (foldl absorb_byte p bs)
unfolding hash_update
hash_update-some p [] h = refl
hash_update-some p (b ∷ bs) h =
    rw (update_byte-some p b h) (hash_update-some (absorb_byte p b) bs (absorb_byte-IsReady p b h))

-- On a ready context HashUpdate returns, whatever the bytes, and leaves a ready context.
pub hash_update-IsReady :
    (p : HashContext) (bs : List ℕ)
    → IsReady p
    → (q : HashContext) × (hash_update p bs ≡ some q) × IsReady q
hash_update-IsReady p bs h =
    (foldl absorb_byte p bs, hash_update-some p bs h, foldl-absorb_byte-IsReady p bs h)

rate_table : all_below 513 (λ i. leb 1 (rate_of i) && leb (rate_of i) 200) ≡ true
unfolding all_below rate_of
rate_table = refl

rate_of_bounds : (i : ℕ) → (1 ≤ rate_of i) × (rate_of i ≤ 200)
rate_of_bounds i = elim (Bool-cases (ltb i 513)) [
  | inl h ↦ ground (
    arith,
    all_below_sound 513 (λ i. leb 1 (rate_of i) && leb (rate_of i) 200) i rate_table,
    ltb→lt i 513 h,
  )
  | inr h ↦ unfold rate_of in ground arith
]

-- HashInit makes a ready context for every size.
pub hash_init-IsReady : (i : ℕ) → IsReady (hash_init i)
unfolding hash_init
hash_init-IsReady i =
    let (lo, hi) = rate_of_bounds i in
    record { lanes = refl; words = omega arith; room = lo; fits = hi }
