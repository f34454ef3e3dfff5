-- ===== src/Hash/Sponge/Digest.antt =====
-- hash/hash.go: HashInit, HashUpdate and HashFinal in a row, on one message.
use go_sqlite_rsync.Common.{
  ℕ, ◌+◌, ◌*◌, ◌/◌, ◌%◌, ◌≤◌, ◌≡◌, refl, sym, ap, ◌∙◌, Option, some, List, ◌++◌, foldl,
  foldl-append, length, length-append, length-take, length-drop, take, drop, take-append-drop,
  replicate, arith,
}
use go_sqlite_rsync.Hash.Sponge.{
  HashContext, ◌>>=◌, hash_init, hash_update, pad, output, hash_final,
}
use go_sqlite_rsync.Hash.Sponge.Ready.{
  IsReady, absorb_byte, hash_update-some, foldl-absorb_byte-IsReady,
}
use go_sqlite_rsync.Hash.Sponge.Reference.{padding, xor_block, absorb_blocks, sponge}
use go_sqlite_rsync.Hash.Sponge.Absorb.{
  context, length-padding, absorb_open, absorb-blocks, pad-padding,
}

abbrev pub initial : HashContext
initial = context 160 160 (replicate 25 0) 0

pub initial-IsReady : IsReady initial
initial-IsReady = record {
  lanes = refl;
  words = omega arith;
  room = omega arith;
  fits = omega arith;
}

pub hash_init-initial : hash_init 160 ≡ initial
unfolding hash_init
hash_init-initial = refl

cap : 160 ≤ 200
cap = omega arith

split_absorb :
    (p : HashContext) (k : ℕ) (m : List ℕ)
    → foldl absorb_byte p m ≡ foldl absorb_byte (foldl absorb_byte p (take k m)) (drop k m)
split_absorb p k m =
    ap (foldl absorb_byte p) (sym (take-append-drop k m))
    ∙ foldl-append absorb_byte p (take k m) (drop k m)

-- The message leaves its block open at its length modulo the rate.
after_message :
    (m : List ℕ) → (s : List ℕ) × (foldl absorb_byte initial m ≡ context 160 160 s (length m % 160))
after_message m =
    let k : ℕ = length m / 160 in
    let s : List ℕ = absorb_blocks k 160 (replicate 25 0) (take (k * 160) m) in
    let rest : List ℕ = drop (k * 160) m in
    (
      xor_block s 0 rest,
      split_absorb initial (k * 160) m
          ∙ ap (λ p. foldl absorb_byte p rest)
              (absorb-blocks 160 160 cap k (take (k * 160) m) (replicate 25 0) (omega arith)
                (omega (arith, length-take (k * 160) m)))
          ∙ absorb_open 160 160 cap rest s 0 (omega (arith, length-drop (k * 160) m))
          ∙ ap (context 160 160 _) (omega (arith, length-drop (k * 160) m)),
    )

abbrev pub padded : List ℕ → List ℕ
padded m = m ++ padding 160 (length m % 160)

length-padded : (m : List ℕ) → length (padded m) ≡ (length m / 160 + 1) * 160
length-padded m = omega (
  arith,
  length-append m (padding 160 (length m % 160)),
  length-padding 160 (length m % 160) (omega arith),
)

-- All of the message and its padding: whole blocks.
foldl-padded :
    (m : List ℕ)
    → foldl absorb_byte initial (padded m)
      ≡ context 160 160 (absorb_blocks (length m / 160 + 1) 160 (replicate 25 0) (padded m)) 0
foldl-padded m =
    absorb-blocks 160 160 cap (length m / 160 + 1) (padded m) (replicate 25 0) (omega arith)
      (length-padded m)

pad-message :
    (m : List ℕ) → pad (foldl absorb_byte initial m) ≡ some (foldl absorb_byte initial (padded m))
pad-message m =
    let (s, e) = after_message m in
    let n : ℕ = length m % 160 in
    rw e
      (pad-padding 160 160 cap s n (rw e at (foldl-absorb_byte-IsReady initial m initial-IsReady)))
    ∙ ap some (
        ap (λ p. foldl absorb_byte p (padding 160 n)) (sym e)
        ∙ sym (foldl-append absorb_byte initial m _))

-- The three calls on one message: the 20 bytes, `none` for a panic.
unfoldable pub digest : List ℕ → Option (List ℕ)
digest m = do p ← hash_update (hash_init 160) m; (d, _) ← hash_final p; some d

hash_final-pad :
    (p q : HashContext) → p.i_size ≡ 160 → pad p ≡ some q → hash_final p ≡ some (output q.s, q)
unfolding hash_final
hash_final-pad p q size e = ground arith

-- HashFinal returns on every message, and what it returns is a digest of the sponge.
pub hash_final-message :
    (m : List ℕ)
    → hash_final (foldl absorb_byte initial m)
      ≡ some (sponge m, foldl absorb_byte initial (padded m))
unfolding sponge
hash_final-message m =
    hash_final-pad _ _ (ap (λ (p : HashContext). p.i_size) (after_message m).1) (pad-message m)
    ∙ ap (λ (p : HashContext). some (output p.s, foldl absorb_byte initial (padded m)))
        (foldl-padded m)

-- For every message the three calls return without a panic, and give the digest of the sponge.
pub digest-sponge : (m : List ℕ) → digest m ≡ some (sponge m)
unfolding digest
digest-sponge m =
    rw (hash_init-initial, hash_update-some initial m initial-IsReady) (rw (hash_final-message m))
