-- ===== src/Hash/Tests.antt =====
-- The hash engine at concrete inputs, and its theorems there. The digests are those of
-- testdata/hash_golden_vectors.json.
use go_sqlite_rsync.Common.{
  ℕ, ◌≡◌, ◌≢◌, refl, none, some, List, [], ◌∷◌, ◌++◌, replicate, foldl, arith, All,
}
use go_sqlite_rsync.Hash.Keccak.{keccak_f1600_step, rol64, lane, rc}
use go_sqlite_rsync.Hash.Keccak.Reference.{
  reference_round, reference_rounds, keccak_f1600_step-Reference,
}
use go_sqlite_rsync.Hash.Sponge.{
  HashContext, hash_init, hash_update, hash_final, update_byte, advance, xor_byte, pad, output,
}
use go_sqlite_rsync.Hash.Sponge.Ready.{IsReady, hash_update-IsReady, hash_init-IsReady}
use go_sqlite_rsync.Hash.Sponge.Reference.{sponge}
use go_sqlite_rsync.Hash.Sponge.Digest.{digest, digest-sponge}
use go_sqlite_rsync.Hash.Sql.{
  Value, null, blob, text, other, OtherType, returns, value, error, agghash, agghash_unsupported,
  hash_func, AgghashAggregate, make_aggregate, step_all, window_value,
}
use go_sqlite_rsync.Hash.Sql.Aggregate.{
  joined, hashed, IsSupported, agghash-joined, window_value_twice, agghash_unsupported_row,
  hash_func-sponge,
}

abbrev empty_digest : List ℕ
empty_digest =
    0x52 ∷ 0x9a ∷ 0x7c ∷ 0xd1 ∷ 0xae ∷ 0x4d ∷ 0xda ∷ 0xca ∷ 0x9c ∷ 0x6e ∷ 0x82 ∷ 0xe8 ∷ 0x61 ∷ 0x4a
    ∷ 0x92 ∷ 0xc7 ∷ 0x7b ∷ 0x78 ∷ 0x66 ∷ 0xf3 ∷ []

digest_empty : digest [] ≡ some empty_digest
unfolding digest hash_init hash_update hash_final update_byte advance xor_byte pad output
    keccak_f1600_step rol64
digest_empty = refl

abbrev abc_digest : List ℕ
abc_digest =
    0x48 ∷ 0x17 ∷ 0xbb ∷ 0xcb ∷ 0x6c ∷ 0x37 ∷ 0xe2 ∷ 0x12 ∷ 0xa2 ∷ 0x98 ∷ 0xc8 ∷ 0x1e ∷ 0xa7 ∷ 0xd7
    ∷ 0x17 ∷ 0x7f ∷ 0xb6 ∷ 0xa2 ∷ 0x92 ∷ 0x9e ∷ []

digest_abc : digest (b'a' ∷ b'b' ∷ b'c' ∷ []) ≡ some abc_digest
unfolding digest hash_init hash_update hash_final update_byte advance xor_byte pad output
    keccak_f1600_step rol64
digest_abc = refl

abbrev blank : List ℕ
blank = replicate 25 0

-- Six rounds in place are not the six rounds of FIPS 202.
keccak_f1600_step-ne-rounds :
    lane (keccak_f1600_step blank) 1 ≢ lane (foldl (λ s k. reference_round k s) blank rc) 1
unfolding keccak_f1600_step rol64
keccak_f1600_step-ne-rounds = omega arith

keccak_f1600_step-Reference_example : keccak_f1600_step blank ≡ reference_rounds blank rc
keccak_f1600_step-Reference_example = keccak_f1600_step-Reference blank

hash_update-IsReady_example :
    (q : HashContext) × (hash_update (hash_init 160) (1 ∷ 2 ∷ []) ≡ some q) × IsReady q
hash_update-IsReady_example =
    hash_update-IsReady (hash_init 160) (1 ∷ 2 ∷ []) (hash_init-IsReady 160)

hash_init-IsReady_example : IsReady (hash_init 256)
hash_init-IsReady_example = hash_init-IsReady 256

digest-sponge_example : digest (1 ∷ 2 ∷ []) ≡ some (sponge (1 ∷ 2 ∷ []))
digest-sponge_example = digest-sponge (1 ∷ 2 ∷ [])

abbrev rows : List Value
rows = blob (b'a' ∷ []) ∷ null ∷ text (b'b' ∷ b'c' ∷ []) ∷ []

rows-IsSupported : All IsSupported rows
rows-IsSupported = (tt, (tt, (tt, tt)))

agghash-joined_example : agghash rows ≡ returns (value (hashed (joined rows)))
agghash-joined_example = agghash-joined rows rows-IsSupported

agghash_abc : joined rows ≡ some (b'a' ∷ b'b' ∷ b'c' ∷ [])
unfolding joined
agghash_abc = refl

window_value_twice_example :
    (a b : AgghashAggregate) × (step_all make_aggregate rows ≡ returns (a, none))
    × (window_value a ≡ returns (b, hashed (joined rows)))
    × (window_value b ≡ returns (b, hashed (joined rows)))
window_value_twice_example = window_value_twice rows rows-IsSupported

agghash_unsupported_row_example :
    agghash (rows ++ other OtherType.int64 ∷ null ∷ [])
    ≡ returns (error (agghash_unsupported OtherType.int64))
agghash_unsupported_row_example =
    agghash_unsupported_row rows (null ∷ []) OtherType.int64 rows-IsSupported

hash_func-sponge_example : hash_func (text (7 ∷ []) ∷ []) ≡ returns (value (blob (sponge (7 ∷ []))))
hash_func-sponge_example = hash_func-sponge (text (7 ∷ []))
