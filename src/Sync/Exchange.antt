-- ===== src/Sync/Exchange.antt =====
-- One round between the roles: the messages that sendHashMessages writes, and what the loop of
-- originSide makes of them.
pub mod Rows
pub mod Receive
pub mod Round
pub mod Send
pub mod Finish
pub mod Agree
pub mod Tests
use go_sqlite_rsync.Common.{
  ℕ, ◌+◌, ◌≡◌, ◌≤◌, Bool, false, ◌&&◌, List, [], ◌∷◌, ◌++◌, length, ltb, ◌==◌, if◌then◌else◌,
}
use go_sqlite_rsync.Common.Words.{u32, IsU32}
use go_sqlite_rsync.Wire.{replica_hash, replica_config}
use go_sqlite_rsync.Wire.Uint32.{bytes_of_uint32}
use go_sqlite_rsync.Sync.Table.{Range, Table}
use go_sqlite_rsync.Sync.PageHash.{Pages}
use go_sqlite_rsync.Sync.Origin.Hash.{is_match}

-- A range and the hash that the replica has for it.
abbrev pub Entry : Type 0
Entry = Range × List ℕ

abbrev pub config_frame : ℕ → ℕ → Range → List ℕ
config_frame i n r =
    if r.first == i && r.count == n
    then []
    else replica_config ∷ (bytes_of_uint32 r.first ++ bytes_of_uint32 r.count)

-- The bytes of the messages for entries in a row, where the origin expects `n` pages from page `i` on.
abbrev pub messages : ℕ → ℕ → List Entry → List ℕ
messages i n [] = []
messages i n ((r, h) ∷ es) =
    config_frame i n r ++ (replica_hash ∷ (h ++ messages (u32 (r.first + r.count)) r.count es))

-- The ranges whose hash is not the origin's.
abbrev pub mismatches : Pages → List Entry → List Range
mismatches pages [] = []
mismatches pages ((r, h) ∷ es) =
    if is_match pages r.first r.count h then mismatches pages es else r ∷ mismatches pages es

-- The entries come by their first page, which is `k` at least, and each is of the size of its fields.
abbrev pub Rising : ℕ → List Entry → Type 0
Rising k [] = Unit {0}
Rising k ((r, h) ∷ es) =
    (k ≤ r.first) × IsU32 r.first × IsU32 r.count × (length h ≡ 20) × Rising (r.first + 1) es

-- The first page that no entry is of, as far as the origin knows.
abbrev pub mx_next : ℕ → Range → ℕ
mx_next mx r = let next = u32 (r.first + r.count) in if ltb mx next then next else mx

abbrev pub mx_after : ℕ → List Entry → ℕ
mx_after mx [] = mx
mx_after mx ((r, h) ∷ es) = mx_after (mx_next mx r) es
