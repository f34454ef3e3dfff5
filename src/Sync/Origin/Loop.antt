-- ===== src/Sync/Origin/Loop.antt =====
-- sqlitersync/origin.go: the variables of the message loop of originSide.
use go_sqlite_rsync.Common.{ℕ, Bool, false}

pub record Locals : Type 0 where
  pub i_hash : ℕ  -- uint32: the first page of the next hash
  pub n_hash : ℕ  -- uint32: its number of pages
  pub mx_hash : ℕ  -- uint32: the source's comment calls it the highest page hashed
  pub has_check_hash : Bool  -- pCkHash (and pInsHash) is prepared
  pub has_check_hash_n : Bool  -- pCkHashN is prepared
  pub lock_byte_page : ℕ

abbrev pub first_locals : ℕ → Locals
first_locals lock = record {
  i_hash = 1;
  n_hash = 1;
  mx_hash = 0;
  has_check_hash = false;
  has_check_hash_n = false;
  lock_byte_page = lock;
}
