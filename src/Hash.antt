-- ===== src/Hash.antt =====
-- hash/: the Keccak engine, the sponge over it, and the SQL functions that the protocol uses.
pub mod Keccak
pub mod Sponge
pub mod Sql
pub mod Tests
