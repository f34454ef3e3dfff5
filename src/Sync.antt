-- ===== src/Sync.antt =====
-- sqlitersync/: the origin and replica roles.
pub mod Table
pub mod Subdivide
pub mod Run
pub mod PageHash
pub mod Origin
pub mod Replica
pub mod Messages
pub mod Options
pub mod Exchange
pub mod Convergence
pub mod Negotiation
pub mod Public
pub mod Tests
