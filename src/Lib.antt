-- ===== src/Lib.antt =====
-- go-sqlite-rsync: the sqlite3_rsync protocol in Go.
--
-- Two processes make a copy of a SQLite database equal to its origin. The replica sends hashes of
-- its pages, the origin compares them with its own, asks for finer hashes where a hash of many pages
-- differs, and sends the pages that differ. Three packages do this:
--
--   hash/         the page hash (Keccak with six mixing steps) and its two SQL functions;
--   wire/         the bytes of each message, on a reader and a writer that count;
--   sqlitersync/  the two roles, which call the other packages and SQLite.
--
-- The parts and their files, with paths from the repository's root:
--
--   hash/hash.go   keccakF1600Step, rol64: Hash/Keccak. HashContext, HashInit, HashUpdate, HashFinal:
--                  Hash/Sponge. An index outside the state, which panics in Go, is `none`.
--                  Hash/Keccak/Reference has the round of FIPS 202, Hash/Sponge/Reference the
--                  sponge construction over whole blocks.
--   hash/sql.go    hashFunc and the aggregate object: Hash/Sql. Rows and results are values of the
--                  driver, a panic is an outcome.
--   wire/wire.go   the message bytes: Wire; ReadUint32 and WriteUint32: Wire/Uint32; Reader:
--                  Wire/Reader; Writer: Wire/Writer. A reader is the bytes still to come and how
--                  the stream ends. A writer has bufio's buffer of 4096 bytes over any stream, which
--                  may break inside any chunk; its loop passes at most twice (`write_loop 2`).
--   sqlitersync/sql.go
--                  rsync, run, prepare, runReturnUInt, runReturnText: Sync/Run. A run is an action of
--                  the state `Rsync` that may end with an error. Each call of the database is
--                  counted, and the environment says which of them fail.
--   sqlitersync/subdivide.go
--                  subdivideHashRange: Sync/Subdivide; sendHashMessages: Sync/Messages.
--   sqlitersync/origin.go
--                  originSide: Sync/Origin; its messages REPLICA_CONFIG and REPLICA_HASH:
--                  Sync/Origin/Hash; REPLICA_READY: Sync/Origin/Ready; the variables of its loop:
--                  Sync/Origin/Loop. Sync/Origin/Passes has the loop as a step relation.
--   sqlitersync/replica.go
--                  replicaSide: Sync/Replica; ORIGIN_BEGIN: Sync/Replica/Begin; ATTACH and the encodings:
--                  Sync/Replica/Attach; ORIGIN_PAGE and ORIGIN_TXN: Sync/Replica/Page; what the statements
--                  do to the file: Sync/Replica/File.
--   sqlitersync/sync.go
--                  newRsync and stats: Sync/Options; Origin, Replica and ctxStream: Sync/Public.
--
-- Sync/Exchange is about both roles: the messages of a round on the wire, what the loop of the
-- origin makes of them, and pages that both sides have. Sync/Convergence is about the end of a run:
-- the pages that the origin sends, in the file of the replica; and about a whole run of one round,
-- from the start of the origin (Opens, Sends, Synchronize) over the replica's answer to ORIGIN_BEGIN
-- (Begins, Greets, Replies) to the commit (Sync). Sync/Negotiation is about the beginning of
-- a run: the protocol version.
--
-- The tables sendHash and badHash are lists in the order of their keys (Sync/Table), and the SQL that
-- hashes pages is written over the model of package hash (Sync/PageHash).
--
-- Bounds and fuel. Fields of a fixed width wrap where the source's do. WritePow2's loop has its
-- argument as fuel, the recursive query of subdivideHashRange the number of pages and one, and the
-- message loops of the roles the number of bytes in their input and one, since each pass takes a byte.
--
-- Parameters. What the stream below a Writer does with a chunk, how the stream below a Reader ends,
-- which calls of the database fail, the pages of the file, the texts that fmt prints, whether the text
-- of a driver error is about encodings, the bytes that a commit writes into the header of page 1, the
-- journal mode that SQLite reads from a file, the page size and first page that it gives an empty one,
-- and when a context is found cancelled.
--
-- The file of the replica is two snapshots, on disk and within the transaction; a commit rewrites bytes
-- 24 to 27 and 92 to 99 of page 1, as sqlitersync/replica_test.go says. A panic of replicaSide
-- is an error that ends its loop; the deferred calls run after it, and their errors follow it in a list,
-- as errors.Join puts them together.
--
-- Not modelled. The registration of the SQL functions is a call of the driver. The deferred Close calls
-- of the origin, whose errors are joined to the error of its run at the end, are left out.
-- testdata/ has maintenance scripts and the C program this one was ported from.
pub mod Common
pub mod Hash
pub mod Wire
pub mod Sync
