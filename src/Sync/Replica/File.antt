-- ===== src/Sync/Replica/File.antt =====
-- sqlitersync/replica.go: what its statements do to the file of the replica. sqlite_dbpage takes an
-- INSERT as a replacement, and one of NULL as the end of the file before that page; it refuses page 0,
-- and NULL at page 1. A change reaches the disk at the end of its transaction, and a transaction that
-- has written a page rewrites the change counter and the version fields in the header of page 1.
use go_sqlite_rsync.Common.{
  ℕ, ◌+◌, ◌-◌, min, Bool, true, false, ◌&&◌, ◌||◌, Option, none, some, List, [], ◌∷◌, ltb, leb,
  ◌==◌, if◌then◌else◌,
}
use go_sqlite_rsync.Common.Act.{Result, ok, err}
use go_sqlite_rsync.Sync.Table.{Range, insert_rows}
use go_sqlite_rsync.Sync.PageHash.{Pages}
use go_sqlite_rsync.Sync.Run.{
  Database, Snapshot, DbError, constraint, no_transaction, bad_page, Env,
}

abbrev pub snapshot : Database → Snapshot
snapshot d = record { page = d.page; page_count = d.file_page_count; page_size = d.file_page_size }

-- The places of the change counter, of the version-valid-for field and of the SQLite version.
unfoldable pub is_header_place : ℕ → Bool
is_header_place i = (leb 24 i && leb i 27) || (leb 92 i && leb i 99)

-- A page, from its byte at place `i` on, with new header bytes.
unfoldable pub new_header : (ℕ → ℕ) → ℕ → List ℕ → List ℕ
new_header byte i [] = []
new_header byte i (b ∷ bs) = (if is_header_place i then byte i else b) ∷ new_header byte (i + 1) bs

unfoldable pub new_header_page : (List ℕ → ℕ → ℕ) → Option (List ℕ) → Option (List ℕ)
new_header_page byte none = none
new_header_page byte (some page) = some (new_header (byte page) 0 page)

unfoldable pub stamp_pages : (List ℕ → ℕ → ℕ) → Pages → Pages
stamp_pages byte pages k = if k == 1 then new_header_page byte (pages 1) else pages k

-- The end of a transaction.
unfoldable pub committed : Database → Database
committed d =
    let pages = if d.changed then stamp_pages d.header_byte d.page else d.page in
    record d {
      page = pages;
      in_transaction = false;
      changed = false;
      saved = record { page = pages; page_count = d.file_page_count; page_size = d.file_page_size };
    }

-- Without a transaction, each statement is one.
unfoldable pub settled : Database → Database
settled d = if d.in_transaction then d else committed d

unfoldable pub put_page : ℕ → List ℕ → Pages → Pages
put_page pgno content pages k = if k == pgno then some content else pages k

unfoldable pub cut_pages : ℕ → Pages → Pages
cut_pages pgno pages k = if ltb k pgno then pages k else none

unfoldable pub store_page : ℕ → List ℕ → Database → Result DbError Database
store_page pgno content d =
    if pgno == 0
    then err bad_page
    else ok (
        settled (record d {
          page = put_page pgno content d.page;
          file_page_count = if ltb d.file_page_count pgno then pgno else d.file_page_count;
          changed = true;
        }))

unfoldable pub truncate : ℕ → Database → Result DbError Database
truncate pgno d =
    if leb pgno 1
    then err bad_page
    else ok (
        settled (record d {
          page = cut_pages pgno d.page;
          file_page_count = min d.file_page_count (pgno - 1);
        }))

unfoldable pub commit_file : Database → Result DbError Database
commit_file d = if d.in_transaction then ok (committed d) else err no_transaction

-- The file when it is attached.
unfoldable pub attached : Database → Database
attached d = record d {
  page = d.saved.page;
  file_page_count = d.saved.page_count;
  file_page_size = d.saved.page_size;
  in_transaction = false;
  changed = false;
}

-- BEGIN IMMEDIATE writes page 1 of an empty file.
unfoldable pub begun : Env → Database → Database
begun env d =
    if d.file_page_count == 0
    then record d {
      page = put_page 1 (env.first_page d.file_page_size) d.page;
      file_page_count = 1;
      in_transaction = true;
      changed = true;
    }
    else record d { in_transaction = true }

abbrev pub inserted : Database → Option (List Range) → Result DbError Database
inserted d none = err constraint
inserted d (some t) = ok (record d { send_hash_table = t })

-- INSERT INTO sendHash
unfoldable pub into_send_hash : List Range → Database → Result DbError Database
into_send_hash rows d = inserted d (insert_rows rows d.send_hash_table)
