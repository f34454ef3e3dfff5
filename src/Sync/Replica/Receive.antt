-- ===== src/Sync/Replica/Receive.antt =====
-- sqlitersync/replica.go: the message loop on one page and on the end of the transaction.
use go_sqlite_rsync.Common.{
  ℕ, suc, ◌+◌, ◌≤◌, ◌≡◌, refl, sym, ap, ◌∙◌, Bool, true, false, Bool-cases, inl, inr, some, List,
  ◌∷◌, ◌++◌, length, ltb, ◌==◌, arith, if◌then◌else◌,
}
use go_sqlite_rsync.Common.Act.{ok}
use go_sqlite_rsync.Common.Words.{u32, IsU32}
use go_sqlite_rsync.Common.Int.{pos}
use go_sqlite_rsync.Wire.{origin_page}
use go_sqlite_rsync.Wire.Uint32.{bytes_of_uint32}
use go_sqlite_rsync.Wire.Reader.{read_bytes}
use go_sqlite_rsync.Wire.RoundTrip.{after_read, read_bytes_lem}
use go_sqlite_rsync.Sync.PageHash.{Pages}
use go_sqlite_rsync.Sync.Run.{Rsync, Database, insert_page, insert_failed, reading, change, effect}
use go_sqlite_rsync.Sync.Run.Healthy.{Healthy, tick, prepare-Healthy, change-Healthy, or_report-ok}
use go_sqlite_rsync.Sync.Exchange.Receive.{next_message-byte, reading-uint32}
use go_sqlite_rsync.Sync.Replica.File.{put_page, store_page, settled}
use go_sqlite_rsync.Sync.Replica.Page.{keep_wal, prepare_insert, insert_received, on_page}
use go_sqlite_rsync.Sync.Replica.{respond}
use go_sqlite_rsync.Sync.Replica.Atomic.Loop.{Answers, here, answer}

-- The replica, in a transaction with pages of `size` bytes, whose file has the pages `held` now and
-- counts `n` of them, and which has `rest` to read.
pub record Takes (size j : ℕ) (held : Pages) (n : ℕ) (rest : List ℕ) (s : Rsync) : Type 0 where
  pub healthy : Healthy s.env
  pub db_open : s.db_open ≡ true
  pub in_transaction : s.db.in_transaction ≡ true
  pub page_bytes : s.page_bytes ≡ size
  pub j_mode : s.kept.j_mode ≡ j
  pub page : s.db.page ≡ held
  pub count : s.db.file_page_count ≡ n
  pub input : s.reader.input ≡ rest

abbrev pub grown : ℕ → ℕ → ℕ
grown pgno count = if ltb count pgno then pgno else count

prepare_insert-Healthy :
    (s : Rsync)
    → Healthy s.env
    → s.db_open ≡ true
    → (c : ℕ) × (b : Bool) × (prepare_insert s ≡ (
      ok tt,
      record s {
        db = record s.db { calls = c };
        kept = record s.kept { has_insert = true; closes_insert = b };
      },
    ))
unfolding prepare_insert
prepare_insert-Healthy s h is_open = elim (Bool-cases s.kept.has_insert) [
  | inl there ↦ (
    s.db.calls,
    s.kept.closes_insert,
    simp (there, prepare_insert)
        (ap (λ b. (ok tt, record s { kept = record s.kept { has_insert = b } })) there),
  )
  | inr new ↦
      (suc s.db.calls, true, simp (new, is_open, prepare-Healthy insert_page s h, prepare_insert))
]

-- The file as the connection sees it, with a page stored.
abbrev pub with_page : ℕ → List ℕ → Database → Database
with_page pgno page d = record d {
  page = put_page pgno page d.page;
  file_page_count = grown pgno d.file_page_count;
  changed = true;
}

store_page-within :
    (pgno : ℕ) (page : List ℕ) (d : Database)
    → 1 ≤ pgno
    → d.in_transaction ≡ true
    → store_page pgno page d ≡ ok (with_page pgno page d)
unfolding store_page settled
store_page-within pgno page d numbered h =
    let some_page : (pgno == 0) ≡ false = ground arith in simp (some_page, h, store_page, settled)

insert_received-Healthy :
    (pgno : ℕ) (page : List ℕ) (s : Rsync)
    → Healthy s.env
    → 1 ≤ pgno
    → s.db.in_transaction ≡ true
    → insert_received pgno page s ≡ (ok tt, record s { db = with_page pgno page (tick s).db })
unfolding insert_received
insert_received-Healthy pgno page s h numbered inside =
    or_report-ok (change (store_page pgno page)) (insert_failed pgno) s _ tt (
      change-Healthy (store_page pgno page) s h
      ∙ ap (λ r. effect r (tick s)) (store_page-within pgno page (tick s).db numbered inside))

reading-bytes :
    (s : Rsync) (content rest : List ℕ)
    → s.page_bytes ≡ length content
    → s.reader.input ≡ content ++ rest
    → reading (read_bytes (pos s.page_bytes)) s
      ≡ (ok content, record s { reader = after_read s.reader (length content) rest })
unfolding reading
reading-bytes s content rest size h = rw (size, read_bytes_lem s.reader rest content h)

on_page-Healthy :
    (s : Rsync) (pgno : ℕ) (content stored rest : List ℕ)
    → Healthy s.env
    → s.db_open ≡ true
    → s.db.in_transaction ≡ true
    → 1 ≤ pgno
    → IsU32 pgno
    → s.page_bytes ≡ length content
    → keep_wal pgno s.kept.j_mode content ≡ some stored
    → s.reader.input ≡ bytes_of_uint32 pgno ++ (content ++ rest)
    → (c : ℕ) × (b : Bool) × (on_page s ≡ (
      ok tt,
      record s {
        reader = after_read (after_read s.reader 4 (content ++ rest)) (length content) rest;
        kept = record s.kept { has_insert = true; closes_insert = b };
        page_updates = u32 (s.page_updates + 1);
        db = with_page pgno stored (record s.db { calls = c });
      },
    ))
unfolding on_page
on_page-Healthy s pgno content stored rest h is_open inside numbered small size kept input =
    let s2 = record s { reader = after_read s.reader 4 (content ++ rest) } in
    let (c, b, prepared) = prepare_insert-Healthy s2 h is_open in
    let s3 = record s2 {
      db = record s2.db { calls = c };
      kept = record s2.kept { has_insert = true; closes_insert = b };
    } in
    let s4 = record s3 { reader = after_read s3.reader (length content) rest } in
    let s5 = record s4 { page_updates = u32 (s4.page_updates + 1) } in
    (
      suc c,
      b,
      simp (
        reading-uint32 s pgno (content ++ rest) small input,
        prepared,
        reading-bytes s3 content rest size refl,
        kept,
        insert_received-Healthy pgno stored s5 h numbered inside,
        on_page,
      ),
    )

respond-page : (s s' : Rsync) → on_page s ≡ (ok tt, s') → respond origin_page s ≡ (ok true, s')
unfolding respond
respond-page s s' h = simp (h, respond)

-- ORIGIN_PAGE puts the page into the file that the replica sees.
pub page-Answers :
    (size j : ℕ) (held : Pages) (n pgno : ℕ) (content stored rest : List ℕ) (s : Rsync)
    → 1 ≤ pgno
    → IsU32 pgno
    → length content ≡ size
    → keep_wal pgno j content ≡ some stored
    → Takes size j held n (origin_page ∷ (bytes_of_uint32 pgno ++ (content ++ rest))) s
    → (s' : Rsync) × Answers s s'
      × Takes size j (put_page pgno stored held) (grown pgno n) rest s'
      × (s'.kept.has_insert ≡ true)
      × (s'.db.changed ≡ true)
page-Answers size j held n pgno content stored rest s numbered small exact kept t =
    let s1 = record s {
      reader = after_read s.reader 1 (bytes_of_uint32 pgno ++ (content ++ rest));
    } in
    let (c, b, done) =
      on_page-Healthy s1 pgno content stored rest t.healthy t.db_open t.in_transaction numbered
        small (t.page_bytes ∙ sym exact) (ap (λ k. keep_wal pgno k content) t.j_mode ∙ kept) refl in
    (
      _,
      answer (next_message-byte s origin_page _ t.input) (respond-page s1 _ done) here,
      record {
        healthy = t.healthy;
        db_open = t.db_open;
        in_transaction = t.in_transaction;
        page_bytes = t.page_bytes;
        j_mode = t.j_mode;
        page = ap (put_page pgno stored) t.page;
        count = ap (grown pgno) t.count;
        input = refl;
      },
      refl,
      refl,
    )
