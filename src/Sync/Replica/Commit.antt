-- ===== src/Sync/Replica/Commit.antt =====
-- sqlitersync/replica.go, ORIGIN_TXN and ORIGIN_END: the file is cut, committed, and the run ends.
use go_sqlite_rsync.Common.{
  ℕ, suc, ◌+◌, ◌-◌, ◌^◌, ◌<◌, ◌≤◌, ◌≡◌, refl, ap, ◌∙◌, min, true, false, List, [], ◌∷◌, ◌++◌,
  length, All, leb, ltb, lt→ltb, if◌then◌else◌, arith,
}
use go_sqlite_rsync.Common.Act.{ok, pure}
use go_sqlite_rsync.Common.Words.{u32}
use go_sqlite_rsync.Wire.{origin_txn, origin_end}
use go_sqlite_rsync.Wire.Uint32.{bytes_of_uint32}
use go_sqlite_rsync.Wire.RoundTrip.{after_read}
use go_sqlite_rsync.Sync.PageHash.{Pages}
use go_sqlite_rsync.Sync.Run.{Rsync, Database, truncate_failed, commit, change, effect, or_report}
use go_sqlite_rsync.Sync.Run.Healthy.{Healthy, tick, change-Healthy, run-Healthy, or_report-ok}
use go_sqlite_rsync.Sync.Origin.Frames.{page_frames, txn_frame}
use go_sqlite_rsync.Sync.Exchange.Receive.{next_message-byte, reading-uint32}
use go_sqlite_rsync.Sync.Replica.File.{
  cut_pages, truncate, settled, commit_file, committed, stamp_pages,
}
use go_sqlite_rsync.Sync.Replica.Page.{cut_file, on_txn}
use go_sqlite_rsync.Sync.Replica.{respond, replica_loop}
use go_sqlite_rsync.Sync.Replica.Atomic.Loop.{Answers, here, answer}
use go_sqlite_rsync.Sync.Replica.Receive.{Takes}
use go_sqlite_rsync.Sync.Replica.Finish.{
  steps, steps-input, replica_loop-Answers, Answers-trans, with_pages, with_count, Sendable,
  pages-Answers,
}

-- The file as the connection sees it, cut off after `n` pages.
abbrev with_cut : ℕ → Database → Database
with_cut n d = record d {
  page = cut_pages (n + 1) d.page;
  file_page_count = min d.file_page_count n;
}

truncate-within :
    (n : ℕ) (d : Database)
    → 1 ≤ n
    → d.in_transaction ≡ true
    → truncate (n + 1) d ≡ ok (with_cut n d)
unfolding truncate settled
truncate-within n d pos h =
    let beyond : leb (n + 1) 1 ≡ false = ground arith in
    let less : n + 1 - 1 ≡ n = omega arith in simp (beyond, less, h, truncate, settled)

cut_file-Healthy :
    (n : ℕ) (s : Rsync)
    → Healthy s.env
    → 1 ≤ n
    → n < 2 ^ 32 - 1
    → s.db.in_transaction ≡ true
    → cut_file n s ≡ (ok tt, record s { db = with_cut n (tick s).db })
unfolding cut_file
cut_file-Healthy n s h pos small inside =
    let below : ltb n (2 ^ 32 - 1) ≡ true = lt→ltb n (2 ^ 32 - 1) small in
    ap
      (λ b.
        (if b
            then or_report (change (truncate (n + 1))) (truncate_failed (u32 (n + 1)))
            else pure tt)
          s)
      below
    ∙ or_report-ok (change (truncate (n + 1))) (truncate_failed (u32 (n + 1))) s _ tt (
        change-Healthy (truncate (n + 1)) s h
        ∙ ap (λ r. effect r (tick s)) (truncate-within n (tick s).db pos inside))

-- The database after the COMMIT of a transaction that has written a page.
abbrev on_disk : Database → Database
on_disk d =
    let pages = stamp_pages d.header_byte d.page in
    record d {
      page = pages;
      in_transaction = false;
      changed = false;
      saved = record { page = pages; page_count = d.file_page_count; page_size = d.file_page_size };
    }

commit_file-within :
    (d : Database) → d.in_transaction ≡ true → d.changed ≡ true → commit_file d ≡ ok (on_disk d)
unfolding commit_file committed
commit_file-within d h wrote = simp (h, wrote, commit_file, committed)

on_txn-Healthy :
    (s : Rsync) (n : ℕ) (rest : List ℕ)
    → Healthy s.env
    → s.db.in_transaction ≡ true
    → s.kept.has_insert ≡ true
    → s.db.changed ≡ true
    → 1 ≤ n
    → n < 2 ^ 32 - 1
    → s.reader.input ≡ bytes_of_uint32 n ++ rest
    → (c : ℕ) × (on_txn s ≡ (
      ok tt,
      record s {
        reader = after_read s.reader 4 rest;
        pages = n;
        db = on_disk (with_cut n (record s.db { calls = c }));
      },
    ))
unfolding on_txn
on_txn-Healthy s n rest h inside prepared wrote pos small input =
    let s1 = record s { reader = after_read s.reader 4 rest } in
    let s2 = record s1 { db = with_cut n (tick s1).db; pages = n } in
    (
      suc (suc s.db.calls),
      simp (
        reading-uint32 s n rest (omega arith) input,
        prepared,
        cut_file-Healthy n s1 h pos small inside,
        run-Healthy commit commit_file s2 (on_disk (tick s2).db) h
            (commit_file-within (tick s2).db inside wrote),
        on_txn,
      ),
    )

pub respond-txn : (s s' : Rsync) → on_txn s ≡ (ok tt, s') → respond origin_txn s ≡ (ok true, s')
unfolding respond
respond-txn s s' h = simp (h, respond)

pub last_pass :
    (f : ℕ) (s : Rsync) (rest : List ℕ)
    → s.reader.input ≡ origin_end ∷ rest
    → replica_loop (suc f) s ≡ (ok tt, record s { reader = after_read s.reader 1 rest })
unfolding replica_loop respond
last_pass f s rest h = simp (next_message-byte s origin_end rest h, replica_loop, respond)

-- The file on disk after the run: the pages, with the header that the commit gives page 1.
pub record Synced (page : Pages) (n n_o : ℕ) (s : Rsync) : Type 0 where
  pub saved_page : s.db.saved.page ≡ stamp_pages s.db.header_byte (cut_pages (n_o + 1) page)
  pub saved_count : s.db.saved.page_count ≡ min n n_o
  pub pages : s.pages ≡ n_o
  pub in_transaction : s.db.in_transaction ≡ false

txn-Answers :
    (size j n n_o : ℕ) (held : Pages) (s : Rsync)
    → 1 ≤ n_o
    → n_o < 2 ^ 32 - 1
    → Takes size j held n (txn_frame n_o) s
    → s.kept.has_insert ≡ true
    → s.db.changed ≡ true
    → (s' : Rsync) × Answers s s' × Synced held n n_o s' × (s'.reader.input ≡ origin_end ∷ [])
txn-Answers size j n n_o held s pos small t prepared wrote =
    let s1 = record s {
      reader = after_read s.reader 1 (bytes_of_uint32 n_o ++ (origin_end ∷ []));
    } in
    let (c, done) =
      on_txn-Healthy s1 n_o (origin_end ∷ []) t.healthy t.in_transaction prepared wrote pos small
        refl in
    (
      _,
      answer (next_message-byte s origin_txn _ t.input) (respond-txn s1 _ done) here,
      record {
        saved_page = ap (λ p. stamp_pages s.db.header_byte (cut_pages (n_o + 1) p)) t.page;
        saved_count = ap (λ k. min k n_o) t.count;
        pages = refl;
        in_transaction = refl;
      },
      refl,
    )

-- Where the database does not fail, the replica is in a transaction, and the pages of the origin have
-- the page size and come by uint32 numbers other than 0, with at least one of them, and the page count
-- is neither 0 nor 0xffffffff, the loop of the replica takes them, ORIGIN_TXN and ORIGIN_END without an
-- error: on disk is then the file with these pages, cut off after the page count of the origin, with the
-- header bytes that the commit gives page 1. The loop has fuel for each byte of its input, and one.
pub replica_loop-pages :
    (size j : ℕ) (p : ℕ × List ℕ) (ps : List (ℕ × List ℕ)) (held : Pages) (n n_o : ℕ) (s : Rsync)
    (fuel : ℕ)
    → length s.reader.input + 1 ≤ fuel
    → All (Sendable size j) (p ∷ ps)
    → 1 ≤ n_o
    → n_o < 2 ^ 32 - 1
    → Takes size j held n (page_frames (p ∷ ps) ++ txn_frame n_o) s
    → (s' : Rsync) × (replica_loop fuel s ≡ (ok tt, s'))
      × Synced (with_pages j (p ∷ ps) held) (with_count (p ∷ ps) n) n_o s'
replica_loop-pages size j p ps held n n_o s fuel lasts sendable pos small t =
    let (s1, a, t1, prepared, wrote) =
      pages-Answers size j p ps held n (txn_frame n_o) s sendable t in
    let (s2, b, synced, left) =
      txn-Answers size j (with_count (p ∷ ps) n) n_o (with_pages j (p ∷ ps) held) s1 pos small t1
        prepared wrote in
    let all = Answers-trans a b in
    let f = fuel - 1 - steps all in
    let enough : fuel ≡ steps all + suc f = omega (arith, lasts, steps-input all) in
    (
      record s2 { reader = after_read s2.reader 1 [] },
      ap (λ k. replica_loop k s) enough ∙ replica_loop-Answers all (suc f) ∙ last_pass f s2 [] left,
      record {
        saved_page = synced.saved_page;
        saved_count = synced.saved_count;
        pages = synced.pages;
        in_transaction = synced.in_transaction;
      },
    )
