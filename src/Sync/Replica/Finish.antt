-- ===== src/Sync/Replica/Finish.antt =====
-- sqlitersync/replica.go: the message loop on all pages.
use go_sqlite_rsync.Common.{
  ℕ, suc, ◌+◌, ◌≤◌, ◌≡◌, refl, ap, subst, ◌∙◌, true, none, some, List, [], ◌∷◌, ◌++◌, length, All,
  append_assoc, arith,
}
use go_sqlite_rsync.Common.Act.{ok}
use go_sqlite_rsync.Common.Words.{IsU32}
use go_sqlite_rsync.Wire.{origin_page}
use go_sqlite_rsync.Wire.Uint32.{bytes_of_uint32}
use go_sqlite_rsync.Sync.PageHash.{Pages}
use go_sqlite_rsync.Sync.Run.{Rsync}
use go_sqlite_rsync.Sync.Origin.{next_message}
use go_sqlite_rsync.Sync.Origin.Fuel.{next_message-shorter}
use go_sqlite_rsync.Sync.Origin.Frames.{page_frames}
use go_sqlite_rsync.Sync.Replica.File.{put_page}
use go_sqlite_rsync.Sync.Replica.Page.{keep_wal}
use go_sqlite_rsync.Sync.Replica.{respond, replica_loop}
use go_sqlite_rsync.Sync.Replica.Progress.{Progress-respond}
use go_sqlite_rsync.Sync.Replica.Atomic.Loop.{Answers, here, answer}
use go_sqlite_rsync.Sync.Replica.Receive.{Takes, grown, page-Answers}

one_answer :
    (f c : ℕ) (s s1 s2 : Rsync)
    → next_message s ≡ (ok (some c), s1)
    → respond c s1 ≡ (ok true, s2)
    → replica_loop (suc f) s ≡ replica_loop f s2
unfolding replica_loop
one_answer f c s s1 s2 m h = simp (m, h, replica_loop)

abbrev pub steps : {s s' : Rsync} → Answers s s' → ℕ
steps here = 0
steps (answer m h a) = suc (steps a)

-- Along a chain of answers, the loop of the replica goes on from where the chain ends.
pub replica_loop-Answers :
    {s s' : Rsync} (a : Answers s s') (f : ℕ) → replica_loop (steps a + f) s ≡ replica_loop f s'
replica_loop-Answers (here {s}) f =
    let same : 0 + f ≡ f = omega arith in ap (λ n. replica_loop n s) same
replica_loop-Answers (answer {c} {s} {s1} {s2} {s'} m h a) f =
    let next : suc (steps a) + f ≡ suc (steps a + f) = omega arith in
    ap (λ n. replica_loop n s) next
    ∙ one_answer (steps a + f) c s s1 s2 m h
    ∙ replica_loop-Answers a f

pub Answers-trans : {s s1 s2 : Rsync} → Answers s s1 → Answers s1 s2 → Answers s s2
Answers-trans here b = b
Answers-trans (answer m h a) b = answer m h (Answers-trans a b)

-- The file after the pages, with the bytes that a replica in WAL mode keeps.
abbrev pub kept_page : ℕ → ℕ → List ℕ → List ℕ
kept_page j pgno content = elim (keep_wal pgno j content) [ none ↦ content | some page ↦ page ]

abbrev pub with_pages : ℕ → List (ℕ × List ℕ) → Pages → Pages
with_pages j [] held = held
with_pages j ((pgno, content) ∷ ps) held =
    with_pages j ps (put_page pgno (kept_page j pgno content) held)

abbrev pub with_count : List (ℕ × List ℕ) → ℕ → ℕ
with_count [] n = n
with_count ((pgno, content) ∷ ps) n = with_count ps (grown pgno n)

-- A page that can be sent: its number is a uint32 and not 0, it has `size` bytes, and the bytes that say the
-- journal mode are there.
pub record Sendable (size j : ℕ) (p : ℕ × List ℕ) : Type 0 where
  pub numbered : 1 ≤ p.0
  pub small : IsU32 p.0
  pub exact : length p.1 ≡ size
  pub kept : keep_wal p.0 j p.1 ≡ some (kept_page j p.0 p.1)

frame_of :
    (pgno : ℕ) (content : List ℕ) (ps : List (ℕ × List ℕ)) (rest : List ℕ)
    → page_frames ((pgno, content) ∷ ps) ++ rest
      ≡ origin_page ∷ (bytes_of_uint32 pgno ++ (content ++ (page_frames ps ++ rest)))
frame_of pgno content ps rest =
    append_assoc (origin_page ∷ (bytes_of_uint32 pgno ++ content)) (page_frames ps) rest
    ∙ ap (◌∷◌ origin_page) (append_assoc (bytes_of_uint32 pgno) content (page_frames ps ++ rest))

Takes-input :
    {size j : ℕ} {held : Pages} {n : ℕ} {rest rest' : List ℕ} {s : Rsync}
    → rest ≡ rest'
    → Takes size j held n rest s
    → Takes size j held n rest' s
Takes-input {size} {j} {held} {n} {rest} {rest'} {s} e t = subst (λ r. Takes size j held n r s) e t

-- With one page at least, pIns is prepared at the end.
pub pages-Answers :
    (size j : ℕ) (p : ℕ × List ℕ) (ps : List (ℕ × List ℕ)) (held : Pages) (n : ℕ) (rest : List ℕ)
    (s : Rsync)
    → All (Sendable size j) (p ∷ ps)
    → Takes size j held n (page_frames (p ∷ ps) ++ rest) s
    → (s' : Rsync) × Answers s s'
      × Takes size j (with_pages j (p ∷ ps) held) (with_count (p ∷ ps) n) rest s'
      × (s'.kept.has_insert ≡ true)
      × (s'.db.changed ≡ true)
pages-Answers size j (pgno, content) [] held n rest s (ok_page, rest_ok) t =
    page-Answers size j held n pgno content (kept_page j pgno content) rest s ok_page.numbered
      ok_page.small ok_page.exact ok_page.kept (Takes-input (frame_of pgno content [] rest) t)
pages-Answers size j (pgno, content) (p ∷ ps) held n rest s (ok_page, rest_ok) t =
    let (s1, a, t1, i, wrote) =
      page-Answers size j held n pgno content (kept_page j pgno content)
        (page_frames (p ∷ ps) ++ rest) s ok_page.numbered ok_page.small ok_page.exact ok_page.kept
        (Takes-input (frame_of pgno content (p ∷ ps) rest) t) in
    let (s2, b, t2, i2, wrote2) =
      pages-Answers size j p ps (put_page pgno (kept_page j pgno content) held) (grown pgno n) rest
        s1 rest_ok t1 in
    (s2, Answers-trans a b, t2, i2, wrote2)

-- Each answer takes a byte at least.
pub steps-input :
    {s s' : Rsync} (a : Answers s s') → steps a + length s'.reader.input ≤ length s.reader.input
steps-input here = omega arith
steps-input (answer {c} {s} {s1} {s2} {s'} m h a) =
    let taken = next_message-shorter s c s.reader.input refl (ap (λ r. r.0) m) in
    omega (
      arith,
      taken,
      steps-input a,
      (Progress-respond c).shorter s1,
      ap (λ r. length r.1.reader.input) m,
      ap (λ r. length r.1.reader.input) h,
    )
