-- ===== src/Sync/Origin/Frames.antt =====
-- sqlitersync/origin.go: the messages that carry pages.
use go_sqlite_rsync.Common.{ℕ, ◌+◌, refl, sym, List, [], ◌∷◌, ◌++◌, append-nil}
use go_sqlite_rsync.Common.Act.{◌>>◌}
use go_sqlite_rsync.Common.Words.{u32}
use go_sqlite_rsync.Wire.{origin_page, origin_txn, origin_end}
use go_sqlite_rsync.Wire.Uint32.{bytes_of_uint32}
use go_sqlite_rsync.Wire.Writer.{write_byte, write_bytes, write_uint32}
use go_sqlite_rsync.Wire.Writer.Pending.{pending}
use go_sqlite_rsync.Wire.Writer.Sends.{
  Sends, Sends-then, Sends-write_byte, Sends-write_bytes, Sends-write_uint32,
}
use go_sqlite_rsync.Sync.Run.{Run, writing, select_pages}
use go_sqlite_rsync.Sync.Run.Emits.{File, emitted, Emits, Emits-then, Emits-writing, Emits-query}
use go_sqlite_rsync.Sync.Origin.Ready.{write_page, send_pages, write_txn}

abbrev pub page_frames : List (ℕ × List ℕ) → List ℕ
page_frames [] = []
page_frames ((pgno, content) ∷ ps) =
    (origin_page ∷ (bytes_of_uint32 pgno ++ content)) ++ page_frames ps

abbrev pub txn_frame : ℕ → List ℕ
txn_frame pages = origin_txn ∷ (bytes_of_uint32 pages ++ (origin_end ∷ []))

Sends-write_page :
    (pgno : ℕ) (content : List ℕ)
    → Sends (write_page (pgno, content)) (origin_page ∷ (bytes_of_uint32 pgno ++ content))
unfolding write_page
Sends-write_page pgno content =
    Sends-then (write_byte origin_page) (write_uint32 pgno >> write_bytes content)
      (origin_page ∷ []) (bytes_of_uint32 pgno ++ content) (Sends-write_byte origin_page)
      (Sends-then (write_uint32 pgno) (write_bytes content) (bytes_of_uint32 pgno) content
        (Sends-write_uint32 pgno) (Sends-write_bytes content))

pub Sends-write_txn : (pages : ℕ) → Sends (write_txn pages) (txn_frame pages)
unfolding write_txn
Sends-write_txn pages =
    Sends-then (write_byte origin_txn) (write_uint32 pages >> write_byte origin_end)
      (origin_txn ∷ []) _ (Sends-write_byte origin_txn)
      (Sends-then (write_uint32 pages) (write_byte origin_end) (bytes_of_uint32 pages)
        (origin_end ∷ []) (Sends-write_uint32 pages) (Sends-write_byte origin_end))

pub send_pages-Emits :
    (file : File) (ps : List (ℕ × List ℕ)) → Emits file (send_pages ps) (page_frames ps)
unfolding send_pages
send_pages-Emits file [] = λ s out. emitted refl out (sym (append-nil (pending s.writer)))
send_pages-Emits file ((pgno, content) ∷ ps) =
    Emits-query select_pages counted (page_frames ((pgno, content) ∷ ps)) (λ s out.
      Emits-then (writing (write_page (pgno, content))) (send_pages ps)
        (origin_page ∷ (bytes_of_uint32 pgno ++ content)) (page_frames ps)
        (Emits-writing (write_page (pgno, content))
          (origin_page ∷ (bytes_of_uint32 pgno ++ content)) (Sends-write_page pgno content))
        (send_pages-Emits file ps) (record s { page_updates = u32 (s.page_updates + 1) })
        (record {
          healthy = out.healthy;
          page = out.page;
          count = out.count;
          ready = out.ready;
          fits = out.fits;
        }))
  where
    counted : Run (Unit {0})
    counted s =
        (writing (write_page (pgno, content)) >> send_pages ps)
          (record s { page_updates = u32 (s.page_updates + 1) })
