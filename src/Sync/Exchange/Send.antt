-- ===== src/Sync/Exchange/Send.antt =====
-- sqlitersync/subdivide.go, sendHashMessages: the entries of a round.
use go_sqlite_rsync.Sync.Run.{Rsync, Run, writing, send_hash}
use go_sqlite_rsync.Common.Act.{bind, ok, ◌>>◌, pure}
use go_sqlite_rsync.Common.{
  All, leb, arith, ◌||◌, ◌^◌, ℕ, ◌+◌, ◌≡◌, refl, sym, ap, subst, ◌∙◌, Bool, true, false, ◌&&◌, some,
  List, [], ◌∷◌, ◌++◌, ◌==◌, if◌then◌else◌, append-nil, append_assoc,
}
use go_sqlite_rsync.Common.Words.{IsU32, u32, u64}
use go_sqlite_rsync.Wire.{replica_hash, replica_config}
use go_sqlite_rsync.Wire.Uint32.{bytes_of_uint32}
use go_sqlite_rsync.Wire.Writer.{Write, write_byte, write_bytes, write_uint32}
use go_sqlite_rsync.Wire.Writer.Pending.{pending}
use go_sqlite_rsync.Wire.Writer.Loop.{whole}
use go_sqlite_rsync.Wire.Writer.Sends.{
  Sends, Sends-then, Sends-write_byte, Sends-write_bytes, Sends-write_uint32,
}
use go_sqlite_rsync.Sync.Table.{Range}
use go_sqlite_rsync.Sync.PageHash.{Pages}
use go_sqlite_rsync.Sync.Run.Emits.{
  File, Emitted, emitted, Emits, Emits-then, Emits-writing, Emits-query,
}
use go_sqlite_rsync.Sync.Messages.{
  scan, entry_hash, write_config, write_hash, send_entry, send_entries,
}
use go_sqlite_rsync.Sync.Exchange.{Entry, config_frame, messages}

-- The rows of sendHash with the hashes of their pages, which all exist.
abbrev pub Hashed : Pages → List Range → List Entry → Type 0
Hashed pages [] [] = Unit {0}
Hashed pages [] (e ∷ es) = ⊥
Hashed pages (r ∷ rs) [] = ⊥
Hashed pages (r ∷ rs) ((r', h) ∷ es) = (r' ≡ r) × (entry_hash pages r ≡ some h) × Hashed pages rs es

Sends-nothing : Sends (pure tt) []
Sends-nothing w ready small = whole refl ready (sym (append-nil (pending w))) small

Sends-write_config : (i n : ℕ) (r : Range) → Sends (write_config i n r) (config_frame i n r)
unfolding write_config
Sends-write_config i n r = choose (r.first == i && r.count == n)
  where
    announce : Write
    announce = do write_byte replica_config; write_uint32 r.first; write_uint32 r.count

    choose :
        (b : Bool)
        → Sends (if b then pure tt else announce) (
            if b then [] else replica_config ∷ (bytes_of_uint32 r.first ++ bytes_of_uint32 r.count))
    choose true = Sends-nothing
    choose false =
        Sends-then (write_byte replica_config) (write_uint32 r.first >> write_uint32 r.count)
          (replica_config ∷ []) _ (Sends-write_byte replica_config)
          (Sends-then (write_uint32 r.first) (write_uint32 r.count) (bytes_of_uint32 r.first)
            (bytes_of_uint32 r.count) (Sends-write_uint32 r.first) (Sends-write_uint32 r.count))

Sends-write_hash : (h : List ℕ) → Sends (write_hash (some h)) (replica_hash ∷ h)
unfolding write_hash
Sends-write_hash h =
    Sends-then (write_byte replica_hash) (write_bytes h) (replica_hash ∷ []) h
      (Sends-write_byte replica_hash) (Sends-write_bytes h)

-- A row that rows.Scan can read.
abbrev pub Scannable : Range → Type 0
Scannable r = IsU32 r.first × IsU32 r.count

scan-Scannable : (r : Range) (s : Rsync) → Scannable r → scan r s ≡ (ok tt, s)
unfolding scan
scan-Scannable r s (first, count) =
    let fits : (leb (2 ^ 32) r.first || leb (2 ^ 32) r.count) ≡ false =
      ground (arith, first, count) in
    simp (fits, scan)

send_entry-Emits :
    (file : File) (i n : ℕ) (r : Range) (h : List ℕ)
    → Scannable r
    → entry_hash file.page r ≡ some h
    → Emits file (send_entry i n r) (config_frame i n r ++ (replica_hash ∷ h))
unfolding send_entry
send_entry-Emits file i n r h fits e = Emits-query send_hash counted _ body
  where
    two : Pages → Run (Unit {0})
    two p = writing (write_config i n r) >> writing (write_hash (entry_hash p r))

    counted : Run (Unit {0})
    counted s =
        bind (scan r s)
          (λ u s. two s.db.page (record s { hash_messages = u64 (s.hash_messages + 1) }))

    both :
        Emits file
          (writing (write_config i n r) >> writing (write_hash (some h)))
          (config_frame i n r ++ (replica_hash ∷ h))
    both =
        Emits-then (writing (write_config i n r)) (writing (write_hash (some h)))
          (config_frame i n r) (replica_hash ∷ h)
          (Emits-writing (write_config i n r) (config_frame i n r) (Sends-write_config i n r))
          (Emits-writing (write_hash (some h)) (replica_hash ∷ h) (Sends-write_hash h))

    body : Emits file counted (config_frame i n r ++ (replica_hash ∷ h))
    body s out =
        let s' = record s { hash_messages = u64 (s.hash_messages + 1) } in
        subst (Emitted file s.writer (config_frame i n r ++ (replica_hash ∷ h)))
          (ap
            (λ r.
              bind r
                (λ u s. two s.db.page (record s { hash_messages = u64 (s.hash_messages + 1) })))
            (sym (scan-Scannable r s fits)))
          (subst
            (λ x.
              Emitted file s.writer (config_frame i n r ++ (replica_hash ∷ h))
                ((writing (write_config i n r) >> writing (write_hash x)) s'))
            (sym (ap (λ p. entry_hash p r) out.page ∙ e))
            (both s' (record {
              healthy = out.healthy;
              page = out.page;
              count = out.count;
              ready = out.ready;
              fits = out.fits;
            })))

-- Where the pages of all entries exist, their numbers fit 32 bits and the database does not fail, the
-- entries of sendHash go out
-- as their messages, or the stream breaks.
pub send_entries-Emits :
    (file : File) (i n : ℕ) (rows : List Range) (es : List Entry)
    → All Scannable rows
    → Hashed file.page rows es
    → Emits file (send_entries i n rows) (messages i n es)
unfolding send_entries
send_entries-Emits file i n [] [] fit hashed =
    λ s out. emitted refl out (sym (append-nil (pending s.writer)))
send_entries-Emits file i n [] (e ∷ es) fit hashed = absurd hashed
send_entries-Emits file i n (r ∷ rs) [] fit hashed = absurd hashed
send_entries-Emits file i n (r ∷ rs) ((r', h) ∷ es) (fits, fit) (same, e, hashed) =
    let next : ℕ = u32 (r.first + r.count) in
    subst (Emits file (send_entries i n (r ∷ rs)))
      (append_assoc (config_frame i n r) (replica_hash ∷ h) (messages next r.count es) ∙ renamed)
      (Emits-then (send_entry i n r) (send_entries next r.count rs)
        (config_frame i n r ++ (replica_hash ∷ h)) (messages next r.count es)
        (send_entry-Emits file i n r h fits e)
        (send_entries-Emits file next r.count rs es fit hashed))
  where
    renamed :
        config_frame i n r ++ (replica_hash ∷ (h ++ messages (u32 (r.first + r.count)) r.count es))
        ≡ messages i n ((r', h) ∷ es)
    renamed = ap (λ x. messages i n ((x, h) ∷ es)) (sym same)
