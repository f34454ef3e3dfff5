-- ===== src/Sync/Negotiation.antt =====
-- Both roles: the protocol version, from ORIGIN_BEGIN in sqlitersync/origin.go over REPLICA_BEGIN in
-- sqlitersync/replica.go to the next ORIGIN_BEGIN.
use go_sqlite_rsync.Common.{
  ℕ, ◌^◌, ◌≤◌, ◌<◌, ◌≡◌, refl, sym, ap, subst, ◌∙◌, true, false, List, [], ◌∷◌, ◌++◌, ltb, lt→ltb,
  if◌then◌else◌, arith,
}
use go_sqlite_rsync.Common.Act.{ok, pure, ◌>>◌, modify}
use go_sqlite_rsync.Common.Int.{pos}
use go_sqlite_rsync.Common.Words.{u8, IsByte, IsU32}
use go_sqlite_rsync.Wire.{origin_begin, replica_begin}
use go_sqlite_rsync.Wire.Uint32.{bytes_of_uint32}
use go_sqlite_rsync.Wire.Reader.{Reader, read_byte, read_pow2}
use go_sqlite_rsync.Wire.RoundTrip.{after_read, read_byte_lem}
use go_sqlite_rsync.Wire.PageSize.{write_pow2-Sends, read_pow2_cases}
use go_sqlite_rsync.Wire.Writer.{Writer, write_byte, write_pow2, write_uint32, flush}
use go_sqlite_rsync.Wire.Writer.Sends.{
  Sends, Sends-then, Sends-write_byte, Sends-write_uint32, Sends-flushed,
}
use go_sqlite_rsync.Sync.Run.{Rsync, reading, writing}
use go_sqlite_rsync.Sync.Exchange.Receive.{reading-uint32}
use go_sqlite_rsync.Sync.Origin.Loop.{Locals}
use go_sqlite_rsync.Sync.Origin.{write_begin, send_begin, on_replica_begin}
use go_sqlite_rsync.Sync.Replica.Closed.{close_db-closed}
use go_sqlite_rsync.Sync.Replica.Begin.{write_offer, begin_sync, on_begin}

-- What follows the message byte of ORIGIN_BEGIN: the version, the exponent of the page size, and the
-- number of pages.
abbrev pub begin_fields : ℕ → ℕ → ℕ → List ℕ
begin_fields protocol k pages = protocol ∷ (k ∷ bytes_of_uint32 pages)

Sends-write_offer : (q : ℕ) → IsByte q → Sends (write_offer q) (replica_begin ∷ (q ∷ []))
unfolding write_offer
Sends-write_offer q small =
    let byte : u8 q ≡ q = omega arith in
    Sends-then (write_byte replica_begin) (write_byte (u8 q) >> flush) (replica_begin ∷ []) (q ∷ [])
      (Sends-write_byte replica_begin)
      (Sends-flushed (write_byte (u8 q)) (q ∷ [])
        (subst (λ b. Sends (write_byte (u8 q)) (b ∷ [])) byte (Sends-write_byte (u8 q))))

pub Sends-write_begin :
    (s : Rsync) (k : ℕ)
    → k ≤ 16
    → IsByte s.protocol
    → s.page_bytes ≡ 2 ^ k
    → Sends (write_begin s) (origin_begin ∷ begin_fields s.protocol k s.pages)
unfolding write_begin
Sends-write_begin s k fits small size =
    let byte : u8 s.protocol ≡ s.protocol = omega arith in
    Sends-then (write_byte origin_begin)
      (write_byte (u8 s.protocol)
        >> (write_pow2 (pos s.page_bytes) >> (write_uint32 s.pages >> flush)))
      (origin_begin ∷ []) (begin_fields s.protocol k s.pages) (Sends-write_byte origin_begin)
      (Sends-then (write_byte (u8 s.protocol))
        (write_pow2 (pos s.page_bytes) >> (write_uint32 s.pages >> flush)) (s.protocol ∷ [])
        (k ∷ bytes_of_uint32 s.pages)
        (subst (λ b. Sends (write_byte (u8 s.protocol)) (b ∷ [])) byte
          (Sends-write_byte (u8 s.protocol)))
        (Sends-then (write_pow2 (pos s.page_bytes)) (write_uint32 s.pages >> flush) (k ∷ [])
          (bytes_of_uint32 s.pages)
          (subst (λ n. Sends (write_pow2 (pos n)) (k ∷ [])) (sym size) (write_pow2-Sends k fits))
          (Sends-flushed (write_uint32 s.pages) (bytes_of_uint32 s.pages)
            (Sends-write_uint32 s.pages))))

-- The replica after it has read an ORIGIN_BEGIN.
abbrev pub heard : Rsync → ℕ → ℕ → List ℕ → Rsync
heard s k pages rest = record s {
  kept = record s.kept { has_insert = false };
  reader =
      after_read
        (after_read (after_read s.reader 1 (k ∷ (bytes_of_uint32 pages ++ rest))) 1
          (bytes_of_uint32 pages ++ rest))
        4 rest;
}

pub reading-byte :
    (s : Rsync) (b : ℕ) (rest : List ℕ)
    → s.reader.input ≡ b ∷ rest
    → reading read_byte s ≡ (ok b, record s { reader = after_read s.reader 1 rest })
unfolding reading
reading-byte s b rest h = rw (read_byte_lem s.reader rest b h)

reading-pow2 :
    (s : Rsync) (k : ℕ) (rest : List ℕ)
    → k ≤ 16
    → s.reader.input ≡ k ∷ rest
    → reading read_pow2 s ≡ (ok (2 ^ k), record s { reader = after_read s.reader 1 rest })
unfolding reading
reading-pow2 s k rest fits h =
    let within : ltb 16 k ≡ false = ground arith in rw (read_pow2_cases s.reader k rest h, within)

module _ (s : Rsync) (p k pages : ℕ) (rest : List ℕ) where
  -- What the handler does with the fields.
  on_begin-fields :
      s.db_open ≡ false
      → k ≤ 16
      → IsU32 pages
      → s.reader.input ≡ begin_fields p k pages ++ rest
      → on_begin s
        ≡ (if ltb s.protocol p then writing (write_offer s.protocol) else (do
          modify (λ s. record s { protocol = p; pages = pages; page_bytes = 2 ^ k })
          begin_sync))
            (heard s k pages rest)
  unfolding on_begin
  on_begin-fields closed fits small input =
      let s1 = record s { kept = record s.kept { has_insert = false } } in
      let s2 = record s1 {
        reader = after_read s1.reader 1 (k ∷ (bytes_of_uint32 pages ++ rest));
      } in
      let s3 = record s2 { reader = after_read s2.reader 1 (bytes_of_uint32 pages ++ rest) } in
      simp (
        close_db-closed s closed,
        reading-byte s1 p (k ∷ (bytes_of_uint32 pages ++ rest)) input,
        reading-pow2 s2 k (bytes_of_uint32 pages ++ rest) fits refl,
        reading-uint32 s3 pages rest small refl,
        on_begin,
      )

  on_begin-offers :
      s.db_open ≡ false
      → k ≤ 16
      → IsU32 pages
      → s.reader.input ≡ begin_fields p k pages ++ rest
      → s.protocol < p
      → on_begin s ≡ writing (write_offer s.protocol) (heard s k pages rest)
  on_begin-offers closed fits small input newer =
      on_begin-fields closed fits small input
      ∙ ap
          (λ b.
            (if b then writing (write_offer s.protocol) else (do
              modify (λ s. record s { protocol = p; pages = pages; page_bytes = 2 ^ k })
              begin_sync))
              (heard s k pages rest))
          (lt→ltb s.protocol p newer)

  pub on_begin-accepts :
      s.db_open ≡ false
      → k ≤ 16
      → IsU32 pages
      → s.reader.input ≡ begin_fields p k pages ++ rest
      → p ≤ s.protocol
      → on_begin s
        ≡ begin_sync
            (record (heard s k pages rest) { protocol = p; pages = pages; page_bytes = 2 ^ k })
  on_begin-accepts closed fits small input known =
      let no_newer : ltb s.protocol p ≡ false = ground arith in
      on_begin-fields closed fits small input
      ∙ ap
          (λ b.
            (if b then writing (write_offer s.protocol) else (do
              modify (λ s. record s { protocol = p; pages = pages; page_bytes = 2 ^ k })
              begin_sync))
              (heard s k pages rest))
          no_newer

-- The origin after it has read REPLICA_BEGIN.
abbrev pub lowered : Rsync → ℕ → List ℕ → Rsync
lowered s q rest = record s { reader = after_read s.reader 1 rest; protocol = q }

on_replica_begin-lowers :
    (v : Locals) (s : Rsync) (q : ℕ) (rest : List ℕ)
    → s.reader.input ≡ q ∷ rest
    → q < s.protocol
    → on_replica_begin v s ≡ (send_begin >> pure v) (lowered s q rest)
unfolding on_replica_begin
on_replica_begin-lowers v s q rest input lower =
    let below : ltb q s.protocol ≡ true = lt→ltb q s.protocol lower in
    simp (reading-byte s q rest input, below, on_replica_begin)

-- A replica of an older version and an origin of a newer one meet in one exchange. The origin's
-- ORIGIN_BEGIN, whose fields the replica reads with no database open, makes it send REPLICA_BEGIN with
-- its version and wait; the origin that reads this version takes it and sends ORIGIN_BEGIN with it; and
-- the replica that reads the fields of this one begins the sync with that version.
pub versions_meet :
    (origin replica : Rsync) (v : Locals) (k : ℕ) (rest rest_o rest_r : List ℕ) (reader : Reader)
    (writer : Writer)
    → k ≤ 16
    → origin.page_bytes ≡ 2 ^ k
    → IsByte origin.protocol
    → IsU32 origin.pages
    → replica.protocol < origin.protocol
    → replica.db_open ≡ false
    → replica.reader.input ≡ begin_fields origin.protocol k origin.pages ++ rest
    → origin.reader.input ≡ replica.protocol ∷ rest_o
    → reader.input ≡ begin_fields replica.protocol k origin.pages ++ rest_r
    → let waiting = heard replica k origin.pages rest in
      let next = lowered origin replica.protocol rest_o in
      let replica' = record waiting { reader = reader; writer = writer } in
      Sends (write_begin origin) (origin_begin ∷ begin_fields origin.protocol k origin.pages)
      × (on_begin replica ≡ writing (write_offer replica.protocol) waiting)
      × Sends (write_offer replica.protocol) (replica_begin ∷ (replica.protocol ∷ []))
      × (on_replica_begin v origin ≡ (send_begin >> pure v) next)
      × Sends (write_begin next) (origin_begin ∷ begin_fields replica.protocol k origin.pages)
      × (on_begin replica'
          ≡ begin_sync (record (heard replica' k origin.pages rest_r) {
            protocol = replica.protocol;
            pages = origin.pages;
            page_bytes = 2 ^ k;
          }))
versions_meet origin replica v k rest rest_o rest_r reader writer fits size byte small older closed
      heard_input answer heard_again =
    let waiting = heard replica k origin.pages rest in
    let next = lowered origin replica.protocol rest_o in
    (
      Sends-write_begin origin k fits byte size,
      on_begin-offers replica origin.protocol k origin.pages rest closed fits small heard_input
          older,
      Sends-write_offer replica.protocol (omega (arith, older, byte)),
      on_replica_begin-lowers v origin replica.protocol rest_o answer older,
      Sends-write_begin next k fits (omega (arith, older, byte)) size,
      on_begin-accepts (record waiting { reader = reader; writer = writer }) replica.protocol k
          origin.pages rest_r closed fits small heard_again (omega arith),
    )
