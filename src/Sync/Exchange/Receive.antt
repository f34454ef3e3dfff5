-- ===== src/Sync/Exchange/Receive.antt =====
-- sqlitersync/origin.go: the message loop on one entry of a round.
use go_sqlite_rsync.Common.{
  ℕ, ◌+◌, ◌≡◌, refl, sym, ap, ◌∙◌, true, false, ◌&&◌, ◌⊎◌, Bool-cases, inl, inr, some, List, [],
  ◌∷◌, ◌++◌, length, ◌==◌, if◌then◌else◌, append_assoc, arith,
}
use go_sqlite_rsync.Common.Act.{ok}
use go_sqlite_rsync.Common.Words.{u32, IsU32}
use go_sqlite_rsync.Wire.{replica_hash, replica_config}
use go_sqlite_rsync.Wire.Uint32.{bytes_of_uint32}
use go_sqlite_rsync.Wire.Reader.{read_uint32}
use go_sqlite_rsync.Wire.RoundTrip.{after_read, read_byte_lem, read_uint32-bytes_of_uint32}
use go_sqlite_rsync.Wire.Writer.{Writer}
use go_sqlite_rsync.Sync.Table.{Range, Table, has_key}
use go_sqlite_rsync.Sync.PageHash.{Pages}
use go_sqlite_rsync.Sync.Run.{Rsync, reading}
use go_sqlite_rsync.Sync.Run.Healthy.{Healthy}
use go_sqlite_rsync.Sync.Origin.Loop.{Locals}
use go_sqlite_rsync.Sync.Origin.Hash.{is_match, on_hash, on_config}
use go_sqlite_rsync.Sync.Origin.Ledger.{
  IsLedger, note, expected, next_range, after_hash, on_hash-Healthy,
}
use go_sqlite_rsync.Sync.Origin.{next_message, handle, again}
use go_sqlite_rsync.Sync.Origin.Passes.{Passes, here, pass}
use go_sqlite_rsync.Sync.Exchange.{config_frame, mx_next}

-- What a round leaves of the origin: its pages and their number, its writer, and its lock byte page.
pub record Fixed : Type 0 where
  pub page : Pages
  pub count : ℕ
  pub writer : Writer
  pub lock : ℕ

-- The origin has written down `t`, expects `n` pages from page `i` on, has hashes of pages before `mx`,
-- and has `rest` to read.
pub record Awaits (o : Fixed) (t : Table) (i n mx : ℕ) (rest : List ℕ) (v : Locals) (s : Rsync)
    : Type 0 where
  pub healthy : Healthy s.env
  pub page : s.db.page ≡ o.page
  pub count : s.pages ≡ o.count
  pub writer : s.writer ≡ o.writer
  pub lock : v.lock_byte_page ≡ o.lock
  pub ledger : IsLedger v s t
  pub at_i : v.i_hash ≡ i
  pub at_n : v.n_hash ≡ n
  pub at_mx : v.mx_hash ≡ mx
  pub made : (v.has_check_hash ≡ true) ⊎ (mx ≡ 0)
  pub input : s.reader.input ≡ rest

pub next_message-byte :
    (s : Rsync) (c : ℕ) (rest : List ℕ)
    → s.reader.input ≡ c ∷ rest
    → next_message s ≡ (ok (some c), record s { reader = after_read s.reader 1 rest })
unfolding next_message
next_message-byte s c rest h = simp (read_byte_lem s.reader rest c h, next_message)

pub reading-uint32 :
    (s : Rsync) (x : ℕ) (rest : List ℕ)
    → IsU32 x
    → s.reader.input ≡ bytes_of_uint32 x ++ rest
    → reading read_uint32 s ≡ (ok x, record s { reader = after_read s.reader 4 rest })
unfolding reading
reading-uint32 s x rest small h =
    simp (read_uint32-bytes_of_uint32 s.reader rest x small h, reading)

config-handled :
    (v : Locals) (s : Rsync) (r : Range) (rest : List ℕ)
    → IsU32 r.first
    → IsU32 r.count
    → s.reader.input ≡ bytes_of_uint32 r.first ++ (bytes_of_uint32 r.count ++ rest)
    → let s2 = record s { reader = after_read s.reader 4 (bytes_of_uint32 r.count ++ rest) } in
      handle replica_config v s ≡ (
        ok (again (record v { i_hash = r.first; n_hash = r.count })),
        record s2 { reader = after_read s2.reader 4 rest },
      )
unfolding handle on_config
config-handled v s r rest small_first small_count input =
    let s2 = record s { reader = after_read s.reader 4 (bytes_of_uint32 r.count ++ rest) } in
    simp (
      reading-uint32 s r.first (bytes_of_uint32 r.count ++ rest) small_first input,
      reading-uint32 s2 r.count rest small_count refl,
      handle,
      on_config,
    )

-- REPLICA_CONFIG sets what is expected.
pub config-Passes :
    (o : Fixed) (t : Table) (i n mx : ℕ) (r : Range) (rest : List ℕ) (v : Locals) (s : Rsync)
    → IsU32 r.first
    → IsU32 r.count
    → Awaits o t i n mx (config_frame i n r ++ rest) v s
    → (v' : Locals) × (s' : Rsync) × Passes v s v' s' × Awaits o t r.first r.count mx rest v' s'
config-Passes o t i n mx r rest v s small_first small_count a =
    elim (Bool-cases (r.first == i && r.count == n)) [
      | inl same ↦
          let first : r.first ≡ i = ground (arith, same) in
          let count : r.count ≡ n = ground (arith, same) in
          (
            v,
            s,
            here,
            record {
              healthy = a.healthy;
              count = a.count;
              writer = a.writer;
              lock = a.lock;
              page = a.page;
              ledger = a.ledger;
              at_mx = a.at_mx;
              made = a.made;
              at_i = a.at_i ∙ sym first;
              at_n = a.at_n ∙ sym count;
              input = a.input ∙ ap (λ b. (if b then [] else fields) ++ rest) same;
            },
          )
      | inr other ↦
          let input =
            a.input
            ∙ ap (λ b. (if b then [] else fields) ++ rest) other
            ∙ ap (◌∷◌ replica_config) (append_assoc bf bc rest) in
          let s1 = record s { reader = after_read s.reader 1 (bf ++ (bc ++ rest)) } in
          let s2 = record s1 { reader = after_read s1.reader 4 (bc ++ rest) } in
          let s3 = record s2 { reader = after_read s2.reader 4 rest } in
          (
            record v { i_hash = r.first; n_hash = r.count },
            s3,
            pass (next_message-byte s replica_config _ input)
                (config-handled v s1 r rest small_first small_count refl) here,
            record {
              healthy = a.healthy;
              count = a.count;
              writer = a.writer;
              lock = a.lock;
              page = a.page;
              ledger = a.ledger;
              at_mx = a.at_mx;
              made = a.made;
              at_i = refl;
              at_n = refl;
              input = refl;
            },
          )
    ]
  where
    bf : List ℕ
    bf = bytes_of_uint32 r.first

    bc : List ℕ
    bc = bytes_of_uint32 r.count

    fields : List ℕ
    fields = replica_config ∷ (bf ++ bc)

hash-handled :
    (v v' : Locals) (s s' : Rsync)
    → on_hash v s ≡ (ok v', s')
    → handle replica_hash v s ≡ (ok (again v'), s')
unfolding handle
hash-handled v v' s s' h = simp (h, handle)

-- REPLICA_HASH is a hash of the pages that are expected.
pub hash-Passes :
    (o : Fixed) (t : Table) (mx : ℕ) (r : Range) (h rest : List ℕ) (v : Locals) (s : Rsync)
    → length h ≡ 20
    → has_key r.first t ≡ false
    → Awaits o t r.first r.count mx (replica_hash ∷ (h ++ rest)) v s
    → (v' : Locals) × (s' : Rsync) × Passes v s v' s'
      × Awaits o
          (note (is_match o.page r.first r.count h) r t)
          (u32 (r.first + r.count))
          r.count
          (mx_next mx r)
          rest
          v'
          s'
hash-Passes o t mx r h rest v s size free a =
    let s1 = record s { reader = after_read s.reader 1 (h ++ rest) } in
    let (c, b, handled) =
      on_hash-Healthy v s1 t h rest a.healthy a.ledger (ap (λ k. has_key k t) a.at_i ∙ free) size
        refl in
    (
      next_range b v,
      after_hash c (note (is_match s.db.page v.i_hash v.n_hash h) (expected v) t) rest s1,
      pass (next_message-byte s replica_hash _ a.input)
          (hash-handled v (next_range b v) s1 _ handled) here,
      record {
        healthy = a.healthy;
        count = a.count;
        writer = a.writer;
        lock = a.lock;
        page = a.page;
        ledger = simp (a.page, a.at_i, a.at_n);
        at_i = simp (a.at_i, a.at_n);
        at_mx = simp (a.at_i, a.at_n, a.at_mx);
        made = inl refl;
        at_n = a.at_n;
        input = refl;
      },
    )
