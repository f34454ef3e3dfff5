-- ===== src/Sync/Exchange/Round.antt =====
-- sqlitersync/origin.go: the message loop on the entries of a round.
use go_sqlite_rsync.Common.{
  ℕ, ◌+◌, ◌≡◌, sym, ap, subst, ◌∙◌, Bool, true, false, List, [], ◌∷◌, ◌++◌, if◌then◌else◌,
  append-nil, append_assoc,
}
use go_sqlite_rsync.Common.Words.{u32}
use go_sqlite_rsync.Wire.{replica_hash}
use go_sqlite_rsync.Sync.Table.{Range, Table}
use go_sqlite_rsync.Sync.Subdivide.Tiles.{has_key-KeysBelow, KeysBelow, KeysBelow-mono}
use go_sqlite_rsync.Sync.Run.{Rsync}
use go_sqlite_rsync.Sync.Origin.Loop.{Locals}
use go_sqlite_rsync.Sync.Origin.Hash.{is_match}
use go_sqlite_rsync.Sync.Origin.Passes.{Passes, here, Passes-trans}
use go_sqlite_rsync.Sync.Exchange.{
  Entry, config_frame, messages, mismatches, mx_next, mx_after, Rising,
}
use go_sqlite_rsync.Sync.Exchange.Rows.{row_of, note-last, KeysBelow-row_of}
use go_sqlite_rsync.Sync.Exchange.Receive.{Fixed, Awaits, config-Passes, hash-Passes}

split_messages :
    (i n : ℕ) (r : Range) (h : List ℕ) (es : List Entry) (rest : List ℕ)
    → let ms = messages (u32 (r.first + r.count)) r.count es in
      messages i n ((r, h) ∷ es) ++ rest
      ≡ config_frame i n r ++ (replica_hash ∷ (h ++ (ms ++ rest)))
split_messages i n r h es rest =
    let ms = messages (u32 (r.first + r.count)) r.count es in
    append_assoc (config_frame i n r) (replica_hash ∷ (h ++ ms)) rest
    ∙ ap (λ x. config_frame i n r ++ (replica_hash ∷ x)) (append_assoc h ms rest)

row_of-append :
    (matches : Bool) (r : Range) (t later : List Range)
    → (t ++ row_of matches r) ++ later ≡ t ++ (if matches then later else r ∷ later)
row_of-append true r t later = append_assoc t [] later
row_of-append false r t later = append_assoc t (r ∷ []) later

-- The origin takes the messages of a round apart, one pass of its loop for each, with no error and
-- nothing left, and adds to badHash exactly the ranges whose hash differs from its own, in order.
-- The entries come by rising first pages, beyond those in the table, and the database does not fail.
pub messages-Passes :
    (o : Fixed) (k : ℕ) (t : Table) (i n mx : ℕ) (es : List Entry) (rest : List ℕ) (v : Locals)
    (s : Rsync)
    → KeysBelow k t
    → Rising k es
    → Awaits o t i n mx (messages i n es ++ rest) v s
    → (v' : Locals) × (s' : Rsync) × (i' : ℕ) × (n' : ℕ) × Passes v s v' s'
      × Awaits o (t ++ mismatches o.page es) i' n' (mx_after mx es) rest v' s'
messages-Passes o k t i n mx [] rest v s below rising a =
    (v, s, i, n, here, subst (λ x. Awaits o x i n mx rest v s) (sym (append-nil t)) a)
messages-Passes o k t i n mx ((r, h) ∷ es) rest v s below (le, f32, c32, size, rising) a =
    let ms = messages (u32 (r.first + r.count)) r.count es in
    let m = is_match o.page r.first r.count h in
    let lower = KeysBelow-mono k r.first t le below in
    let split = subst (λ x. Awaits o t i n mx x v s) (split_messages i n r h es rest) a in
    let (v1, s1, p1, a1) =
      config-Passes o t i n mx r (replica_hash ∷ (h ++ (ms ++ rest))) v s f32 c32 split in
    let (v2, s2, p2, a2) =
      hash-Passes o t mx r h (ms ++ rest) v1 s1 size (has_key-KeysBelow r.first t lower) a1 in
    let a2' =
      subst (λ x. Awaits o x (u32 (r.first + r.count)) r.count (mx_next mx r) (ms ++ rest) v2 s2)
        (note-last m r t lower) a2 in
    let (v3, s3, i3, n3, p3, a3) =
      messages-Passes o (r.first + 1) (t ++ row_of m r) (u32 (r.first + r.count)) r.count
        (mx_next mx r) es rest v2 s2 (KeysBelow-row_of m r t lower) rising a2' in
    (
      v3,
      s3,
      i3,
      n3,
      Passes-trans p1 (Passes-trans p2 p3),
      subst (λ x. Awaits o x i3 n3 (mx_after (mx_next mx r) es) rest v3 s3)
          (row_of-append m r t (mismatches o.page es)) a3,
    )
