-- ===== src/Sync/Exchange/Rows.antt =====
-- sqlitersync/origin.go: the rows of badHash in a round whose entries come by rising first pages.
use go_sqlite_rsync.Common.{
  ◌+◌, ◌<◌, ◌≡◌, sym, Bool, true, false, List, [], ◌∷◌, ◌++◌, All-append, if◌then◌else◌, append-nil,
  arith,
}
use go_sqlite_rsync.Sync.Table.{Range, Table}
use go_sqlite_rsync.Sync.Subdivide.Tiles.{KeysBelow, KeysBelow-mono, replace_row-last}
use go_sqlite_rsync.Sync.Origin.Ledger.{note}

-- What is written down for one range: nothing, or its row behind the others.
abbrev pub row_of : Bool → Range → List Range
row_of matches r = if matches then [] else r ∷ []

pub note-last :
    (matches : Bool) (r : Range) (t : Table)
    → KeysBelow r.first t
    → note matches r t ≡ t ++ row_of matches r
unfolding note
note-last true r t h = sym (append-nil t)
note-last false r t h = replace_row-last r t h

pub KeysBelow-row_of :
    (matches : Bool) (r : Range) (t : Table)
    → KeysBelow r.first t
    → KeysBelow (r.first + 1) (t ++ row_of matches r)
KeysBelow-row_of true r t h =
    All-append (λ x. x.first < r.first + 1) t []
      (KeysBelow-mono r.first (r.first + 1) t (omega arith) h) tt
KeysBelow-row_of false r t h =
    All-append (λ x. x.first < r.first + 1) t (r ∷ [])
      (KeysBelow-mono r.first (r.first + 1) t (omega arith) h) (omega arith, tt)
