-- ===== src/Sync/Replica/Attach/Quoting.antt =====
-- sqlitersync/sql.go, attachSQL: the path as a string literal of SQL.
use go_sqlite_rsync.Common.{
  ℕ, ◌≡◌, refl, sym, ap, ◌∙◌, false, Bool-cases, inl, inr, Option, none, some, List, [], ◌∷◌, ◌++◌,
  ◌==◌, if◌then◌else◌, arith,
}
use go_sqlite_rsync.Sync.Replica.Attach.{quote, double_quotes, attach_sql, attach_word, as_replica}

abbrev pub push : ℕ → Option (List ℕ × List ℕ) → Option (List ℕ × List ℕ)
push b none = none
push b (some (text, rest)) = some (b ∷ text, rest)

-- What a string literal of SQL stands for, from behind its first quote on, and the text that follows
-- it: two quotes are one, and one quote alone ends the literal.
unfoldable pub literal : List ℕ → Option (List ℕ × List ℕ)
literal [] = none
literal (b ∷ []) = if b == quote then some ([], []) else none
literal (b ∷ c ∷ bs) =
    let doubled = push quote (literal bs) in
    let plain = push b (literal (c ∷ bs)) in
    if b == quote then (if c == quote then doubled else some ([], c ∷ bs)) else plain

-- A list that does not go on with a quote.
abbrev Ends : List ℕ → Type 0
Ends [] = Unit {0}
Ends (b ∷ bs) = (b == quote) ≡ false

literal-double_quotes :
    (path rest : List ℕ)
    → Ends rest
    → literal (double_quotes path ++ (quote ∷ rest)) ≡ some (path, rest)
unfolding literal double_quotes
literal-double_quotes [] [] ends = refl
literal-double_quotes [] (b ∷ rest) ends = simp (ends, literal)
literal-double_quotes (b ∷ path) rest ends = elim (Bool-cases (b == quote)) [
  | inl is_quote ↦
      let same : b ≡ quote = ground (arith, is_quote) in
      ap
        (λ c. literal (
          (if c then quote ∷ quote ∷ double_quotes path else b ∷ double_quotes path)
          ++ (quote ∷ rest)))
        is_quote
      ∙ ap (push quote) (literal-double_quotes path rest ends)
      ∙ ap (λ c. some (c ∷ path, rest)) (sym same)
  | inr other ↦
      ap
        (λ c. literal (
          (if c then quote ∷ quote ∷ double_quotes path else b ∷ double_quotes path)
          ++ (quote ∷ rest)))
        other
      ∙ plain b (double_quotes path ++ (quote ∷ rest)) other
      ∙ ap (push b) (literal-double_quotes path rest ends)
]
  where
    plain : (b : ℕ) (bs : List ℕ) → (b == quote) ≡ false → literal (b ∷ bs) ≡ push b (literal bs)
    plain b [] h = simp (h, literal)
    plain b (c ∷ bs) h = simp (h, literal)

-- SQL reads the statement that attachSQL builds as `ATTACH `, a string literal that stands for the
-- path, whatever quotes it has, and ` AS 'replica'`: the path cannot end its literal.
pub attach_sql-literal :
    (path : List ℕ)
    → (bs : List ℕ) × (attach_sql path ≡ attach_word ++ (quote ∷ bs))
      × (literal bs ≡ some (path, as_replica))
unfolding attach_sql
attach_sql-literal path =
    (double_quotes path ++ (quote ∷ as_replica), refl, literal-double_quotes path as_replica refl)
