-- ===== src/Migrator/Database/Quoting.antt =====
-- `pq` of migrator/migrator.go, against the way in which SQL reads a quoted identifier.
use api_toolkit.Prelude.{
  ℕ, ◌≡◌, refl, sym, ap, ◌∙◌, true, false, [], ◌∷◌, ◌++◌, append_assoc, Option, none, some,
  if◌then◌else◌, eqb, nat_eq, Text, codes, Bool-cases, inl, inr,
}
use api_toolkit.Migrator.Database.{double_quotes, pq}

abbrev quote : ℕ
quote = b'"'

abbrev prepend : ℕ → Option (Text × Text) → Option (Text × Text)
prepend c none = none
prepend c (some (s, rest)) = some (c ∷ s, rest)

-- Behind the opening quote: two quotes stand for one, and a single one ends the identifier.
unfoldable pub read_body : Text → Option (Text × Text)
read_body [] = none
read_body (c ∷ []) = if eqb c quote then some ([], []) else none
read_body (c ∷ d ∷ s) =
    let behind = read_body s in
    let next = read_body (d ∷ s) in
    if eqb c quote
    then (if eqb d quote then prepend quote behind else some ([], d ∷ s))
    else prepend c next

-- The identifier and the text that follows it.
unfoldable pub read_identifier : Text → Option (Text × Text)
read_identifier [] = none
read_identifier (c ∷ s) = let body = read_body s in if eqb c quote then body else none

-- Text that does not go on with a quote.
abbrev pub Follows : Text → Type 0
Follows [] = Unit
Follows (c ∷ s) = eqb c quote ≡ false

read_body-other :
    (c : ℕ) (s : Text) → eqb c quote ≡ false → read_body (c ∷ s) ≡ prepend c (read_body s)
unfolding read_body
read_body-other c [] h = rw h refl
read_body-other c (d ∷ s) h = rw h refl

read_body-twice :
    (c : ℕ) (s : Text) → eqb c quote ≡ true → read_body (c ∷ c ∷ s) ≡ prepend quote (read_body s)
unfolding read_body
read_body-twice c s h = rw h refl

read_body-end : (rest : Text) → Follows rest → read_body (quote ∷ rest) ≡ some ([], rest)
unfolding read_body
read_body-end [] h = refl
read_body-end (c ∷ s) h = rw h refl

read_body-double_quotes :
    (ident rest : Text)
    → Follows rest
    → read_body (double_quotes ident ++ (quote ∷ rest)) ≡ some (ident, rest)
unfolding double_quotes
read_body-double_quotes [] rest h = read_body-end rest h
read_body-double_quotes (c ∷ s) rest h = elim (Bool-cases (eqb c quote)) [
  | inl same ↦ rw same (
      read_body-twice c (double_quotes s ++ (quote ∷ rest)) same
      ∙ ap (prepend quote) (read_body-double_quotes s rest h)
      ∙ ap (λ (q : ℕ). some (q ∷ s, rest)) (sym ((nat_eq.beq_iff c quote).0 same)))
  | inr other ↦ rw other (
      read_body-other c (double_quotes s ++ (quote ∷ rest)) other
      ∙ ap (prepend c) (read_body-double_quotes s rest h))
]

-- SQL reads a table name quoted by `pq` as exactly that name, whatever characters it has, and then
-- whatever follows it, provided that this does not begin with a quote: no name ends the identifier
-- early.
pub read_identifier-pq :
    (ident rest : Text) → Follows rest → read_identifier (pq ident ++ rest) ≡ some (ident, rest)
unfolding read_identifier pq
read_identifier-pq ident rest h =
    ap read_body (append_assoc (double_quotes ident) (codes "\"") rest)
    ∙ read_body-double_quotes ident rest h
