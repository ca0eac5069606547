-- ===== src/Trace/Splitting.antt =====
-- `strings.Split` at a separator that the pieces do not hold, for middleware/trace/trace.go.
use api_toolkit.Prelude.{
  ℕ, ◌≡◌, refl, true, not, List, [], ◌∷◌, ◌++◌, Text, arith, all, eqb, ◌==◌, nat_eq, split_on, ◌≢◌,
  if◌then◌else◌,
}
use api_toolkit.Trace.{is_lower_hex}

-- The pieces joined again by the separator.
abbrev pub join_on : ℕ → List Text → Text
join_on sep [] = []
join_on sep (p ∷ []) = p
join_on sep (p ∷ q ∷ ps) = p ++ sep ∷ join_on sep (q ∷ ps)

pub split_on-ne-nil : (sep : ℕ) (s : Text) → split_on sep s ≢ []
unfolding split_on
split_on-ne-nil sep [] = cc
split_on-ne-nil sep (c ∷ s) = ground (arith, split_on-ne-nil sep s)

pub join_on-split_on : (sep : ℕ) (s : Text) → join_on sep (split_on sep s) ≡ s
unfolding split_on
join_on-split_on sep [] = refl
join_on-split_on sep (c ∷ s) =
    step (split_on sep s) (join_on-split_on sep s) (split_on-ne-nil sep s)
  where
    step :
        (ps : List Text)
        → join_on sep ps ≡ s
        → ps ≢ []
        → join_on sep (elim ps [
          | [] ↦ [] ∷ []
          | part ∷ parts ↦ if eqb c sep then [] ∷ part ∷ parts else (c ∷ part) ∷ parts
        ])
          ≡ c ∷ s
    step [] e n = absurd (n refl)
    step (p ∷ []) e n = ground arith
    step (p ∷ q ∷ ps) e n = ground arith

pub split_on_piece :
    (sep : ℕ) (p s : Text)
    → all (λ c. not (c == sep)) p ≡ true
    → split_on sep (p ++ sep ∷ s) ≡ p ∷ split_on sep s
unfolding split_on
split_on_piece sep [] s h = ground (arith, split_on-ne-nil sep s)
split_on_piece sep (c ∷ p) s h = ground (arith, split_on_piece sep p s)

pub split_on_last :
    (sep : ℕ) (p : Text) → all (λ c. not (c == sep)) p ≡ true → split_on sep p ≡ p ∷ []
unfolding split_on
split_on_last sep [] h = refl
split_on_last sep (c ∷ p) h = ground (arith, split_on_last sep p)

pub is_lower_hex-no_dash : (s : Text) → is_lower_hex s ≡ true → all (λ c. not (c == b'-')) s ≡ true
unfolding is_lower_hex
is_lower_hex-no_dash [] h = refl
is_lower_hex-no_dash (c ∷ s) h = ground (arith, is_lower_hex-no_dash s)
