-- ===== src/Endpoints/Paging.antt =====
-- Limit and offset of endpoints/list.go.
use mathlib.Core.List.{reverse, reverse-cons}
use api_toolkit.Prelude.{
  ℕ, ◌≡◌, ◌≢◌, ◌⊎◌, inl, inr, refl, sym, ap, ◌∙◌, ◌&&◌, if◌then◌else◌, true, false, [], ◌∷◌, ◌++◌,
  Option, none, some, Text, codes, ◌==◌, list_eq, is_space, trim_left, trim_space, arith,
  Bool-cases, parse_nat, digits_value,
}
use api_toolkit.Prelude.Int.{ℤ, pos, negsuc, ◌≤ℤ◌, ltb_ℤ, parse_int64}
use api_toolkit.Endpoints.{
  ListQueryConfig, Values, get, int_or, parse_int, offset_of, parse_offset, clamp_int,
  parse_list_query,
}

-- A text that `TrimSpace` empties has a space for its first code point.
trim_left-concat : (s : Text) (c : ℕ) → is_space c ≡ false → trim_left (s ++ c ∷ []) ≢ []
unfolding trim_left
trim_left-concat [] c h = rw h cc
trim_left-concat (d ∷ s) c h = elim (Bool-cases (is_space d)) [
  | inl blank ↦ rw blank (trim_left-concat s c h)
  | inr dark ↦ rw dark cc
]

reverse-eq-nil : (s : Text) → reverse s ≡ [] → s ≡ []
reverse-eq-nil [] h = refl
reverse-eq-nil (c ∷ s) h = absurd (concat (reverse s) (sym (reverse-cons c s) ∙ h))
  where
    concat : (t : Text) → t ++ c ∷ [] ≢ []
    concat [] = cc
    concat (d ∷ t) = cc

pub trim_space-dark : (c : ℕ) (s : Text) → is_space c ≡ false → trim_space (c ∷ s) ≢ []
unfolding trim_space trim_left
trim_space-dark c s h = rw h (λ e.
    trim_left-concat (reverse s) c h
      (sym (ap trim_left (reverse-cons c s)) ∙ reverse-eq-nil (trim_left (reverse (c ∷ s))) e))

parse_int64-space : (c : ℕ) (s : Text) → is_space c ≡ true → parse_int64 (c ∷ s) ≡ none
unfolding parse_int64 parse_nat digits_value
parse_int64-space c s h = ground arith

-- What is blank is no number, so the tests for blank text before `Atoi` decide nothing.
parse_int64-blank : (s : Text) → trim_space s ≡ [] → parse_int64 s ≡ none
parse_int64-blank [] h = unfold parse_int64 in refl
parse_int64-blank (c ∷ s) h = elim (Bool-cases (is_space c)) [
  | inl blank ↦ parse_int64-space c s blank
  | inr dark ↦ absurd (trim_space-dark c s dark h)
]

pub parse_int-Atoi : (s : Text) (def : ℤ) → parse_int s def ≡ int_or def (parse_int64 s)
unfolding parse_int
parse_int-Atoi s def = ground (arith, list_eq.beq_iff (trim_space s) [], blank (trim_space s) refl)
  where
    blank : (t : Text) → trim_space s ≡ t → (t == []) ≡ false ⊎ (parse_int64 s ≡ none)
    blank [] e = inr (parse_int64-blank s e)
    blank (c ∷ t) e = inl refl

pub parse_offset-Atoi : (s : Text) → parse_offset s ≡ offset_of (parse_int64 s)
unfolding parse_offset
parse_offset-Atoi s = ground (arith, blank (trim_space s) refl)
  where
    blank : (t : Text) → trim_space s ≡ t → (t == []) ≡ false ⊎ (parse_int64 s ≡ none)
    blank [] e = inr (parse_int64-blank s e)
    blank (c ∷ t) e = inl refl

-- The limits between which the program keeps a page.
clamp_int-lower : (n max : ℤ) → (max ≤ℤ pos 0) ⊎ (pos 1 ≤ℤ max) → pos 1 ≤ℤ clamp_int n (pos 1) max
unfolding clamp_int
clamp_int-lower n max h = ground arith

clamp_int-upper : (n max : ℤ) → (max ≤ℤ pos 0) ⊎ (clamp_int n (pos 1) max ≤ℤ max)
unfolding clamp_int
clamp_int-upper n max = ground arith

offset_of-nonneg : (o : Option ℤ) → pos 0 ≤ℤ offset_of o
offset_of-nonneg none = omega arith
offset_of-nonneg (some n) = ground arith

-- Whatever the query and the configuration, the limit is at least 1 and, where the configuration has
-- a positive maximum, at most that; the offset is not negative.
pub page_bounds :
    (values : Values) (cfg : ListQueryConfig)
    → (pos 1 ≤ℤ (parse_list_query values cfg).limit)
      × ((cfg.max_limit ≤ℤ pos 0) ⊎ ((parse_list_query values cfg).limit ≤ℤ cfg.max_limit))
      × (pos 0 ≤ℤ (parse_list_query values cfg).offset)
unfolding parse_list_query
page_bounds values cfg = (
  clamp_int-lower n cfg.max_limit (ground arith),
  clamp_int-upper n cfg.max_limit,
  rw (parse_offset-Atoi (get values (codes "offset")))
      (offset_of-nonneg (parse_int64 (get values (codes "offset")))),
)
  where
    n : ℤ
    n = parse_int (get values (codes "limit")) cfg.default_limit

-- A limit is at least 1, and at most a positive maximum.
abbrev pub in_range : (max n : ℤ) → ℤ
in_range max n =
    if ltb_ℤ n (pos 1) then pos 1 else if ltb_ℤ (pos 0) max && ltb_ℤ max n then max else n

abbrev pub default_or : ℤ → Option ℤ → ℤ
default_or default none = default
default_or default (some n) = n

abbrev pub not_negative : Option ℤ → ℤ
not_negative none = pos 0
not_negative (some (pos n)) = pos n
not_negative (some (negsuc n)) = pos 0

clamp_int-in_range : (n max : ℤ) → clamp_int n (pos 1) max ≡ in_range max n
unfolding clamp_int
clamp_int-in_range n max = ground arith

int_or-default_or : (def : ℤ) (o : Option ℤ) → int_or def o ≡ default_or def o
int_or-default_or def none = refl
int_or-default_or def (some n) = refl

offset_of-not_negative : (o : Option ℤ) → offset_of o ≡ not_negative o
offset_of-not_negative none = refl
offset_of-not_negative (some n) = ground arith

-- Whatever the query and the configuration: the limit is what `Atoi` reads of the first value, or the
-- default one where it reads nothing, brought into the range; the offset is what `Atoi` reads, and 0
-- where that is nothing or negative.
pub page_read :
    (values : Values) (cfg : ListQueryConfig)
    → ((parse_list_query values cfg).limit
        ≡ in_range cfg.max_limit
            (default_or cfg.default_limit (parse_int64 (get values (codes "limit")))))
      × ((parse_list_query values cfg).offset
          ≡ not_negative (parse_int64 (get values (codes "offset"))))
unfolding parse_list_query
page_read values cfg = (
  clamp_int-in_range (parse_int (get values (codes "limit")) cfg.default_limit) cfg.max_limit
      ∙ ap (in_range cfg.max_limit) (
          parse_int-Atoi (get values (codes "limit")) cfg.default_limit
          ∙ int_or-default_or cfg.default_limit (parse_int64 (get values (codes "limit")))),
  parse_offset-Atoi (get values (codes "offset"))
      ∙ offset_of-not_negative (parse_int64 (get values (codes "offset"))),
)
