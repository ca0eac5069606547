-- ===== src/Endpoints/Order.antt =====
-- Go visits the entries of a map in any order: what endpoints/list.go makes of that.
use mathlib.Core.List.{Perm, Permᴰ, perm_middle, append-nil, Perm-prop}
use mathlib.Core.List.Perm
use mathlib.Core.Logic.{∥∥₁_elim}
use api_toolkit.Prelude.{
  ◌≡◌, refl, List, [], ◌∷◌, ◌++◌, append_assoc, Text, if◌then◌else◌, list_eq, lookup,
}
use api_toolkit.Endpoints.{
  Values, ListQueryConfig, trimmed, values_or_nil, parse_list_query, search_key_of, allowed_of,
}
use api_toolkit.Endpoints.Collected.{gathered, unless_empty, gives_to, filters-gathered}

perm_append_comm : (xs ys : List Text) → Perm (xs ++ ys) (ys ++ xs)
perm_append_comm [] ys = rw append-nil (Perm.refl ys)
perm_append_comm (x ∷ xs) ys =
    Perm.trans (Perm.cons x (perm_append_comm xs ys)) (Perm.symm (perm_middle ys xs))

swapped : (xs ys zs : List Text) → Perm (xs ++ (ys ++ zs)) (ys ++ (xs ++ zs))
swapped xs ys zs =
    rw (← append_assoc xs ys zs, ← append_assoc ys xs zs)
      (Perm.append (perm_append_comm xs ys) (Perm.refl zs))

module _ (search_key : Text) (allowed : List Text) (name : Text) where
  given : Text → List Text → List Text
  given key vals = if gives_to search_key allowed name key then trimmed vals else []

  pub gathered-perm :
      {vs ws : Values}
      → Permᴰ vs ws
      → Perm (gathered search_key allowed name vs) (gathered search_key allowed name ws)
  unfolding gathered given
  gathered-perm Permᴰ.nil = Perm.refl []
  gathered-perm (Permᴰ.cons {a = (key, vals)} {l₂ = ws} e p) =
      rw (← e) (Perm.append_left (given key vals) (gathered-perm p))
  gathered-perm (Permᴰ.swap {a = (j, us)} {b = (k, vs)} {l = rest} e f) =
      rw (← e, ← f) (swapped (given j us) (given k vs) (gathered search_key allowed name rest))
  gathered-perm (Permᴰ.trans p q) = Perm.trans (gathered-perm p) (gathered-perm q)

values_or_nil-unless_empty : (vs : List Text) → values_or_nil (unless_empty vs) ≡ vs
values_or_nil-unless_empty [] = refl
values_or_nil-unless_empty (v ∷ vs) = refl

-- Two visits of the same query in different orders give every filter the same values, as often: only
-- their order within the filter may differ.
pub filters-perm :
    (values values' : Values) (cfg : ListQueryConfig) (name : Text)
    → Perm values values'
    → Perm
        (values_or_nil (lookup name (parse_list_query values cfg).filters))
        (values_or_nil (lookup name (parse_list_query values' cfg).filters))
filters-perm values values' cfg name p =
    simp (filters-gathered, values_or_nil-unless_empty)
      (∥∥₁_elim p Perm-prop (gathered-perm (search_key_of cfg) (allowed_of cfg) name))
