-- ===== src/Endpoints/Unordered.antt =====
-- The query string of endpoints/list.go as Go has it, a map without an order: the quotient of its
-- listings, and what `ParseListQuery` makes of it.
use mathlib.Core.List.{Perm, Permᴰ}
use mathlib.Core.Bool.{Bool-set}
use mathlib.Core.Logic.{∥∥₁_elim}
use mathlib.Core.Quot
use mathlib.Core.Quot.{Quot, Quot-set}
use api_toolkit.Prelude.{◌≡◌, refl, sym, ap, ◌∙◌, not, ◌&&◌, List, [], Text, list_eq, lookup, ◌==◌}
use api_toolkit.Endpoints.{
  Values, ListQueryConfig, values_or_nil, parse_list_query, search_key_of, allowed_of,
}
use api_toolkit.Endpoints.Collected.{is_absent, missing-gathered, select_congr}
use api_toolkit.Endpoints.Order.{gathered-perm, filters-perm}

-- A query, and the values of a filter, each without an order.
abbrev pub Query : Type 0
Query = Quot {α = Values} (λ v w. Perm v w)

abbrev pub Bag : Type 0
Bag = Quot {α = List Text} (λ xs ys. Perm xs ys)

abbrev pub query_of : Values → Query
query_of values = Quot.mk values

abbrev pub bag_of : List Text → Bag
bag_of xs = Quot.mk xs

is_absent-perm : {xs ys : List Text} → Permᴰ xs ys → is_absent xs ≡ is_absent ys
is_absent-perm Permᴰ.nil = refl
is_absent-perm (Permᴰ.cons e p) = refl
is_absent-perm (Permᴰ.swap e f) = refl
is_absent-perm (Permᴰ.trans p q) = is_absent-perm p ∙ is_absent-perm q

missing-perm :
    (cfg : ListQueryConfig) (values values' : Values)
    → Perm values values'
    → (parse_list_query values cfg).missing ≡ (parse_list_query values' cfg).missing
missing-perm cfg values values' p =
    missing-gathered values cfg
    ∙ select_congr _ _ cfg.required (λ key.
      ap (λ b. not (key == []) && b)
        (∥∥₁_elim p (Bool-set _ _) (λ q.
          ∥∥₁_elim (gathered-perm (search_key_of cfg) (allowed_of cfg) key q) (Bool-set _ _)
            is_absent-perm)))
    ∙ sym (missing-gathered values' cfg)

abbrev filter_of : ListQueryConfig → Text → Query → Bag
filter_of cfg name =
    Quot.lift Quot-set
      (λ values. bag_of (values_or_nil (lookup name (parse_list_query values cfg).filters)))
      (λ v w p. Quot.sound (filters-perm v w cfg name p))

abbrev missing_of : ListQueryConfig → Query → List Text
missing_of cfg =
    Quot.lift (hlevel) (λ values. (parse_list_query values cfg).missing) (missing-perm cfg)

-- Two listings of one query, whatever the order in which Go visits it, give every filter the same
-- values, as often, and exactly the same missing filters.
pub parse_list_query_unordered :
    (values values' : Values) (cfg : ListQueryConfig) (name : Text)
    → query_of values ≡ query_of values'
    → (bag_of (values_or_nil (lookup name (parse_list_query values cfg).filters))
        ≡ bag_of (values_or_nil (lookup name (parse_list_query values' cfg).filters)))
      × ((parse_list_query values cfg).missing ≡ (parse_list_query values' cfg).missing)
parse_list_query_unordered values values' cfg name e =
    (ap (filter_of cfg name) e, ap (missing_of cfg) e)
