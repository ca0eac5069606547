-- ===== src/Endpoints/Collected.antt =====
-- The filters that endpoints/list.go collects, against a description of each filter by itself.
use api_toolkit.Prelude.{
  ◌≡◌, refl, sym, ap, ◌∙◌, Bool, true, false, not, ◌&&◌, ◌||◌, List, [], ◌∷◌, ◌++◌, append-nil,
  append_assoc, Option, none, some, Text, codes, if◌then◌else◌, ◌==◌, nat_eq, list_eq, lookup,
  insert, lookup-insert, lookup-nil, arith, length, is_some, select,
}
use api_toolkit.Endpoints.{
  Filters, Values, ListQueryConfig, parse_filter_key, allow_filter, trimmed, values_or_nil,
  add_filter, visit, visit_all, filters_of, search_key_of, allowed_of, required_missing,
  parse_list_query,
}

-- The name that a query key gives values to: what is reserved or not allowed gives to none.
abbrev pub name_of : Text → Text
name_of key = if (parse_filter_key key).1 then (parse_filter_key key).0 else key

abbrev pub is_reserved : Text → Text → Bool
is_reserved search_key key = key == codes "limit" || key == codes "offset" || key == search_key

abbrev pub gives_to : Text → List Text → Text → Text → Bool
gives_to search_key allowed name key =
    not (is_reserved search_key key) && allow_filter (name_of key) allowed && name_of key == name

-- All values of a name, in the order of the entries.
unfoldable pub gathered : Text → List Text → Text → Values → List Text
gathered search_key allowed name [] = []
gathered search_key allowed name ((key, vals) ∷ rest) =
    (if gives_to search_key allowed name key then trimmed vals else [])
    ++ gathered search_key allowed name rest

abbrev pub unless_empty : List Text → Option (List Text)
unless_empty [] = none
unless_empty (v ∷ vs) = some (v ∷ vs)

-- No filter is there without a value.
abbrev IsFilled : Option (List Text) → Type 0
IsFilled o = unless_empty (values_or_nil o) ≡ o

unless_empty-IsFilled : (vs : List Text) → IsFilled (unless_empty vs)
unless_empty-IsFilled [] = refl
unless_empty-IsFilled (v ∷ vs) = refl

values_or_nil-unless_empty : (vs : List Text) → values_or_nil (unless_empty vs) ≡ vs
values_or_nil-unless_empty [] = refl
values_or_nil-unless_empty (v ∷ vs) = refl

unless_empty-append :
    (us : List Text) (v : Text) (vs : List Text) → unless_empty (us ++ v ∷ vs) ≡ some (us ++ v ∷ vs)
unless_empty-append [] v vs = refl
unless_empty-append (u ∷ us) v vs = refl

lookup-add_filter :
    (filters : Filters) (key name : Text) (vals : List Text)
    → IsFilled (lookup name filters)
    → lookup name (add_filter filters key vals)
      ≡ unless_empty
          (values_or_nil (lookup name filters) ++ (if key == name then trimmed vals else []))
unfolding add_filter
lookup-add_filter filters key name vals h = go vals (trimmed vals) refl
  where
    old : List Text
    old = values_or_nil (lookup key filters)

    go :
        (ws ts : List Text)
        → trimmed ws ≡ ts
        → lookup name (
            if length ws == 0
            then filters
            else if length (trimmed ws) == 0
            then filters
            else insert key (old ++ trimmed ws) filters)
          ≡ unless_empty
              (values_or_nil (lookup name filters) ++ (if key == name then trimmed ws else []))
    go ws [] e = rw e (ground (arith, h, append-nil (values_or_nil (lookup name filters))))
    go [] (t ∷ ts) e = cc
    go (w ∷ ws) (t ∷ ts) e = rw e (
        ground (
          arith,
          h,
          append-nil (values_or_nil (lookup name filters)),
          lookup-insert key name (old ++ t ∷ ts) filters,
          unless_empty-append old t ts,
          list_eq.beq_iff key name,
        ))

lookup-visit :
    (search_key : Text) (allowed : List Text) (filters : Filters) (key name : Text)
    (vals : List Text)
    → IsFilled (lookup name filters)
    → lookup name (visit search_key allowed filters (key, vals))
      ≡ unless_empty (
          values_or_nil (lookup name filters)
          ++ (if gives_to search_key allowed name key then trimmed vals else []))
unfolding visit
lookup-visit search_key allowed filters key name vals h = ground (
  arith,
  h,
  append-nil (values_or_nil (lookup name filters)),
  lookup-add_filter filters key name vals h,
  lookup-add_filter filters (parse_filter_key key).0 name vals h,
)

lookup-visit_all :
    (search_key : Text) (allowed : List Text) (vs : Values) (filters : Filters) (name : Text)
    → IsFilled (lookup name filters)
    → lookup name (visit_all search_key allowed filters vs)
      ≡ unless_empty (values_or_nil (lookup name filters) ++ gathered search_key allowed name vs)
unfolding visit_all gathered
lookup-visit_all search_key allowed [] filters name h = rw append-nil (sym h)
lookup-visit_all search_key allowed ((key, vals) ∷ rest) filters name h =
    let more = if gives_to search_key allowed name key then trimmed vals else [] in
    let now = values_or_nil (lookup name filters) ++ more in
    let e = lookup-visit search_key allowed filters key name vals h in
    let ih =
      lookup-visit_all search_key allowed rest (visit search_key allowed filters (key, vals)) name
        (rw e (unless_empty-IsFilled now)) in
    ih
    ∙ ap
        (λ (o : Option (List Text)).
          unless_empty (values_or_nil o ++ gathered search_key allowed name rest))
        e
    ∙ ap (λ (us : List Text). unless_empty (us ++ gathered search_key allowed name rest))
        (values_or_nil-unless_empty now)
    ∙ ap unless_empty (
        append_assoc (values_or_nil (lookup name filters)) more
          (gathered search_key allowed name rest))

pub filters-gathered :
    (values : Values) (cfg : ListQueryConfig) (name : Text)
    → lookup name (parse_list_query values cfg).filters
      ≡ unless_empty (gathered (search_key_of cfg) (allowed_of cfg) name values)
unfolding parse_list_query filters_of
filters-gathered values cfg name =
    let none_yet : lookup {V = List Text} name [] ≡ none = lookup-nil name in
    rw none_yet at
      (lookup-visit_all (search_key_of cfg) (allowed_of cfg) values [] name (rw none_yet refl))

abbrev pub is_absent : List Text → Bool
is_absent [] = true
is_absent (v ∷ vs) = false

is_some-unless_empty : (vs : List Text) → is_some (unless_empty vs) ≡ not (is_absent vs)
is_some-unless_empty [] = refl
is_some-unless_empty (v ∷ vs) = refl

required_missing-select :
    (filters : Filters) (required : List Text)
    → required_missing filters required
      ≡ select (λ key. not (key == []) && not (is_some (lookup key filters))) required
unfolding required_missing
required_missing-select filters [] = refl
required_missing-select filters (key ∷ rest) = ground (arith, required_missing-select filters rest)

pub select_congr :
    (p q : Text → Bool) (xs : List Text) → ((x : Text) → p x ≡ q x) → select p xs ≡ select q xs
select_congr p q [] h = refl
select_congr p q (x ∷ xs) h = ground (arith, h x, select_congr p q xs h)

pub missing-gathered :
    (values : Values) (cfg : ListQueryConfig)
    → (parse_list_query values cfg).missing
      ≡ select
          (λ key.
            not (key == []) && is_absent (gathered (search_key_of cfg) (allowed_of cfg) key values))
          cfg.required
missing-gathered values cfg =
    unfold parse_list_query in
    (required_missing-select (filters_of cfg values) cfg.required
      ∙ select_congr _ _ cfg.required (λ key. ground (
        arith,
        filters-gathered values cfg key,
        is_some-unless_empty (gathered (search_key_of cfg) (allowed_of cfg) key values),
      )))
