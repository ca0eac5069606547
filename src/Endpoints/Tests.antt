-- ===== src/Endpoints/Tests.antt =====
-- Runs of endpoints/list.go, and its theorems at concrete inputs.
use mathlib.Core.Quot
use mathlib.Core.List.Perm
use api_toolkit.Prelude.{
  ◌≡◌, refl, [], ◌∷◌, none, some, codes, list_eq, lookup, insert, trim_space, strip_prefix,
  has_prefix, has_suffix, true,
}
use api_toolkit.Prelude.Int.{pos, parse_int64}
use api_toolkit.Endpoints.{
  Values, ListQueryConfig, get, parse_int, parse_offset, clamp_int, allow_filter, add_filter,
  parse_filter_key, visit, visit_all, filters_of, parse_list_query, search_key_of, allowed_of,
  required_missing, values_or_nil,
}
use api_toolkit.Endpoints.Unordered.{bag_of, parse_list_query_unordered}

endpoints_open : Unit {0}
unfolding lookup insert trim_space strip_prefix has_prefix has_suffix parse_int64 get parse_int
    parse_offset clamp_int allow_filter add_filter parse_filter_key visit visit_all filters_of
    parse_list_query search_key_of allowed_of required_missing
endpoints_open = tt

abbrev config : ListQueryConfig
config = record {
  default_limit = pos 20;
  max_limit = pos 100;
  allowed_filters = codes "status" ∷ codes "tag" ∷ [];
  required = codes "status" ∷ codes "owner" ∷ [];
  search_param = [];
}

abbrev query : Values
query =
    (codes "limit", codes "250" ∷ [])
    ∷ (codes "offset", codes "40" ∷ [])
    ∷ (codes "filter[status]", codes " open " ∷ codes " " ∷ [])
    ∷ (codes "status", codes "new" ∷ [])
    ∷ (codes "filter.owner", codes "x" ∷ [])
    ∷ []

abbrev turned : Values
turned =
    (codes "offset", codes "40" ∷ [])
    ∷ (codes "limit", codes "250" ∷ [])
    ∷ (codes "filter[status]", codes " open " ∷ codes " " ∷ [])
    ∷ (codes "status", codes "new" ∷ [])
    ∷ (codes "filter.owner", codes "x" ∷ [])
    ∷ []

parsed_query :
    ((parse_list_query query config).limit ≡ pos 100)
    × ((parse_list_query query config).offset ≡ pos 40)
    × ((parse_list_query query config).filters
        ≡ (codes "status", codes "open" ∷ codes "new" ∷ []) ∷ [])
    × ((parse_list_query query config).missing ≡ codes "owner" ∷ [])
unfolding endpoints_open
parsed_query = (refl, refl, refl, refl)

-- A name of blanks is trimmed after the test that it is not empty.
blank_name : parse_filter_key (codes "filter[ ]") ≡ ([], true)
unfolding endpoints_open
blank_name = refl

abbrev paged : Values
paged = (codes "limit", codes "50" ∷ []) ∷ (codes "offset", codes "7" ∷ []) ∷ []

paged_numbers :
    (parse_int64 (get paged (codes "limit")) ≡ some (pos 50))
    × (parse_int64 (get paged (codes "offset")) ≡ some (pos 7))
unfolding endpoints_open
paged_numbers = (refl, refl)

abbrev malformed : Values
malformed = (codes "limit", codes "many" ∷ []) ∷ []

malformed_numbers :
    (parse_int64 (get malformed (codes "limit")) ≡ none)
    × (parse_int64 (get malformed (codes "offset")) ≡ none)
unfolding endpoints_open
malformed_numbers = (refl, refl)

parse_list_query_unordered_example :
    (bag_of (values_or_nil (lookup (codes "status") (parse_list_query query config).filters))
      ≡ bag_of (values_or_nil (lookup (codes "status") (parse_list_query turned config).filters)))
    × ((parse_list_query query config).missing ≡ (parse_list_query turned config).missing)
parse_list_query_unordered_example =
    parse_list_query_unordered query turned config (codes "status") (Quot.sound (Perm.swap _ _ _))
