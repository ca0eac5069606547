-- ===== src/Endpoints.antt =====
-- endpoints/list.go: the query of a list endpoint. Texts are lists of code points; `url.Values` is
-- the list of its entries in the order in which Go's `range` happens to visit them.
pub mod Paging
pub mod Collected
pub mod Order
pub mod Unordered
mod Tests
use mathlib.Core.List.{reverse}
use api_toolkit.Prelude.{
  ℕ, zero, suc, ◌≡◌, refl, Bool, true, false, not, ◌&&◌, ◌||◌, List, [], ◌∷◌, ◌++◌, map, Option,
  none, some, Text, codes, if◌then◌else◌, ◌==◌, nat_eq, list_eq, lookup, insert, is_some, select,
  any, length, trim_space, strip_prefix, has_prefix, has_suffix,
}
use api_toolkit.Prelude.Int.{ℤ, pos, negsuc, ltb_ℤ, parse_int64}

abbrev pub Filters : Type 0
Filters = List (Text × List Text)

abbrev pub Values : Type 0
Values = List (Text × List Text)

pub record ListQueryConfig : Type 0 where
  pub default_limit : ℤ
  pub max_limit : ℤ
  pub allowed_filters : List Text
  pub required : List Text
  pub search_param : Text

pub record ListQuery : Type 0 where
  pub limit : ℤ
  pub offset : ℤ
  pub search : Text
  pub filters : Filters
  pub raw : Values
  pub missing : List Text

pub missing_required : ListQuery → List Text
missing_required q = q.missing

abbrev first_of_values : Option (List Text) → Text
first_of_values none = []
first_of_values (some []) = []
first_of_values (some (v ∷ vs)) = v

-- The method `First`.
pub first : ListQuery → Text → Text
first q key = first_of_values (lookup key q.filters)

pub has : ListQuery → Text → Bool
has q key = is_some (lookup key q.filters)

-- `url.Values.Get`.
pub get : Values → Text → Text
get values key = first_of_values (lookup key values)

abbrev int_or : ℤ → Option ℤ → ℤ
int_or def none = def
int_or def (some n) = n

pub parse_int : Text → ℤ → ℤ
parse_int val def = if trim_space val == [] then def else int_or def (parse_int64 val)

abbrev offset_of : Option ℤ → ℤ
offset_of none = pos 0
offset_of (some n) = if ltb_ℤ n (pos 0) then pos 0 else n

pub parse_offset : Text → ℤ
parse_offset val = if trim_space val == [] then pos 0 else offset_of (parse_int64 val)

pub clamp_int : ℤ → ℤ → ℤ → ℤ
clamp_int n min max =
    let n' = if ltb_ℤ (pos 0) min && ltb_ℤ n min then min else n in
    if ltb_ℤ (pos 0) max && ltb_ℤ max n' then max else n'

drop_last : Text → Text
drop_last [] = []
drop_last (c ∷ []) = []
drop_last (c ∷ d ∷ s) = c ∷ drop_last (d ∷ s)

abbrev text_or_empty : Option Text → Text
text_or_empty none = []
text_or_empty (some s) = s

-- The slices behind the prefixes are there, since the key has the prefix.
pub parse_filter_key : Text → Text × Bool
unfolding drop_last
parse_filter_key key =
    if has_prefix (codes "filter[") key && has_suffix (codes "]") key
    then (let name = drop_last (text_or_empty (strip_prefix (codes "filter[") key)) in
        (trim_space name, not (name == [])))
    else if has_prefix (codes "filter.") key
    then (let name = text_or_empty (strip_prefix (codes "filter.") key) in
        (trim_space name, not (name == [])))
    else ([], false)

-- The set of the allowed names is the list of its members.
pub allow_filter : Text → List Text → Bool
allow_filter name allowed = if length allowed == 0 then true else any (λ f. f == name) allowed

pub trimmed : List Text → List Text
trimmed [] = []
trimmed (v ∷ vs) = let rest = trimmed vs in if trim_space v == [] then rest else trim_space v ∷ rest

abbrev values_or_nil : Option (List Text) → List Text
values_or_nil none = []
values_or_nil (some vs) = vs

pub add_filter : Filters → Text → List Text → Filters
unfolding trimmed
add_filter filters key vals =
    if length vals == 0
    then filters
    else if length (trimmed vals) == 0
    then filters
    else insert key (values_or_nil (lookup key filters) ++ trimmed vals) filters

pub required_missing : Filters → List Text → List Text
required_missing filters [] = []
required_missing filters (key ∷ rest) =
    let more = required_missing filters rest in
    if key == [] then more else if is_some (lookup key filters) then more else key ∷ more

-- One round of the loop over the values.
pub visit : Text → List Text → Filters → Text × List Text → Filters
visit search_key allowed filters (key, vals) =
    if key == codes "limit" || key == codes "offset" || key == search_key
    then filters
    else if (parse_filter_key key).1
    then (if allow_filter (parse_filter_key key).0 allowed
        then add_filter filters (parse_filter_key key).0 vals
        else filters)
    else if allow_filter key allowed
    then add_filter filters key vals
    else filters

pub visit_all : Text → List Text → Filters → Values → Filters
visit_all search_key allowed filters [] = filters
visit_all search_key allowed filters (entry ∷ rest) =
    visit_all search_key allowed (visit search_key allowed filters entry) rest

pub search_key_of : ListQueryConfig → Text
search_key_of cfg = if trim_space cfg.search_param == [] then codes "search" else cfg.search_param

pub allowed_of : ListQueryConfig → List Text
allowed_of cfg = select (λ f. not (f == [])) cfg.allowed_filters

pub filters_of : ListQueryConfig → Values → Filters
filters_of cfg values = visit_all (search_key_of cfg) (allowed_of cfg) [] values

-- `values` is what `r.URL.Query()` returns.
pub parse_list_query : Values → ListQueryConfig → ListQuery
parse_list_query values cfg = record {
  limit =
      clamp_int (parse_int (get values (codes "limit")) cfg.default_limit) (pos 1) cfg.max_limit;
  offset = parse_offset (get values (codes "offset"));
  search = trim_space (get values (search_key_of cfg));
  filters = filters_of cfg values;
  raw = values;
  missing = required_missing (filters_of cfg values) cfg.required;
}

pub record ListMeta : Type 0 where
  pub total : ℤ
  pub count : ℕ
  pub limit : ℤ
  pub offset : ℤ
  pub filters : Option Filters
  pub search : Text

pub record ListResponse {ℓ} (T : Type ℓ) : Type ℓ where
  pub items : List T
  pub meta : ListMeta

-- A copy of the map with the same entries; a copied value is the value here.
pub clone_filters : Filters → Filters
clone_filters [] = []
clone_filters ((k, vals) ∷ rest) = (k, vals) ∷ clone_filters rest

-- `filters` of the metadata is `none` for the nil map.
pub new_list_response {ℓ} : {T : Type ℓ} → List T → ℤ → ListQuery → ListResponse T
unfolding clone_filters
new_list_response items total query = record {
  items = items;
  meta = record {
    total = total;
    count = length items;
    limit = query.limit;
    offset = query.offset;
    filters = if length query.filters == 0 then none else some (clone_filters query.filters);
    search = query.search;
  };
}
