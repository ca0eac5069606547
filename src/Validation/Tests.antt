-- ===== src/Validation/Tests.antt =====
-- Validations of validation/validation.go, and its theorem at a concrete input.
use api_toolkit.Prelude.{
  ℕ, ◌≡◌, refl, [], ◌∷◌, none, some, codes, concat, split_on, string_eq, list_eq,
}
use api_toolkit.Validation.{
  accepted, fields, Kind, nil_pointer, struct, Validator, validate, tag_name, is_struct,
  build_message, join,
}
use api_toolkit.Validation.Messages.{told}

-- A value has a name and an age; the validator finds fault with both.
abbrev validator : Validator Kind ℕ
validator = record {
  kind = λ value. value;
  check = λ value. fields (
      record { field = "name"; tag = "required"; param = ""; value = "" }
      ∷ record { field = "age"; tag = "gte"; param = "18"; value = "7" }
      ∷ []);
  check_field = λ value field. accepted;
}

two_messages :
    told (λ e. "") (validator.check struct)
    ≡ some "name: is required; age: failed 'gte'=18 validation"
unfolding join build_message concat
two_messages = refl

-- A nil pointer is valid to Validate, though the nil interface is not.
accepts_nil_pointer : validate validator nil_pointer ≡ none
unfolding validate is_struct
accepts_nil_pointer = refl

tagged : tag_name (codes "Name") (codes "name,omitempty") ≡ codes "name"
unfolding tag_name split_on
tagged = refl
