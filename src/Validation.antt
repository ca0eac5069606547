-- ===== src/Validation.antt =====
-- validation/validation.go: the errors of the validator, their texts, and the adapter of the package
-- go-playground/validator.
pub mod Messages
mod Tests
use api_toolkit.Prelude.{
  ℕ, suc, ◌≡◌, refl, Bool, true, false, not, ◌||◌, String, List, [], ◌∷◌, Option, none, some,
  if◌then◌else◌, Text, codes, concat, map, trim_space, split_on, ◌==◌, string_eq, list_eq,
}

pub record ValidationError : Type 0 where
  pub field : String
  pub message : String
  pub value : String

-- `FieldError` of the validator, with its value as `%v` prints it.
pub record FieldError : Type 0 where
  pub field : String
  pub tag : String
  pub param : String
  pub value : String

-- What the validator returns: nil, `ValidationErrors`, or another error.
pub data Checked {ℓ} (E : Type ℓ) : Type ℓ where
  accepted : Checked E
  fields : List FieldError → Checked E
  failed : E → Checked E

-- The errors that the adapter returns.
pub data Error {ℓ} (E : Type ℓ) : Type ℓ where
  one : ValidationError → Error E
  several : List ValidationError → Error E
  other : E → Error E

unfoldable pub error_text : ValidationError → String
error_text e = if e.field == "" then e.message else concat (e.field ∷ ": " ∷ e.message ∷ [])

-- `strings.Join`.
unfoldable pub join : String → List String → String
join sep [] = ""
join sep (s ∷ []) = s
join sep (s ∷ t ∷ ss) = concat (s ∷ sep ∷ join sep (t ∷ ss) ∷ [])

unfoldable pub errors_text : List ValidationError → String
unfolding error_text join
errors_text [] = "validation failed"
errors_text (e ∷ []) = error_text e
errors_text (e ∷ d ∷ es) = join "; " (map error_text (e ∷ d ∷ es))

unfoldable pub build_message : FieldError → String
build_message fe =
    if fe.tag == "required"
    then "is required"
    else if fe.tag == "min"
    then concat ("must be at least " ∷ fe.param ∷ [])
    else if fe.tag == "max"
    then concat ("must be at most " ∷ fe.param ∷ [])
    else if fe.tag == "len"
    then concat ("must be " ∷ fe.param ∷ " in length" ∷ [])
    else if fe.tag == "oneof"
    then concat ("must be one of [" ∷ fe.param ∷ "]" ∷ [])
    else if fe.param == ""
    then concat ("failed '" ∷ fe.tag ∷ "' validation" ∷ [])
    else concat ("failed '" ∷ fe.tag ∷ "'=" ∷ fe.param ∷ " validation" ∷ [])

unfoldable pub converted : FieldError → ValidationError
unfolding build_message
converted fe = record { field = fe.field; message = build_message fe; value = fe.value }

module _ {ℓ} {E : Type ℓ} where
  abbrev pub gathered : List ValidationError → Error E
  gathered (e ∷ []) = one e
  gathered es = several es

  unfoldable pub convert_error : Checked E → Option (Error E)
  unfolding converted
  convert_error accepted = none
  convert_error (fields fes) = some (gathered (map converted fes))
  convert_error (failed e) = some (other e)

-- What `reflect` tells of a value: the nil interface, a nil pointer, a pointer, a struct, or others.
pub data Kind : Type 0 where
  nil_interface nil_pointer struct others : Kind
  pointer_to : Kind → Kind

abbrev pub is_nil : Kind → Bool
is_nil nil_interface = true
is_nil _ = false

unfoldable pub is_struct : Kind → Bool
is_struct struct = true
is_struct (pointer_to struct) = true
is_struct _ = false

abbrev pub required : String → ValidationError
required message = record { field = ""; message = message; value = "" }

-- The validator on values of a type: `StructCtx` and `StructPartialCtx`.
pub record Validator {ℓ κ} (V : Type ℓ) (E : Type κ) : Type (ℓ ⊔ κ) where
  pub kind : V → Kind
  pub check : V → Checked E
  pub check_field : V → Text → Checked E

module _ {ℓ κ} {V : Type ℓ} {E : Type κ} (v : Validator V E) where
  unfoldable pub validate : V → Option (Error E)
  unfolding convert_error is_struct
  validate value =
      if is_nil (v.kind value)
      then some (one (required "value is required"))
      else if is_struct (v.kind value)
      then convert_error (v.check value)
      else none

  unfoldable pub validate_struct : V → Option (Error E)
  unfolding convert_error
  validate_struct obj =
      if is_nil (v.kind obj)
      then some (one (required "object is required"))
      else convert_error (v.check obj)

  unfoldable pub validate_field : V → Text → Option (Error E)
  unfolding convert_error
  validate_field obj field =
      if is_nil (v.kind obj)
      then some (one (required "object is required"))
      else if trim_space field == []
      then some (one (required "field name is required"))
      else convert_error (v.check_field obj field)

-- The name that `RegisterTagNameFunc` gives to a field: that of its tag `json`, if it has one.
abbrev pub first_part : List Text → Text
first_part [] = []
first_part (s ∷ ss) = s

unfoldable pub tag_name : (field_name json : Text) → Text
tag_name field_name json =
    let name = first_part (split_on b',' json) in
    if json == [] then field_name else if name == codes "-" || name == [] then field_name else name
