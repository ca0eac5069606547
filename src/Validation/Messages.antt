-- ===== src/Validation/Messages.antt =====
-- The texts of the errors of validation/validation.go.
use api_toolkit.Prelude.{
  ◌≡◌, refl, ap, String, List, [], ◌∷◌, Option, none, some, if◌then◌else◌, map, ◌==◌, string_eq,
  concat,
}
use api_toolkit.Validation.{
  FieldError, Checked, accepted, fields, failed, Error, one, several, other, error_text, join,
  errors_text, build_message, converted, convert_error,
}

-- `Error()` of what the adapter returns; `print` is that of the validator's other errors.
abbrev pub text_of {ℓ} : {E : Type ℓ} → (E → String) → Option (Error E) → Option String
text_of print none = none
text_of print (some (one e)) = some (error_text e)
text_of print (some (several es)) = some (errors_text es)
text_of print (some (other e)) = some (print e)

-- A line for one field.
abbrev pub line : FieldError → String
line fe =
    if fe.field == "" then build_message fe else concat (fe.field ∷ ": " ∷ build_message fe ∷ [])

map-line : (fes : List FieldError) → map error_text (map converted fes) ≡ map line fes
unfolding converted error_text
map-line [] = refl
map-line (fe ∷ fes) = ap (λ ls. line fe ∷ ls) (map-line fes)

-- What a result of the validator is told as.
abbrev pub told {ℓ} : {E : Type ℓ} → (E → String) → Checked E → Option String
told print accepted = none
told print (fields []) = some "validation failed"
told print (fields (fe ∷ fes)) = some (join "; " (map line (fe ∷ fes)))
told print (failed e) = some (print e)

-- The error that Validate returns is told so.
pub convert_error-told {ℓ} :
    {E : Type ℓ} (print : E → String) (c : Checked E)
    → text_of print (convert_error c) ≡ told print c
unfolding convert_error errors_text
convert_error-told print accepted = refl
convert_error-told print (fields []) = refl
convert_error-told print (fields (fe ∷ [])) = ap some (unfold converted error_text join in refl)
convert_error-told print (fields (fe ∷ fe' ∷ fes)) =
    ap (λ ls. some (join "; " ls)) (map-line (fe ∷ fe' ∷ fes))
convert_error-told print (failed e) = refl
