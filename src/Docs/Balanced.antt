-- ===== src/Docs/Balanced.antt =====
-- The brackets and strings of the minimal OpenAPI document of docs/docs.go.
use api_toolkit.Prelude.{
  ℕ, ◌≡◌, refl, ap, ◌∙◌, Bool, true, false, not, ◌&&◌, ◌||◌, List, [], ◌∷◌, ◌++◌, if◌then◌else◌,
  eqb, ltb, Text, arith,
}
use api_toolkit.Docs.{DocsConfig, generate_minimal_openapi}
use api_toolkit.Docs.Templates.{unlines, openapi_1, openapi_2, openapi_3, openapi_4}

-- A scan of JSON: outside of strings with the brackets still open, the innermost first; inside of a
-- string; behind a backslash in it; or broken.
pub data Scan : Type 0 where
  outside inside escaped : List ℕ → Scan
  broken : Scan

abbrev closes : ℕ → List ℕ → Scan
closes opening [] = broken
closes opening (b ∷ open_brackets) = if eqb b opening then outside open_brackets else broken

abbrev step : Scan → ℕ → Scan
step (outside bs) c =
    if eqb c b'"'
    then inside bs
    else if eqb c b'{' || eqb c b'['
    then outside (c ∷ bs)
    else if eqb c b'}'
    then closes b'{' bs
    else if eqb c b']'
    then closes b'[' bs
    else outside bs
step (inside bs) c =
    if eqb c b'"'
    then outside bs
    else if eqb c b'\\'
    then escaped bs
    else if ltb c 32
    then broken
    else inside bs
step (escaped bs) c = inside bs
step broken c = broken

abbrev pub scan : Scan → Text → Scan
scan s [] = s
scan s (c ∷ t) = scan (step s c) t

scan-append : (s : Scan) (t u : Text) → scan s (t ++ u) ≡ scan (scan s t) u
scan-append s [] u = refl
scan-append s (c ∷ t) u = scan-append (step s c) t u

-- Text that needs no escape in a string.
abbrev pub is_plain : Text → Bool
is_plain [] = true
is_plain (c ∷ t) = not (eqb c b'"') && not (eqb c b'\\') && not (ltb c 32) && is_plain t

scan-plain : (bs : List ℕ) (t : Text) → is_plain t ≡ true → scan (inside bs) t ≡ inside bs
scan-plain bs [] h = refl
scan-plain bs (c ∷ t) h = by_bools (eqb c b'"') (eqb c b'\\') (ltb c 32) h (scan-plain bs t)
  where
    by_bools :
        (quote backslash control : Bool)
        → (not quote && not backslash && not control && is_plain t) ≡ true
        → (is_plain t ≡ true → scan (inside bs) t ≡ inside bs)
        → scan
            (if quote
              then outside bs
              else if backslash
              then escaped bs
              else if control
              then broken
              else inside bs)
            t
          ≡ inside bs
    by_bools false false false h rest = rest h
    by_bools true b d h rest = ground arith
    by_bools false true d h rest = ground arith
    by_bools false false true h rest = ground arith

-- A value of the template between two of its parts.
scan-value :
    (s : Scan) (bs : List ℕ) (part value rest : Text)
    → scan s part ≡ inside bs
    → is_plain value ≡ true
    → scan s (part ++ (value ++ rest)) ≡ scan (inside bs) rest
scan-value s bs part value rest opened plain =
    scan-append s part (value ++ rest)
    ∙ (ap (λ x. scan x (value ++ rest)) opened
        ∙ (scan-append (inside bs) value rest ∙ ap (λ x. scan x rest) (scan-plain bs value plain)))

-- The minimal document closes every string and every bracket in its order, if the title, the
-- description and the version of the configuration have no quote, backslash or control character.
pub generate_minimal_openapi-Balanced :
    (c : DocsConfig)
    → is_plain c.title ≡ true
    → is_plain c.description ≡ true
    → is_plain c.version ≡ true
    → scan (outside []) (generate_minimal_openapi c) ≡ outside []
unfolding generate_minimal_openapi unlines
generate_minimal_openapi-Balanced c title description version =
    scan-value (outside []) (b'{' ∷ b'{' ∷ []) openapi_1 c.title _ refl title
    ∙ (scan-value (inside (b'{' ∷ b'{' ∷ [])) (b'{' ∷ b'{' ∷ []) openapi_2 c.description _ refl
          description
        ∙ (scan-value (inside (b'{' ∷ b'{' ∷ [])) (b'{' ∷ b'{' ∷ []) openapi_3 c.version openapi_4
              refl version
            ∙ refl))
