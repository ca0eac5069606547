-- ===== src/Metrics.antt =====
-- middleware/metrics/metrics.go: the middleware with its recording writer, and the labels that the
-- Prometheus recorder makes of what it gets. Its `itoa` repeats that of the limiter.
pub mod Labelling
pub mod Recorder
mod Tests
use api_toolkit.Prelude.{
  ℕ, ◌+◌, ◌-◌, ◌≡◌, refl, Bool, true, false, String, List, [], ◌∷◌, Option, none, some,
  if◌then◌else◌, Text, codes, lookup, ◌==◌, string_eq, list_eq,
}
use api_toolkit.Prelude.Int.{ℤ, pos}
use api_toolkit.Itoa
use api_toolkit.Itoa.{is_zero, is_neg, magnitude, write_digits, write_sign}

abbrev pub Labels : Type 0
Labels = List (String × Text)

-- A missing key of a map is read as the empty string.
abbrev pub label : String → Labels → Text
label key labels = text_of (lookup key labels)
  where
    text_of : Option Text → Text
    text_of none = []
    text_of (some s) = s

abbrev pub or_text : Text → Text → Text
or_text s default = if s == [] then default else s

-- The method, the route and the status.
unfoldable pub sanitize_http_labels : Labels → Text × Text × Text
sanitize_http_labels labels = (
  or_text (label "method" labels) (codes "UNKNOWN"),
  or_text (or_text (label "route" labels) (label "path" labels)) (codes "unknown"),
  or_text (label "status" labels) (codes "0"),
)

-- `respWriter`: the status that the calls of `WriteHeader` leave, 200 without any.
unfoldable pub write_headers : ℤ → List ℤ → ℤ
write_headers status [] = status
write_headers status (code ∷ rest) = write_headers code rest

-- What the recorder gets: one count, and the duration, under the same labels.
pub record Observation : Type 0 where
  pub labels : Labels
  pub duration : ℕ

unfoldable pub labels_of : Text → Text → Option Text → Option Labels
labels_of method path none = none
labels_of method path (some status) =
    some (("method", method) ∷ ("route", path) ∷ ("path", path) ∷ ("status", status) ∷ [])

abbrev pub observation : ℕ → Option Labels → Option Observation
observation duration none = none
observation duration (some labels) = some (record { labels = labels; duration = duration })

-- The second copy of `itoa`.
unfoldable pub itoa : ℤ → Option Text
itoa n =
    if is_zero n then some (codes "0") else write_sign (is_neg n) (write_digits 12 (magnitude n) [])

pub itoa-Itoa : (n : ℤ) → itoa n ≡ Itoa.itoa n
unfolding itoa Itoa.itoa
itoa-Itoa n = refl

-- The handler around a `next` that calls `WriteHeader` with these codes, between two readings of the
-- clock; `none` is the panic of `itoa`.
unfoldable pub handler : Text → Text → List ℤ → (start stop : ℕ) → Option Observation
unfolding labels_of
handler method path written start stop =
    observation (stop - start) (labels_of method path (itoa (write_headers (pos 200) written)))
