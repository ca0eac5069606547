-- ===== src/Metrics/Tests.antt =====
-- Observations of middleware/metrics/metrics.go, and the theorem on its recorder at a concrete input.
use api_toolkit.Prelude.{◌≡◌, refl, List, [], ◌∷◌, Text, codes, lookup, list_eq}
use api_toolkit.Prelude.Int.{pos}
use api_toolkit.Itoa.{itoa, write_digits}
use api_toolkit.Metrics.{Observation, sanitize_http_labels, write_headers, handler}
use api_toolkit.Metrics.Recorder.{Series, matching}

metrics_open : Unit {0}
unfolding handler sanitize_http_labels write_headers itoa write_digits lookup matching
metrics_open = tt

last_code : write_headers (pos 200) (pos 404 ∷ pos 500 ∷ []) ≡ pos 500
unfolding metrics_open
last_code = refl

abbrev found : Text → Observation
found path = record {
  labels = ("method", codes "GET") ∷ ("route", path) ∷ ("status", codes "200") ∷ [];
  duration = 12;
}

abbrev seen : List Observation
seen = found (codes "/a") ∷ found [] ∷ found (codes "/a") ∷ []

abbrev series_a : Series
series_a = (codes "GET", codes "/a", codes "200")

two_of_three : matching series_a seen ≡ 2
unfolding metrics_open
two_of_three = refl
