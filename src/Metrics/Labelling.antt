-- ===== src/Metrics/Labelling.antt =====
-- The labels of the observations of middleware/metrics/metrics.go.
use api_toolkit.Prelude.{
  ℕ, ◌-◌, ◌≡◌, refl, false, List, [], ◌∷◌, some, Text, codes, lookup, ◌==◌, string_eq, list_eq,
}
use api_toolkit.Prelude.Int.{ℤ, pos, parse_int64}
use api_toolkit.Itoa.Digits.{Fits, parse_int64-itoa}
use api_toolkit.Metrics.{
  itoa-Itoa, Observation, or_text, labels_of, sanitize_http_labels, write_headers, handler,
}

parse_int64-nonempty : (s : Text) (z : ℤ) → parse_int64 s ≡ some z → (s == []) ≡ false
unfolding parse_int64
parse_int64-nonempty [] z h = cc
parse_int64-nonempty (c ∷ s) z h = refl

or_text-same : (s : Text) → or_text s s ≡ s
or_text-same [] = refl
or_text-same (c ∷ s) = refl

-- For a code that fits into twelve characters, as every HTTP status does: the handler does not panic,
-- and the recorder's labels are the method (or "UNKNOWN"), the path (or "unknown"), and a status that
-- reads back as the code that was written last, 200 if none was.
pub handler-labels :
    (method path : Text) (written : List ℤ) (start stop : ℕ)
    → Fits (write_headers (pos 200) written)
    → (o : Observation) × (status : Text) × (handler method path written start stop ≡ some o)
      × (sanitize_http_labels o.labels
          ≡ (or_text method (codes "UNKNOWN"), or_text path (codes "unknown"), status))
      × (parse_int64 status ≡ some (write_headers (pos 200) written))
      × (o.duration ≡ stop - start)
unfolding handler labels_of sanitize_http_labels lookup
handler-labels method path written start stop fits =
    let (status, printed, read) = parse_int64-itoa (write_headers (pos 200) written) fits in
    (
      record {
        labels = ("method", method) ∷ ("route", path) ∷ ("path", path) ∷ ("status", status) ∷ [];
        duration = stop - start;
      },
      status,
      rw (itoa-Itoa, printed) refl,
      rw (or_text-same path)
          (rw (parse_int64-nonempty status (write_headers (pos 200) written) read) refl),
      read,
      refl,
    )
