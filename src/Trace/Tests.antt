-- ===== src/Trace/Tests.antt =====
-- Runs of middleware/trace/trace.go, and its theorems at concrete inputs.
use api_toolkit.Prelude.{
  ◌≡◌, refl, string_eq, if◌then◌else◌, true, [], ◌∷◌, some, none, Text, codes, lookup, insert,
  split_on,
}
use api_toolkit.Trace.{
  Options, Request, TraceParent, new_id, parse_trace_parent, format_trace_parent, get_trace_id,
  get_span_id, middleware, is_valid_trace_id, is_valid_span_id, is_lower_hex, all_zero_hex,
}
use api_toolkit.Trace.RoundTrip.{IsTraceId, IsSpanId}
use api_toolkit.Trace.Serving.{served, accepted, middleware_trust}

trace_open : Unit {0}
unfolding split_on parse_trace_parent format_trace_parent is_valid_trace_id is_valid_span_id
    is_lower_hex all_zero_hex middleware new_id lookup insert
trace_open = tt

abbrev tid : Text
tid = codes "4bf92f3577b34da6a3ce929d0e0e4736"

abbrev sid : Text
sid = codes "00f067aa0ba902b7"

abbrev header : Text
header = codes "00-4bf92f3577b34da6a3ce929d0e0e4736-00f067aa0ba902b7-01"

abbrev parsed : TraceParent
parsed = record { trace_id = tid; parent_id = sid; flags = 1 }

header_read : parse_trace_parent header ≡ some parsed
unfolding trace_open
header_read = refl

other_version :
    parse_trace_parent (codes "01-4bf92f3577b34da6a3ce929d0e0e4736-00f067aa0ba902b7-01") ≡ none
unfolding trace_open
other_version = refl

zero_span :
    parse_trace_parent (codes "00-4bf92f3577b34da6a3ce929d0e0e4736-0000000000000000-01") ≡ none
unfolding trace_open
zero_span = refl

valid_tid : IsTraceId tid
unfolding trace_open
valid_tid = refl

valid_sid : IsSpanId sid
unfolding trace_open
valid_sid = refl

abbrev eight : Text
eight = 0 ∷ 1 ∷ 2 ∷ 3 ∷ 4 ∷ 5 ∷ 6 ∷ 255 ∷ []

abbrev sixteen : Text
sixteen = 0 ∷ 0 ∷ 0 ∷ 0 ∷ 0 ∷ 0 ∷ 0 ∷ 0 ∷ 0 ∷ 0 ∷ 0 ∷ 0 ∷ 0 ∷ 0 ∷ 0 ∷ 0 ∷ []

guarded_id : new_id sixteen ≡ codes "01000000000000000000000000000000"
unfolding new_id
guarded_id = refl

abbrev trusting : Options
trusting = record { trust_incoming = true; sampled_flag = 7 }

abbrev asked : Request
asked = record { traceparent = header; context = [] }

middleware_trust_example :
    (get_trace_id (served trusting sixteen eight [] asked).1
      ≡ (if true then accepted (parse_trace_parent header) sixteen else new_id sixteen))
    × (get_span_id (served trusting sixteen eight [] asked).1 ≡ new_id eight)
middleware_trust_example = middleware_trust trusting sixteen eight [] asked
