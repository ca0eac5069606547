-- ===== src/Trace/Serving.antt =====
-- What the handler of middleware/trace/trace.go hands on.
use api_toolkit.Prelude.{
  ◌≤◌, ◌*◌, ◌≡◌, refl, true, false, String, List, [], ◌∷◌, Option, some, none, Text, arith, length,
  ◌==◌, nat_eq, list_eq, string_eq, if◌then◌else◌, Option-cases, inl, inr, lookup-insert, ◌∙◌,
}
use api_toolkit.Trace.{
  Options, Request, TraceParent, is_valid_trace_id, is_valid_span_id, is_lower_hex, all_zero,
  all_zero_hex, with_first_one, new_id, incoming, choose_trace_id, parse_trace_parent, with_trace,
  get_trace_id, get_span_id, middleware,
}
use api_toolkit.Trace.Ids.{
  IsBytes, length-hex_encode, is_lower_hex-hex_encode, all_zero_hex-hex_encode,
}
use api_toolkit.Trace.RoundTrip.{IsTraceId, IsSpanId, parse_trace_parent_sound}

-- The bytes that are encoded: the first is 1 where all were 0.
fixed : Text → Text
fixed bs = if all_zero bs then with_first_one bs else bs

fixed_facts :
    (bs : Text)
    → IsBytes bs
    → IsBytes (fixed bs)
      × (length (fixed bs) ≡ length bs)
      × (1 ≤ length bs → all_zero (fixed bs) ≡ false)
unfolding fixed with_first_one all_zero
fixed_facts [] h = ground arith
fixed_facts (b ∷ bs) h = ground arith

new_id_facts :
    (bs : Text)
    → IsBytes bs
    → 1 ≤ length bs
    → (length (new_id bs) ≡ 2 * length bs)
      × (is_lower_hex (new_id bs) ≡ true)
      × (all_zero_hex (new_id bs) ≡ false)
unfolding new_id fixed
new_id_facts bs h pos =
    let (b, l, z) = fixed_facts bs h in
    ground (
      arith,
      length-hex_encode (fixed bs),
      is_lower_hex-hex_encode (fixed bs) b,
      all_zero_hex-hex_encode (fixed bs) b,
      z pos,
      l,
    )

-- Sixteen random bytes give a valid trace id, and eight a valid span id.
pub new_id_valid :
    (random random' : Text)
    → IsBytes random
    → IsBytes random'
    → length random ≡ 16
    → length random' ≡ 8
    → IsTraceId (new_id random) × IsSpanId (new_id random')
unfolding is_valid_trace_id is_valid_span_id
new_id_valid random random' b b' l l' = (
  ground (arith, new_id_facts random b (omega arith)),
  ground (arith, new_id_facts random' b' (omega arith)),
)

abbrev pub accepted : Option TraceParent → Text → Text
accepted none random = new_id random
accepted (some p) random = p.trace_id

valid-ne-nil : (s : Text) → IsTraceId s → (s == []) ≡ false
unfolding is_valid_trace_id
valid-ne-nil [] h = cc
valid-ne-nil (c ∷ s) h = refl

parse_trace_parent-nil : parse_trace_parent [] ≡ none
unfolding parse_trace_parent
parse_trace_parent-nil = refl

choose_trace_id_trusted :
    (opts : Options) (header random : Text)
    → choose_trace_id opts header random
      ≡ (if opts.trust_incoming then accepted (parse_trace_parent header) random else new_id random)
unfolding choose_trace_id incoming
choose_trace_id_trusted opts header random = elim (Option-cases (parse_trace_parent header)) [
  | inl bad ↦ ground arith
  | inr (p, good) ↦
      let valid = (parse_trace_parent_sound header p good).trace_valid in
      ground (
        arith,
        valid,
        valid-ne-nil p.trace_id valid,
        list_eq.beq_iff header [],
        parse_trace_parent-nil,
      )
]

module _ (opts : Options) (random random' : Text) (headers : List (String × Text))
    (r : Request) where
  -- What the next handler gets: the response's headers and the request.
  abbrev pub served : List (String × Text) × Request
  served = middleware opts random random' (λ h q. (h, q)) headers r

  get_trace_id-served : get_trace_id served.1 ≡ choose_trace_id opts r.traceparent random
  unfolding middleware get_trace_id with_trace
  get_trace_id-served = simp lookup-insert

  get_span_id-served : get_span_id served.1 ≡ new_id random'
  unfolding middleware get_span_id with_trace
  get_span_id-served = simp lookup-insert

-- The next handler's trace id is the client's exactly when incoming headers are trusted and the
-- client's traceparent header is accepted by `parseTraceParent`; in every other case it is the fresh
-- one. The span id is always fresh.
pub middleware_trust :
    (opts : Options) (random random' : Text) (headers : List (String × Text)) (r : Request)
    → (get_trace_id (served opts random random' headers r).1 ≡ (
        if opts.trust_incoming
        then accepted (parse_trace_parent r.traceparent) random
        else new_id random))
      × (get_span_id (served opts random random' headers r).1 ≡ new_id random')
middleware_trust opts random random' headers r = (
  get_trace_id-served opts random random' headers r
      ∙ choose_trace_id_trusted opts r.traceparent random,
  get_span_id-served opts random random' headers r,
)
