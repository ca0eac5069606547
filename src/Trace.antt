-- ===== src/Trace.antt =====
-- middleware/trace/trace.go: the W3C traceparent middleware. A header's text is its list of bytes.
pub mod Ids
pub mod Splitting
pub mod RoundTrip
pub mod Serving
mod Tests
use api_toolkit.Prelude.{
  ℕ, zero, suc, ◌/◌, ◌%◌, ◌+◌, String, Bool, true, false, not, ◌&&◌, ◌||◌, List, [], ◌∷◌, ◌++◌,
  Option, none, some, Text, codes, within, all, length, ltb, if◌then◌else◌, ◌==◌, nat_eq, list_eq,
  string_eq, split_on, lookup, insert,
}

pub record Options : Type 0 where
  pub trust_incoming : Bool
  pub sampled_flag : ℕ

pub record TraceParent : Type 0 where
  pub trace_id : Text
  pub parent_id : Text
  pub flags : ℕ

pub is_lower_hex : Text → Bool
is_lower_hex = all (λ c. within b'0' b'9' c || within b'a' b'f' c)

pub all_zero_hex : Text → Bool
all_zero_hex = all (λ c. c == b'0')

pub is_valid_trace_id : Text → Bool
is_valid_trace_id s = length s == 32 && is_lower_hex s && not (all_zero_hex s)

pub is_valid_span_id : Text → Bool
is_valid_span_id s = length s == 16 && is_lower_hex s && not (all_zero_hex s)

-- What is returned once the four parts are there: the checks in the order of the source.
pub check_parts : Text → Text → Text → Text → Option TraceParent
check_parts ver tid pid fl =
    if not (length ver == 2) || not (ver == codes "00")
    then none
    else if not (is_valid_trace_id tid)
        || not (is_valid_span_id pid)
        || not (length fl == 2)
        || not (is_lower_hex fl)
    then none
    else some
        (record { trace_id = tid; parent_id = pid; flags = if fl == codes "00" then 0 else 1 })

pub first_four : List Text → Option TraceParent
unfolding check_parts
first_four (ver ∷ tid ∷ pid ∷ fl ∷ rest) = check_parts ver tid pid fl
first_four _ = none

-- `ok` is `some`.
pub parse_trace_parent : Text → Option TraceParent
unfolding first_four
parse_trace_parent s =
    if ltb (length s) 55 || ltb 200 (length s) then none else first_four (split_on b'-' s)

pub format_trace_parent : Text → Text → ℕ → Text
format_trace_parent trace_id span_id sampled =
    codes "00-"
    ++ (trace_id ++ b'-' ∷ (span_id ++ b'-' ∷ (if sampled == 1 then codes "01" else codes "00")))

pub all_zero : Text → Bool
all_zero = all (λ c. c == 0)

-- One digit of `hex.EncodeToString`.
pub hex_digit : ℕ → ℕ
hex_digit n = if ltb n 10 then b'0' + n else 87 + n

pub hex_encode : Text → Text
unfolding hex_digit
hex_encode [] = []
hex_encode (b ∷ bs) = hex_digit (b / 16) ∷ hex_digit (b % 16) ∷ hex_encode bs

pub with_first_one : Text → Text
with_first_one [] = []
with_first_one (b ∷ bs) = 1 ∷ bs

-- `newTraceID` and `newSpanID` on the 16 or 8 random bytes that `rand.Read` put into the array.
pub new_id : Text → Text
unfolding all_zero with_first_one hex_encode
new_id random = hex_encode (if all_zero random then with_first_one random else random)

pub record Request : Type 0 where
  pub traceparent : Text
  pub context : List (String × Text)

-- `context.WithValue`: a later value of a key hides an earlier one.
pub with_trace : List (String × Text) → Text → Text → List (String × Text)
with_trace ctx trace_id span_id =
    insert "trace.span_id" span_id (insert "trace.trace_id" trace_id ctx)

abbrev or_empty : Option Text → Text
or_empty none = []
or_empty (some v) = v

pub get_trace_id : Request → Text
get_trace_id r = or_empty (lookup "trace.trace_id" r.context)

pub get_span_id : Request → Text
get_span_id r = or_empty (lookup "trace.span_id" r.context)

abbrev trace_id_of : Option TraceParent → Text
trace_id_of none = []
trace_id_of (some p) = p.trace_id

-- The trace id of the client, or "" where it is not trusted or not valid.
pub incoming : Options → Text → Text
incoming opts header =
    if opts.trust_incoming
    then (if header == [] then [] else trace_id_of (parse_trace_parent header))
    else []

pub choose_trace_id : Options → Text → Text → Text
unfolding incoming
choose_trace_id opts header random =
    let given = incoming opts header in
    if given == [] || not (is_valid_trace_id given) then new_id random else given

-- Flags other than 0 and 1 become 1.
pub sampled : Options → ℕ
sampled opts =
    if not (opts.sampled_flag == 0) && not (opts.sampled_flag == 1) then 1 else opts.sampled_flag

-- The handler that `Middleware` returns: `random` holds 16 fresh bytes, `random'` 8 more, and
-- `next` is the handler behind it, on the response's headers and the request.
unfoldable pub middleware {ℓ} :
    {R : Type ℓ}
    → Options
    → (random random' : Text) → (next : List (String × Text) → Request → R) → List (String × Text)
    → Request
    → R
unfolding sampled choose_trace_id
middleware opts random random' next headers r =
    let trace_id = choose_trace_id opts r.traceparent random in
    let span_id = new_id random' in
    next (insert "traceparent" (format_trace_parent trace_id span_id (sampled opts)) headers)
      (record r { context = with_trace r.context trace_id span_id })
