-- ===== src/Trace/RoundTrip.antt =====
-- parseTraceParent against formatTraceParent of middleware/trace/trace.go.
use api_toolkit.Prelude.{
  ℕ, ◌≤◌, ◌≡◌, refl, true, List, [], ◌∷◌, ◌++◌, some, Text, codes, arith, length, length-append,
  split_on, ◌==◌, nat_eq, list_eq, if◌then◌else◌, ◌∙◌, sym, ap,
}
use api_toolkit.Trace.{
  TraceParent, is_lower_hex, is_valid_trace_id, is_valid_span_id, check_parts, first_four,
  parse_trace_parent, format_trace_parent,
}
use api_toolkit.Trace.Splitting.{
  join_on, join_on-split_on, split_on_piece, split_on_last, is_lower_hex-no_dash,
}

-- What `isValidTraceID` and `isValidSpanID` accept.
abbrev pub IsTraceId : Text → Type 0
IsTraceId s = is_valid_trace_id s ≡ true

abbrev pub IsSpanId : Text → Type 0
IsSpanId s = is_valid_span_id s ≡ true

pub trace_id_facts : (s : Text) → IsTraceId s → (length s ≡ 32) × (is_lower_hex s ≡ true)
unfolding is_valid_trace_id
trace_id_facts s h = ground arith

pub span_id_facts : (s : Text) → IsSpanId s → (length s ≡ 16) × (is_lower_hex s ≡ true)
unfolding is_valid_span_id
span_id_facts s h = ground arith

abbrev flag_text : ℕ → Text
flag_text flag = if flag == 1 then codes "01" else codes "00"

flag_text_facts :
    (flag : ℕ)
    → flag ≤ 1
    → (length (flag_text flag) ≡ 2)
      × (is_lower_hex (flag_text flag) ≡ true)
      × ((if flag_text flag == codes "00" then 0 else 1) ≡ flag)
unfolding is_lower_hex
flag_text_facts flag h = ground arith

pub length-format_trace_parent :
    (tid sid : Text) (flag : ℕ)
    → IsTraceId tid
    → IsSpanId sid
    → length (format_trace_parent tid sid flag) ≡ 55
unfolding format_trace_parent
length-format_trace_parent tid sid flag ht hs = ground (
  arith,
  trace_id_facts tid ht,
  span_id_facts sid hs,
  length-append tid (b'-' ∷ (sid ++ b'-' ∷ flag_text flag)),
  length-append sid (b'-' ∷ flag_text flag),
)

check_parts_valid :
    (tid sid : Text) (flag : ℕ)
    → IsTraceId tid
    → IsSpanId sid
    → flag ≤ 1
    → check_parts (codes "00") tid sid (flag_text flag)
      ≡ some (record { trace_id = tid; parent_id = sid; flags = flag })
unfolding check_parts
check_parts_valid tid sid flag ht hs hf = ground (arith, flag_text_facts flag hf)

split_on-format_trace_parent :
    (tid sid : Text) (flag : ℕ)
    → IsTraceId tid
    → IsSpanId sid
    → flag ≤ 1
    → split_on b'-' (format_trace_parent tid sid flag)
      ≡ codes "00" ∷ tid ∷ sid ∷ flag_text flag ∷ []
unfolding format_trace_parent
split_on-format_trace_parent tid sid flag ht hs hf = rw (
  split_on_piece b'-' (codes "00") (tid ++ b'-' ∷ (sid ++ b'-' ∷ flag_text flag)) refl,
  split_on_piece b'-' tid (sid ++ b'-' ∷ flag_text flag)
      (is_lower_hex-no_dash tid (trace_id_facts tid ht).1),
  split_on_piece b'-' sid (flag_text flag) (is_lower_hex-no_dash sid (span_id_facts sid hs).1),
  split_on_last b'-' (flag_text flag)
      (is_lower_hex-no_dash (flag_text flag) (flag_text_facts flag hf).1),
)

-- A header that `formatTraceParent` writes for a valid trace id and span id, with sampling flag
-- 0 or 1, is read back by `parseTraceParent` as those ids and that flag.
pub parse_trace_parent-format_trace_parent :
    (tid sid : Text) (flag : ℕ)
    → IsTraceId tid
    → IsSpanId sid
    → flag ≤ 1
    → parse_trace_parent (format_trace_parent tid sid flag)
      ≡ some (record { trace_id = tid; parent_id = sid; flags = flag })
unfolding parse_trace_parent first_four
parse_trace_parent-format_trace_parent tid sid flag ht hs hf =
    rw
      (
        length-format_trace_parent tid sid flag ht hs,
        split_on-format_trace_parent tid sid flag ht hs hf,
      )
      (check_parts_valid tid sid flag ht hs hf)

-- What an accepted header is: the parts that the returned value names, and perhaps more of them.
pub record IsParsed (s : Text) (p : TraceParent) : Type 0 where
  pub flag_part : Text
  pub rest : List Text
  pub spelled : s ≡ join_on b'-' (codes "00" ∷ p.trace_id ∷ p.parent_id ∷ flag_part ∷ rest)
  pub trace_valid : IsTraceId p.trace_id
  pub parent_valid : IsSpanId p.parent_id
  pub flag_shape : (length flag_part ≡ 2) × (is_lower_hex flag_part ≡ true)
  pub flag_value : p.flags ≡ (if flag_part == codes "00" then 0 else 1)
  pub size : (55 ≤ length s) × (length s ≤ 200)

check_parts_facts :
    (ver tid pid fl : Text) (p : TraceParent)
    → check_parts ver tid pid fl ≡ some p
    → (ver ≡ codes "00")
      × (p.trace_id ≡ tid)
      × (p.parent_id ≡ pid)
      × IsTraceId tid
      × IsSpanId pid
      × (length fl ≡ 2)
      × (is_lower_hex fl ≡ true)
      × (p.flags ≡ (if fl == codes "00" then 0 else 1))
unfolding check_parts
check_parts_facts ver tid pid fl p h = ground (arith, list_eq.beq_iff ver (codes "00"))

check_parts_sound :
    (s : Text) (ver tid pid fl : Text) (rest : List Text) (p : TraceParent)
    → (55 ≤ length s) × (length s ≤ 200)
    → s ≡ join_on b'-' (ver ∷ tid ∷ pid ∷ fl ∷ rest)
    → check_parts ver tid pid fl ≡ some p
    → IsParsed s p
check_parts_sound s ver tid pid fl rest p size e h =
    let (v, t, d, valid, valid', two, hex, value) = check_parts_facts ver tid pid fl p h in
    record {
      flag_part = fl;
      rest = rest;
      spelled = rw (t, d) (e ∙ ap (λ (v' : Text). join_on b'-' (v' ∷ tid ∷ pid ∷ fl ∷ rest)) v);
      trace_valid = rw t valid;
      parent_valid = rw d valid';
      flag_shape = (two, hex);
      flag_value = value;
      size = size;
    }

first_four_sound :
    (s : Text) (parts : List Text) (p : TraceParent)
    → (55 ≤ length s) × (length s ≤ 200)
    → s ≡ join_on b'-' parts
    → first_four parts ≡ some p
    → IsParsed s p
unfolding first_four
first_four_sound s (ver ∷ tid ∷ pid ∷ fl ∷ rest) p size e h =
    check_parts_sound s ver tid pid fl rest p size e h
first_four_sound s [] p size e h = cc
first_four_sound s (a ∷ []) p size e h = cc
first_four_sound s (a ∷ b ∷ []) p size e h = cc
first_four_sound s (a ∷ b ∷ c ∷ []) p size e h = cc

length_in_range :
    (s : Text) {p : TraceParent}
    → parse_trace_parent s ≡ some p
    → ((55 ≤ length s) × (length s ≤ 200)) × (first_four (split_on b'-' s) ≡ some p)
unfolding parse_trace_parent
length_in_range s h = ground arith

-- Whatever header is accepted has 55 to 200 bytes, is "00", the trace id, the parent id and two
-- lower-case hexadecimal digits joined by dashes (further parts may follow), and both ids are valid;
-- the flags are 0 exactly for the digits "00", else 1.
pub parse_trace_parent_sound :
    (s : Text) (p : TraceParent) → parse_trace_parent s ≡ some p → IsParsed s p
parse_trace_parent_sound s p h =
    let (size, found) = length_in_range s h in
    first_four_sound s (split_on b'-' s) p size (sym (join_on-split_on b'-' s)) found
