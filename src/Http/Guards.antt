-- ===== src/Http/Guards.antt =====
-- The middleware that sets headers or refuses requests: middleware/secure/secure.go, the handler of
-- middleware/ratelimit/ratelimit.go, middleware/maxbody/maxbody.go and middleware/json/json.go.
use api_toolkit.Prelude.{
  ℕ, suc, ◌+◌, Bool, true, not, ◌||◌, [], Option, none, some, if◌then◌else◌, eqb, within, Text,
  codes, contains, has_suffix, map, ◌==◌, list_eq,
}
use api_toolkit.Prelude.Int.{ℤ, pos}
use api_toolkit.RateLimit
use api_toolkit.RateLimit.{Verdict, served, too_many_requests}
use api_toolkit.Http.{
  Request, World, Exit, finished, panicked, Handler, header, set_header, http_error,
}

-- `Middleware` of the package secure: HSTS is only set on TLS.
unfoldable pub secure : Handler → Handler
secure next r w =
    let w1 = set_header "X-Content-Type-Options" (codes "nosniff") w in
    let w2 = set_header "X-Frame-Options" (codes "DENY") w1 in
    let w3 = set_header "Referrer-Policy" (codes "no-referrer") w2 in
    let w4 =
      set_header "Content-Security-Policy" (codes "default-src 'none'; frame-ancestors 'none'")
        w3 in
    let w5 =
      set_header "Strict-Transport-Security" (codes "max-age=31536000; includeSubDomains") w4 in
    next r (if r.tls then w5 else w4)

abbrev pub limiter_request : Request → RateLimit.Request
limiter_request r = record {
  forwarded_for = header "X-Forwarded-For" r.headers;
  remote_addr = r.remote_addr;
}

-- What the limiter's handler does with the verdict.
unfoldable pub after_verdict : Handler → Request → Verdict → World → Exit × World
after_verdict next r served w = next r w
after_verdict next r (too_many_requests none) w = (panicked, w)
after_verdict next r (too_many_requests (some seconds)) w =
    (finished, http_error "rate limit exceeded" 20 429 (set_header "Retry-After" seconds w))

-- The clock is read once, before the lock is taken.
unfoldable pub rate_limit : (clock : ℕ → ℕ) → Handler → Handler
unfolding after_verdict
rate_limit clock next r w =
    let (limiter, verdict) = RateLimit.handle w.limiter (limiter_request r) (clock w.reads) in
    after_verdict next r verdict (record w { limiter = limiter; reads = w.reads + 1 })

abbrev pub limited_body : ℤ → Request → Request
limited_body (pos (suc n)) r = if r.has_body then record r { body_limit = some (suc n) } else r
limited_body _ r = r

unfoldable pub max_body : ℤ → Handler → Handler
max_body max_bytes next r w = next (limited_body max_bytes r) w

-- `unicode.ToLower` of the code points whose lower case is ASCII.
abbrev pub lower : ℕ → ℕ
lower c =
    if within b'A' b'Z' c
    then c + 32
    else if eqb c 0x130
    then b'i'
    else if eqb c 0x212A
    then b'k'
    else c

unfoldable pub is_json : Text → Bool
unfolding contains
is_json ct =
    let ct' = map lower ct in
    contains (codes "application/json") ct' || has_suffix (codes "+json") ct'

unfoldable pub require_json : Bool → Handler → Handler
require_json require next r w =
    let ct = header "Content-Type" r.headers in
    if not require
    then next r w
    else if ct == []
    then (finished, http_error "missing content-type" 21 415 w)
    else if not (is_json ct)
    then (finished, http_error "content-type must be application/json" 38 415 w)
    else next r w

-- `json.Decoder`, by what `StrictDecoder` asks of it.
pub record Decoder : Type 0 where
  pub body_limit : Option ℕ
  pub disallow_unknown_fields : Bool

-- `StrictDecoder`; `none` is the error "empty body".
unfoldable pub strict_decoder : Request → Option Decoder
strict_decoder r =
    if r.has_body
    then some (record { body_limit = r.body_limit; disallow_unknown_fields = true })
    else none
