-- ===== src/Bootstrap/Refused.antt =====
-- Requests that the default router of bootstrap/http.go answers itself: refusals and panics.
use api_toolkit.Prelude.{
  ℕ, zero, suc, ◌+◌, ◌^◌, ◌≡◌, refl, ap, ◌∙◌, Bool, true, false, not, ◌||◌, [], ◌∷◌, Option, none,
  some, if◌then◌else◌, Text, codes, insert, ◌==◌, string_eq, list_eq, arith,
}
use api_toolkit.Prelude.Int.{ℤ, pos, negsuc}
use api_toolkit.Httpx.{problem_members}
use api_toolkit.RateLimit
use api_toolkit.RateLimit.{Verdict, served, too_many_requests}
use api_toolkit.Http.{
  Request, World, Exit, finished, panicked, Handler, Headers, header, Writer, set_header, send,
  write_header, write, http_error,
}
use api_toolkit.Http.Guards.{
  secure, rate_limit, max_body, limited_body, require_json, after_verdict, limiter_request, is_json,
}
use api_toolkit.Http.Recovery.{recover, recovered, send_problem, timeout}
use api_toolkit.Bootstrap.{
  Env, cors_of, cors_handler, set_headers, inner_router, default_router, serve, empty_writer,
}

-- The code of the final response.
abbrev pub code : Writer → Option ℕ
code x = code_of x.sent
  where
    code_of : Option (ℕ × Headers) → Option ℕ
    code_of none = none
    code_of (some (c, hs)) = some c

abbrev pub verdict_at : Env → Request → World → Verdict
verdict_at env r w = (RateLimit.handle w.limiter (limiter_request r) (env.clock w.reads)).1

abbrev pub unaccepted : (missing json : Bool) → Option ℕ
unaccepted missing json = if missing || not json then some 415 else none

-- The code with which a request is refused, by the limiter before the content type is looked at;
-- `itoa` panics for a `Retry-After` with too many digits.
abbrev pub refused_as : Verdict → Text → Option ℕ
refused_as (too_many_requests none) ct = some 500
refused_as (too_many_requests (some seconds)) ct = some 429
refused_as served ct = unaccepted (ct == []) (is_json ct)

abbrev pub refusal : Env → Request → World → Option ℕ
refusal env r w = refused_as (verdict_at env r w) (header "Content-Type" r.headers)

-- The writer of a request that nothing has been sent for.
abbrev pub ready : Headers → World → World
ready hs w = record w { writer = record (empty_writer) { headers = hs } }

abbrev added : Headers → Headers → Headers
added [] hs = hs
added ((k, v) ∷ rest) hs = added rest (insert k v hs)

set_headers-ready :
    (new hs : Headers) (w : World) → set_headers new (ready hs w) ≡ ready (added new hs) w
unfolding set_headers set_header
set_headers-ready [] hs w = refl
set_headers-ready ((k, v) ∷ rest) hs w = set_headers-ready rest (insert k v hs) w

abbrev safe : Bool → Headers → Headers
safe tls hs =
    let hs' =
      insert "Content-Security-Policy" (codes "default-src 'none'; frame-ancestors 'none'") (
        insert "Referrer-Policy" (codes "no-referrer") (
          insert "X-Frame-Options" (codes "DENY")
            (insert "X-Content-Type-Options" (codes "nosniff") hs))) in
    if tls
    then insert "Strict-Transport-Security" (codes "max-age=31536000; includeSubDomains") hs'
    else hs'

secure-ready :
    (next : Handler) (r : Request) (hs : Headers) (w : World)
    → secure next r (ready hs w) ≡ next r (ready (safe r.tls hs) w)
unfolding secure set_header
secure-ready next r hs w = by_bool r.tls
  where
    by_bool :
        (tls : Bool)
        → next r (if tls then ready (safe true hs) w else ready (safe false hs) w)
          ≡ next r (ready (safe tls hs) w)
    by_bool true = refl
    by_bool false = refl

-- The limiter and what stands behind it.
abbrev limited : Env → Handler → Handler
limited env app =
    rate_limit env.clock
      (max_body (pos (2 ^ 20)) (require_json true (timeout env.timed_out (inner_router env app))))

abbrev pub headers_at : Env → Request → Headers
headers_at env r = safe r.tls (added (cors_of env r).0 [])

pub default_router-ready :
    (env : Env) (app : Handler) (r : Request) (w : World)
    → (cors_of env r).1 ≡ false
    → cors_handler env (secure (limited env app)) r (ready [] w)
      ≡ limited env app r (ready (headers_at env r) w)
unfolding cors_handler
default_router-ready env app r w off = rw off (
    ap (secure (limited env app) r) (set_headers-ready (cors_of env r).0 [] w)
    ∙ (secure-ready (limited env app) r (added (cors_of env r).0 []) w))

-- Answered with the code `c`, without a line in the log or an observation.
abbrev IsRefused : ℕ → World → Exit × World → Type 0
IsRefused c w (exit, w') =
    (code (send 200 w'.writer) ≡ some c) × (w'.log ≡ w.log) × (w'.observations ≡ w.observations)

-- The answer to a refused request, which no application takes part in.
abbrev turned_away : Verdict → Text → World → Exit × World
turned_away (too_many_requests none) ct w = (panicked, w)
turned_away (too_many_requests (some seconds)) ct w =
    (finished, http_error "rate limit exceeded" 20 429 (set_header "Retry-After" seconds w))
turned_away served ct w =
    if ct == []
    then (finished, http_error "missing content-type" 21 415 w)
    else (finished, http_error "content-type must be application/json" 38 415 w)

turned_away-IsRefused :
    (v : Verdict) (ct : Text) (c : ℕ) (hs : Headers) (w : World)
    → refused_as v ct ≡ some c
    → IsRefused c w (recovered (turned_away v ct (ready hs w)))
unfolding recovered send_problem problem_members http_error write_header write send set_header
turned_away-IsRefused (too_many_requests none) ct c hs w e = (e, refl, refl)
turned_away-IsRefused (too_many_requests (some seconds)) ct c hs w e = (e, refl, refl)
turned_away-IsRefused served ct c hs w e = by_bool (ct == []) (is_json ct) e
  where
    by_bool :
        (a b : Bool)
        → unaccepted a b ≡ some c
        → IsRefused c w (
            recovered (
              if a then (finished, http_error "missing content-type" 21 415 (ready hs w)) else (
                finished,
                http_error "content-type must be application/json" 38 415 (ready hs w),
              )))
    by_bool true b k = (k, refl, refl)
    by_bool false false k = (k, refl, refl)
    by_bool false true k = ground arith

pub limited_body-headers : (limit : ℤ) (r : Request) → (limited_body limit r).headers ≡ r.headers
limited_body-headers (pos zero) r = refl
limited_body-headers (pos (suc n)) r = by_bool r.has_body
  where
    by_bool :
        (b : Bool) → (if b then record r { body_limit = some (suc n) } else r).headers ≡ r.headers
    by_bool true = refl
    by_bool false = refl
limited_body-headers (negsuc n) r = refl

require_json-refused :
    (next : Handler) (r : Request) (w : World) (ct : Text) (c : ℕ)
    → header "Content-Type" r.headers ≡ ct
    → refused_as served ct ≡ some c
    → require_json true next r w ≡ turned_away served ct w
unfolding require_json
require_json-refused next r w ct c same e = rw same (by_bool (ct == []) (is_json ct) e)
  where
    wrong : Exit × World
    wrong = (finished, http_error "content-type must be application/json" 38 415 w)

    by_bool :
        (a b : Bool)
        → unaccepted a b ≡ some c
        → (if a
            then (finished, http_error "missing content-type" 21 415 w)
            else if not b
            then wrong
            else next r w)
          ≡ (if a then (finished, http_error "missing content-type" 21 415 w) else wrong)
    by_bool true b k = refl
    by_bool false false k = refl
    by_bool false true k = ground arith

after_verdict-refused :
    (next : Handler) (r : Request) (v : Verdict) (c : ℕ) (w : World)
    → refused_as v (header "Content-Type" r.headers) ≡ some c
    → after_verdict (max_body (pos (2 ^ 20)) (require_json true next)) r v w
      ≡ turned_away v (header "Content-Type" r.headers) w
unfolding after_verdict max_body
after_verdict-refused next r (too_many_requests none) c w e = refl
after_verdict-refused next r (too_many_requests (some seconds)) c w e = refl
after_verdict-refused next r served c w e =
    require_json-refused next (limited_body (pos (2 ^ 20)) r) w _ c
      (ap (header "Content-Type") (limited_body-headers (pos (2 ^ 20)) r)) e

-- The world after the limiter.
abbrev pub counted : Env → Request → World → World
counted env r w = record w {
  limiter = (RateLimit.handle w.limiter (limiter_request r) (env.clock w.reads)).0;
  reads = w.reads + 1;
}

refused_answer :
    (env : Env) (app : Handler) (r : Request) (w : World) (c : ℕ)
    → (cors_of env (env.identify r)).1 ≡ false
    → refusal env (env.identify r) w ≡ some c
    → default_router env app r (ready [] w)
      ≡ recovered (
          turned_away
            (verdict_at env (env.identify r) w)
            (header "Content-Type" (env.identify r).headers)
            (ready (headers_at env (env.identify r)) (counted env (env.identify r) w)))
unfolding default_router recover rate_limit
refused_answer env app r w c off e = ap recovered (
    default_router-ready env app (env.identify r) w off
    ∙ after_verdict-refused (timeout env.timed_out (inner_router env app)) (env.identify r) _ c _ e)

-- A request that is not a CORS preflight is refused with 429 where the limiter does not serve it, and
-- with 415 where it serves it and the content type is missing or not one of JSON, whatever the method:
-- no line of the log and no observation comes of it, and no application makes any difference.
pub serve-refused :
    (env : Env) (app app' : Handler) (r : Request) (w : World) (c : ℕ)
    → (cors_of env (env.identify r)).1 ≡ false
    → refusal env (env.identify r) w ≡ some c
    → (code (serve env app r w).1.writer ≡ some c)
      × ((serve env app r w).1.log ≡ w.log)
      × ((serve env app r w).1.observations ≡ w.observations)
      × (serve env app r w ≡ serve env app' r w)
unfolding serve
serve-refused env app app' r w c off e =
    let r' = env.identify r in
    let (answered, logged, observed) =
      turned_away-IsRefused (verdict_at env r' w) (header "Content-Type" r'.headers) c
        (headers_at env r') (counted env r' w) e in
    rw (refused_answer env app r w c off e, refused_answer env app' r w c off e)
      (answered, logged, observed, refl)
