-- ===== src/Bootstrap/Admitted.antt =====
-- Requests that the default router of bootstrap/http.go passes on to the application.
use api_toolkit.Prelude.{
  ℕ, ◌+◌, ◌^◌, ◌≡◌, refl, ap, ◌∙◌, ◌⊎◌, inl, inr, Bool, true, false, not, String, List, [], ◌∷◌,
  none, some, if◌then◌else◌, Text, insert, ◌==◌, string_eq, list_eq, arith,
}
use api_toolkit.Prelude.Int.{pos}
use api_toolkit.Httpx
use api_toolkit.Httpx.{problem_members}
use api_toolkit.RateLimit.{Verdict, served, too_many_requests}
use api_toolkit.Trace.{middleware}
use api_toolkit.Http.{
  Request, World, Exit, finished, panicked, Handler, Headers, header, Chunk, text, problem,
  set_header, send, write_header, write, http_error,
}
use api_toolkit.Http.Guards.{
  max_body, limited_body, require_json, after_verdict, rate_limit, is_json,
}
use api_toolkit.Http.Recording.{request_log, measure, after_logged, after_measured, wrap}
use api_toolkit.Http.Recovery.{recover, recovered, send_problem, timeout, after_timeout, buffer}
use api_toolkit.Bootstrap.{
  Env, cors_of, trace, trace_options, inner_router, default_router, serve, is_head,
}
use api_toolkit.Bootstrap.Refused.{
  refused_as, unaccepted, refusal, ready, headers_at, counted, default_router-ready,
  limited_body-headers, code,
}

require_json-accepted :
    (next : Handler) (r : Request) (w : World) (ct : Text)
    → header "Content-Type" r.headers ≡ ct
    → refused_as served ct ≡ none
    → require_json true next r w ≡ next r w
unfolding require_json
require_json-accepted next r w ct same e = rw same (by_bool (ct == []) (is_json ct) e)
  where
    missing : Exit × World
    missing = (finished, http_error "missing content-type" 21 415 w)

    wrong : Exit × World
    wrong = (finished, http_error "content-type must be application/json" 38 415 w)

    by_bool :
        (a b : Bool)
        → unaccepted a b ≡ none
        → (if a then missing else if not b then wrong else next r w) ≡ next r w
    by_bool true b k = ground arith
    by_bool false false k = ground arith
    by_bool false true k = refl

-- The request that the application gets, but for its context.
abbrev pub passed : Env → Request → Request
passed env r = limited_body (pos (2 ^ 20)) (env.identify r)

after_verdict-accepted :
    (next : Handler) (r : Request) (v : Verdict) (w : World)
    → refused_as v (header "Content-Type" r.headers) ≡ none
    → after_verdict (max_body (pos (2 ^ 20)) (require_json true next)) r v w
      ≡ next (limited_body (pos (2 ^ 20)) r) w
unfolding after_verdict max_body
after_verdict-accepted next r (too_many_requests none) w e = ground arith
after_verdict-accepted next r (too_many_requests (some seconds)) w e = ground arith
after_verdict-accepted next r served w e =
    require_json-accepted next (limited_body (pos (2 ^ 20)) r) w _
      (ap (λ hs. header "Content-Type" hs) (limited_body-headers (pos (2 ^ 20)) r)) e

-- The world in which the timeout's handler begins.
abbrev pub arrived : Env → Request → World → World
arrived env r w = ready (headers_at env (env.identify r)) (counted env (env.identify r) w)

pub default_router-accepted :
    (env : Env) (app : Handler) (r : Request) (w : World)
    → (cors_of env (env.identify r)).1 ≡ false
    → refusal env (env.identify r) w ≡ none
    → default_router env app r (ready [] w)
      ≡ recovered (timeout env.timed_out (inner_router env app) (passed env r) (arrived env r w))
unfolding default_router recover rate_limit
default_router-accepted env app r w off e = ap recovered (
    default_router-ready env app (env.identify r) w off
    ∙ after_verdict-accepted (timeout env.timed_out (inner_router env app)) (env.identify r) _ _ e)

-- The world of the application: on the buffer, with the two writers that wrap it and the header
-- `traceparent`.
abbrev wrapped : Env → World → World
wrapped env w =
    wrap (record (wrap (record w { writer = buffer; reads = w.reads + 1 })) {
      reads = w.reads + 1 + 1;
    })

-- What the application is called with for a request that is passed on: its request has the ids of the
-- trace in its context.
abbrev pub given : Env → Request → World → Request × World
given env r w =
    let w' = wrapped env (arrived env r w) in
    middleware trace_options env.random env.random'
      (λ headers r'. (
        record (passed env r) { context = r'.context },
        record w' { writer = record (w'.writer) { headers = headers } },
      ))
      w'.writer.headers
      (record {
        traceparent = header "traceparent" (passed env r).headers;
        context = (passed env r).context;
      })

-- The application panics on this request, as it gets it.
abbrev pub PanicsOn : Env → Handler → Request → World → Type 0
PanicsOn env app r w = (app (given env r w).0 (given env r w).1).0 ≡ panicked

after_measured-panicked :
    (clock : ℕ → ℕ) (r : Request) (start : ℕ) (a : Exit × World)
    → a.0 ≡ panicked
    → (after_measured clock r start a).0 ≡ panicked
unfolding after_measured
after_measured-panicked clock r start (panicked, w) e = refl
after_measured-panicked clock r start (finished, w) e = ground arith

after_logged-panicked :
    (env : Env) (r : Request) (start : ℕ) (a : Exit × World)
    → a.0 ≡ panicked
    → (after_logged env.clock env.split_host_port r start a).0 ≡ panicked
unfolding after_logged
after_logged-panicked env r start (panicked, w) e = refl
after_logged-panicked env r start (finished, w) e = ground arith

inner_router-panicked :
    (env : Env) (app : Handler) (r : Request) (w : World)
    → PanicsOn env app r w
    → (inner_router env app (passed env r) (record (arrived env r w) { writer = buffer })).0
      ≡ panicked
unfolding inner_router request_log measure trace middleware
inner_router-panicked env app r w p =
    after_logged-panicked env (passed env r) (env.clock (arrived env r w).reads) _ (
      after_measured-panicked env.clock (passed env r) (env.clock ((arrived env r w).reads + 1)) _
        p)

-- The problem document of a panic; it tells nothing of its value.
abbrev pub internal_members : List (String × Httpx.Value ℕ)
internal_members =
    ("title", Httpx.text "Internal Server Error")
    ∷ ("status", Httpx.number 500)
    ∷ ("detail", Httpx.text "internal server error")
    ∷ []

-- The answers of the middleware in place of that of the application.
abbrev pub replaced_by : (timed_out : Bool) → ℕ × List Chunk
replaced_by true = (503, text "request timeout" ∷ [])
replaced_by false = (500, problem internal_members ∷ [])

-- The server drops the body of an answer to a request with the method HEAD.
abbrev pub unless_head : Request → List Chunk → List Chunk
unless_head r chunks = if is_head r then [] else chunks

abbrev Replaced : ℕ × List Chunk → Exit × World → Type 0
Replaced (c, chunks) (exit, w) =
    (code (send 200 w.writer) ≡ some c) × ((send 200 w.writer).body ≡ chunks) × (exit ≡ finished)

recovered-Replaced :
    (timed_out : Bool) (hs : Headers) (w : World) (a : Exit × World)
    → (timed_out ≡ true) ⊎ (a.0 ≡ panicked)
    → Replaced (replaced_by timed_out) (recovered (after_timeout timed_out (ready hs w) a))
unfolding recovered after_timeout send_problem problem_members write_header write send set_header
    insert
recovered-Replaced true hs w (exit, w') e = (refl, refl, refl)
recovered-Replaced false hs w (panicked, w') e = (refl, refl, refl)
recovered-Replaced false hs w (finished, w') e = ground arith

-- A request that is passed on, to an application that is too late or panics on it: whatever the
-- application had written before is dropped, and the answer is exactly the text of the timeout with 503,
-- or the problem document with 500, without its body for the method HEAD; no panic leaves the router.
pub serve-replaced :
    (env : Env) (app : Handler) (r : Request) (w : World)
    → (cors_of env (env.identify r)).1 ≡ false
    → refusal env (env.identify r) w ≡ none
    → (env.timed_out ≡ true) ⊎ PanicsOn env app r w
    → (code (serve env app r w).1.writer ≡ some (replaced_by env.timed_out).0)
      × ((serve env app r w).1.writer.body ≡ unless_head r (replaced_by env.timed_out).1)
      × ((serve env app r w).0 ≡ finished)
unfolding serve timeout
serve-replaced env app r w off e late = rw (default_router-accepted env app r w off e) (
    let (c, body, exit) =
      recovered-Replaced env.timed_out (headers_at env (env.identify r))
        (counted env (env.identify r) w)
        (inner_router env app (passed env r) (record (arrived env r w) { writer = buffer }))
        (either late) in
    (c, ap (unless_head r) body, exit))
  where
    either :
        (env.timed_out ≡ true) ⊎ PanicsOn env app r w
        → (env.timed_out ≡ true)
          ⊎ ((inner_router env app (passed env r) (record (arrived env r w) { writer = buffer })).0
              ≡ panicked)
    either (inl t) = inl t
    either (inr p) = inr (inner_router-panicked env app r w p)
