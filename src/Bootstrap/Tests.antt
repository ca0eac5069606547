-- ===== src/Bootstrap/Tests.antt =====
-- Requests to the default router of bootstrap/http.go, and its theorems at concrete inputs.
use api_toolkit.Prelude.{
  ℕ, Option, map, ◌*◌, ◌≡◌, inr, refl, ap, true, false, List, [], ◌∷◌, none, some, Text, codes,
  lookup, insert, string_eq, has_prefix, has_suffix, contains,
}
use api_toolkit.Prelude.Int.{◌+ℤ◌, ◌-ℤ◌, scale}
use api_toolkit.RateLimit.{new, refill, bucket_at, handle_key, handle, or_default, client_ip}
use api_toolkit.Http.{Request, World, finished, panicked, Handler, text, problem, write}
use api_toolkit.Http.Guards.{is_json}
use api_toolkit.Bootstrap.{Env, default_limiter, empty_writer, serve}
use api_toolkit.Bootstrap.SecurityHeaders.{frame_options, Keeps, sent_header, headers-write}
use api_toolkit.Bootstrap.Secured.{serve-secured}
use api_toolkit.Bootstrap.Refused.{code, refusal, serve-refused}
use api_toolkit.Bootstrap.Admitted.{PanicsOn, internal_members, unless_head, serve-replaced}
use api_toolkit.Bootstrap.Actions.{Action, put, status, chunk}
use api_toolkit.Prelude.Float.{add, multiply, less, seconds, round, rounded, bits_from}
use api_toolkit.Health.Handlers
use api_toolkit.Docs.Serving
use api_toolkit.Bootstrap.Server.{mount_system_endpoints}
use api_toolkit.Bootstrap.Opening.{Trace, Call, connect, ping, close, failed, open_and_ping_db}
use api_toolkit.Bootstrap.Recorded.{answering, Recorded}

router_open : Unit {0}
unfolding default_limiter new handle handle_key refill bucket_at or_default client_ip ◌+ℤ◌ ◌-ℤ◌ add
    multiply less seconds round rounded bits_from scale lookup insert is_json contains has_prefix
    has_suffix
router_open = tt

abbrev pub env : Env
env = record {
  clock = λ n. 5_000_000 * n;
  random = [];
  random' = [];
  timed_out = false;
  split_host_port = λ addr. none;
  identify = λ r. r;
  cors = λ opts r. (("Vary", codes "Origin") ∷ [], false);
}

abbrev pub post : Text → Request
post content_type = record {
  method = codes "POST";
  path = codes "/orders";
  headers = ("Content-Type", content_type) ∷ [];
  remote_addr = codes "10.0.0.1:5000";
  tls = true;
  has_body = true;
  body_limit = none;
  context = [];
}

abbrev pub started : World
unfolding default_limiter new or_default
started = record {
  writer = empty_writer;
  limiter = default_limiter (λ addr. none);
  reads = 0;
  log = [];
  observations = [];
}

abbrev created : List Action
created =
    put "Content-Type" (codes "application/json")
    ∷ status 201
    ∷ chunk (text "{}") 2
    ∷ chunk (text "\n") 1
    ∷ []

-- An application that writes a part of its answer and then panics.
abbrev broken : Handler
unfolding write
broken r w = (panicked, write (text "partial") 7 w)

pub accepts_json : refusal env (post (codes "application/json; charset=utf-8")) started ≡ none
unfolding router_open
accepts_json = refl

refuses_forms : refusal env (post (codes "text/html")) started ≡ some 415
unfolding router_open
refuses_forms = refl

broken-Keeps : Keeps "X-Frame-Options" broken
unfolding broken
broken-Keeps r w = ap (lookup "X-Frame-Options") (headers-write (text "partial") 7 w)

accepted_panics : PanicsOn env broken (post (codes "application/json; charset=utf-8")) started
unfolding broken
accepted_panics = refl

serve-secured_example :
    sent_header "X-Frame-Options"
      (serve env broken (post (codes "text/html")) started).1.writer.sent
    ≡ some (codes "DENY")
serve-secured_example =
    serve-secured env frame_options broken (post (codes "text/html")) started refl broken-Keeps

serve-refused_example :
    (code (serve env broken (post (codes "text/html")) started).1.writer ≡ some 415)
    × ((serve env broken (post (codes "text/html")) started).1.log ≡ [])
    × ((serve env broken (post (codes "text/html")) started).1.observations ≡ [])
    × (serve env broken (post (codes "text/html")) started
        ≡ serve env (answering created) (post (codes "text/html")) started)
unfolding started
serve-refused_example =
    serve-refused env broken (answering created) (post (codes "text/html")) started 415 refl
      refuses_forms

serve-replaced_example :
    (code (serve env broken (post (codes "application/json; charset=utf-8")) started).1.writer
      ≡ some 500)
    × ((serve env broken (post (codes "application/json; charset=utf-8")) started).1.writer.body
        ≡ unless_head
            (post (codes "application/json; charset=utf-8"))
            (problem internal_members ∷ []))
    × ((serve env broken (post (codes "application/json; charset=utf-8")) started).0 ≡ finished)
serve-replaced_example =
    serve-replaced env broken (post (codes "application/json; charset=utf-8")) started refl
      accepts_json (inr accepted_panics)

-- The ping fails.
abbrev unreachable : Trace → Call → Option ℕ
unreachable t ping = some 3
unreachable t c = none

closed_again :
    open_and_ping_db unreachable []
    ≡ (some (failed 3), (close, none) ∷ (ping, some 3) ∷ (connect, none) ∷ [])
unfolding open_and_ping_db
closed_again = refl

-- The probes are mounted, and the default router refuses them without a content type.
mounted_first :
    map (λ route. route.0) mount_system_endpoints
    ≡ codes "/livez"
      ∷ codes "/readyz"
      ∷ codes "/healthz"
      ∷ codes "/health"
      ∷ codes "/health/detailed"
      ∷ codes "/docs"
      ∷ codes "/docs/openapi.json"
      ∷ codes "/docs/version"
      ∷ codes "/docs/info"
      ∷ codes "/metrics"
      ∷ []
unfolding mount_system_endpoints Handlers.register_routes Handlers.get Serving.register_routes
mounted_first = refl

abbrev probe : Request
probe = record {
  method = codes "GET";
  path = codes "/livez";
  headers = [];
  remote_addr = codes "10.0.0.2:40000";
  tls = false;
  has_body = false;
  body_limit = none;
  context = [];
}

refuses_probes : refusal env probe started ≡ some 415
unfolding router_open
refuses_probes = refl
