-- ===== src/Bootstrap.antt =====
-- bootstrap/http.go: the default middleware around an application, in the order of the calls of `Use`.
pub mod SecurityHeaders
pub mod Secured
pub mod Refused
pub mod Admitted
pub mod Actions
pub mod Recorded
pub mod System
pub mod Server
pub mod Opening
pub mod Migrations
mod Tests
mod Scenarios
use api_toolkit.Prelude.{
  ℕ, ◌+◌, ◌*◌, ◌≡◌, refl, Bool, true, false, String, List, [], ◌∷◌, ◌++◌, Option, none, some,
  if◌then◌else◌, Text, ◌^◌, codes, ◌==◌, list_eq,
}
use api_toolkit.Prelude.Int.{pos}
use api_toolkit.RateLimit
use api_toolkit.Prelude.Float.{whole}
use api_toolkit.Trace
use api_toolkit.Http.{
  Request, World, Exit, finished, panicked, Handler, Headers, header, Writer, set_header,
  write_header, send,
}
use api_toolkit.Http.Cors.{PackageOptions, default_options, handler}
use api_toolkit.Http.Guards.{secure, rate_limit, max_body, require_json}
use api_toolkit.Http.Recording.{request_log, measure}
use api_toolkit.Http.Recovery.{recover, timeout}

-- What one request meets: the clock, the random bytes of its ids, whether the five seconds pass, and
-- the packages behind: `identify` for the middleware RequestID and RealIP of chi, and `cors` for that
-- of go-chi/cors, which sets headers and answers a preflight request itself with 200.
pub record Env : Type 0 where
  pub clock : ℕ → ℕ
  pub random : Text
  pub random' : Text
  pub timed_out : Bool
  pub split_host_port : Text → Option Text
  pub identify : Request → Request
  pub cors : PackageOptions → Request → Headers × Bool

-- `corsh.Handler(cors.DefaultOptions())`.
abbrev pub cors_of : Env → Request → Headers × Bool
cors_of env = handler env.cors default_options

unfoldable pub set_headers : Headers → World → World
set_headers [] w = w
set_headers ((k, v) ∷ rest) w = set_headers rest (set_header k v w)

unfoldable pub cors_handler : Env → Handler → Handler
unfolding set_headers
cors_handler env next r w =
    let (headers, preflight) = cors_of env r in
    let w' = set_headers headers w in if preflight then write_header 200 w' else next r w'

abbrev pub trace_options : Trace.Options
trace_options = record { trust_incoming = false; sampled_flag = 0 }

unfoldable pub trace : Env → Handler → Handler
trace env next r w =
    Trace.middleware trace_options env.random env.random'
      (λ headers r'.
        next (record r { context = r'.context })
          (record w { writer = record (w.writer) { headers = headers } }))
      w.writer.headers
      (record { traceparent = header "traceparent" r.headers; context = r.context })

-- The limiter of a new router: `Options{Capacity: 30, RefillRate: 15}`.
unfoldable pub default_limiter : (split_host_port : Text → Option Text) → RateLimit.Middleware
default_limiter split_host_port =
    RateLimit.new split_host_port
      (record { capacity = whole 30; refill_rate = whole 15; key = none; retry_after = pos 0 })

-- Behind the timeout, on its buffer.
unfoldable pub inner_router : Env → Handler → Handler
inner_router env app = request_log env.clock env.split_host_port (measure env.clock (trace env app))

unfoldable pub default_router : Env → Handler → Handler
default_router env app r w =
    recover
      (cors_handler env (
        secure (
          rate_limit env.clock (
            max_body (pos (2 ^ 20))
              (require_json true (timeout env.timed_out (inner_router env app)))))))
      (env.identify r) w

-- The writer of a new request.
abbrev pub empty_writer : Writer
empty_writer = record {
  headers = [];
  sent = none;
  body = [];
  size = 0;
  buffered = false;
  recorders = [];
}

abbrev pub is_head : Request → Bool
is_head r = r.method == codes "HEAD"

-- What the server does after the handler: the code 200 where nothing has been sent, and no body to a
-- request with the method HEAD.
unfoldable pub serve : Env → Handler → Request → World → Exit × World
serve env app r w =
    let (exit, w') = default_router env app r (record w { writer = empty_writer }) in
    let sent = send 200 w'.writer in
    (
      exit,
      record w' {
        writer = record sent {
          body = if is_head r then [] else sent.body;
          size = if is_head r then 0 else sent.size;
        };
      },
    )
