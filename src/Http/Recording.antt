-- ===== src/Http/Recording.antt =====
-- The middleware that reports requests: middleware/requestlog/requestlog.go, and the handler of
-- middleware/metrics/metrics.go around the writer that it wraps.
use api_toolkit.Prelude.{ℕ, ◌+◌, ◌-◌, ◌/◌, List, [], ◌∷◌, ◌++◌, Option, none, some, Text}
use api_toolkit.Prelude.Int.{pos}
use api_toolkit.RateLimit.{client_ip}
use api_toolkit.Metrics
use api_toolkit.Metrics.{Observation}
use api_toolkit.Http.{Request, World, Exit, finished, panicked, Handler, header, Recorder, LogLine}
use api_toolkit.Http.Guards.{limiter_request}

abbrev pub fresh : Recorder
fresh = record { status = 200; bytes = 0 }

-- `&respWriter{ResponseWriter: w, status: 200}`, and the return from the handler that got it.
abbrev pub wrap : World → World
wrap w = record w { writer = record (w.writer) { recorders = fresh ∷ w.writer.recorders } }

abbrev pub innermost : List Recorder → Recorder
innermost [] = fresh
innermost (r ∷ rs) = r

abbrev pub others : List Recorder → List Recorder
others [] = []
others (r ∷ rs) = rs

abbrev pub unwrap : World → World
unwrap w = record w { writer = record (w.writer) { recorders = others w.writer.recorders } }

-- `clientIP` and `requestID` of the package; the first is that of the limiter, word for word.
unfoldable pub ip_of : (split_host_port : Text → Option Text) → Request → Text
ip_of split_host_port r = client_ip split_host_port (limiter_request r)

unfoldable pub request_id : Request → Text
request_id r = header "X-Request-ID" r.headers

unfoldable pub log_line : (split_host_port : Text → Option Text) → Request → Recorder → ℕ → LogLine
log_line split_host_port r rec dur_ms = record {
  method = r.method;
  path = r.path;
  status = rec.status;
  bytes = rec.bytes;
  dur_ms = dur_ms;
  ip = ip_of split_host_port r;
  user_agent = header "User-Agent" r.headers;
  request_id = request_id r;
}

module _ (clock : ℕ → ℕ) where
  -- A panic passes by the log.
  unfoldable pub after_logged :
      (split_host_port : Text → Option Text) → Request → ℕ → Exit × World → Exit × World
  unfolding log_line
  after_logged split_host_port r start (panicked, w) = (panicked, unwrap w)
  after_logged split_host_port r start (finished, w) =
      let line =
        log_line split_host_port r (innermost w.writer.recorders)
          ((clock w.reads - start) / 1_000_000) in
      (finished, record (unwrap w) { reads = w.reads + 1; log = w.log ++ line ∷ [] })

  unfoldable pub request_log : (split_host_port : Text → Option Text) → Handler → Handler
  unfolding after_logged
  request_log split_host_port next r w =
      after_logged split_host_port r (clock w.reads)
        (next r (wrap (record w { reads = w.reads + 1 })))

  unfoldable pub after_observed : Option Observation → World → Exit × World
  after_observed none w = (panicked, w)
  after_observed (some o) w = (finished, record w { observations = w.observations ++ o ∷ [] })

  -- `Metrics.handler` with the code that the writer keeps.
  unfoldable pub after_measured : Request → ℕ → Exit × World → Exit × World
  unfolding after_observed
  after_measured r start (panicked, w) = (panicked, unwrap w)
  after_measured r start (finished, w) =
      let status = (innermost w.writer.recorders).status in
      after_observed (Metrics.handler r.method r.path (pos status ∷ []) start (clock w.reads))
        (record (unwrap w) { reads = w.reads + 1 })

  unfoldable pub measure : Handler → Handler
  unfolding after_measured
  measure next r w =
      after_measured r (clock w.reads) (next r (wrap (record w { reads = w.reads + 1 })))
