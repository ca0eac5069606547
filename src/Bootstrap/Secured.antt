-- ===== src/Bootstrap/Secured.antt =====
-- The headers of middleware/secure/secure.go on what the default router of bootstrap/http.go sends.
use api_toolkit.Prelude.{
  arith, ℕ, ◌+◌, ◌^◌, ◌≡◌, refl, ap, ◌∙◌, Bool, true, false, not, String, [], ◌∷◌, Option, none,
  some, if◌then◌else◌, codes, lookup, insert, lookup-insert, lookup-nil, ◌==◌, string_eq, list_eq,
}
use api_toolkit.Prelude.Int.{pos}
use api_toolkit.Httpx.{status_or_500}
use api_toolkit.RateLimit
use api_toolkit.RateLimit.{Verdict, served, too_many_requests}
use api_toolkit.Http.{
  Request, World, Exit, finished, panicked, Handler, Headers, header, Writer, text, set_header,
  Chunk, write_header, http_error,
}
use api_toolkit.Metrics.{Observation}
use api_toolkit.Trace.{middleware}
use api_toolkit.Http.Guards.{
  secure, rate_limit, max_body, limited_body, require_json, after_verdict, limiter_request, is_json,
}
use api_toolkit.Http.Recording.{
  request_log, measure, after_logged, after_measured, after_observed, wrap,
}
use api_toolkit.Http.Recovery.{
  recover, recovered, and_document, send_problem, timeout, after_timeout, flush, copy_headers,
  code_or_200, buffer,
}
use api_toolkit.Bootstrap.{
  Env, cors_of, cors_handler, set_headers, trace, inner_router, default_router, serve, empty_writer,
}
use api_toolkit.Bootstrap.SecurityHeaders.{
  SecurityHeader, name, value, sent_header, Keeps, SentWith, IsSecured, IsSecuredAfter, Secures,
  lookup-other, content_type-IsForeign, retry_after-IsForeign, traceparent-IsForeign,
  strict-IsForeign, foreign-IsSecured, write_header-IsSecured, write-IsSecured,
  http_error-IsSecured, send-IsSecured, either-IsSecuredAfter, send-sent, content_type_options,
  frame_options, referrer_policy, content_security_policy,
}

module _ (h : SecurityHeader) where
  require_json-Secures :
      (require : Bool) (next : Handler) → Secures h next → Secures h (require_json require next)
  unfolding require_json
  require_json-Secures require next s r w e =
      let ct = header "Content-Type" r.headers in
      let missing : Exit × World = (finished, http_error "missing content-type" 21 415 w) in
      let wrong : Exit × World =
        (finished, http_error "content-type must be application/json" 38 415 w) in
      let accepted = next r w in
      let checked = if not (is_json ct) then wrong else accepted in
      either-IsSecuredAfter h (not require) accepted (if ct == [] then missing else checked)
        (s r w e)
        (either-IsSecuredAfter h (ct == []) missing checked
          (http_error-IsSecured h "missing content-type" 21 415 w e)
          (either-IsSecuredAfter h (not (is_json ct)) wrong accepted
            (http_error-IsSecured h "content-type must be application/json" 38 415 w e) (s r w e)))

  after_verdict-IsSecuredAfter :
      (next : Handler) (r : Request) (v : Verdict) (w : World)
      → Secures h next
      → IsSecured h w.writer
      → IsSecuredAfter h (after_verdict next r v w)
  unfolding after_verdict
  after_verdict-IsSecuredAfter next r served w s e = s r w e
  after_verdict-IsSecuredAfter next r (too_many_requests none) w s e = e
  after_verdict-IsSecuredAfter next r (too_many_requests (some seconds)) w s e =
      http_error-IsSecured h "rate limit exceeded" 20 429 (set_header "Retry-After" seconds w)
        (foreign-IsSecured h "Retry-After" seconds w retry_after-IsForeign e)

  rate_limit-Secures :
      (clock : ℕ → ℕ) (next : Handler) → Secures h next → Secures h (rate_limit clock next)
  unfolding rate_limit
  rate_limit-Secures clock next s r w e =
      let (limiter, verdict) = RateLimit.handle w.limiter (limiter_request r) (clock w.reads) in
      after_verdict-IsSecuredAfter next r verdict
        (record w { limiter = limiter; reads = w.reads + 1 }) s e

  and_document-IsSecuredAfter :
      (document : Chunk) (n : ℕ) (a : Exit × World)
      → IsSecuredAfter h a
      → IsSecuredAfter h (and_document document n a)
  and_document-IsSecuredAfter document n (panicked, w) e = e
  and_document-IsSecuredAfter document n (finished, w) e = write-IsSecured h document n w e

  recovered-IsSecuredAfter :
      (a : Exit × World) → IsSecuredAfter h a → IsSecuredAfter h (recovered a)
  unfolding recovered send_problem
  recovered-IsSecuredAfter (finished, w) e = e
  recovered-IsSecuredAfter (panicked, w) e = and_document-IsSecuredAfter _ 80 _ (
      write_header-IsSecured h (status_or_500 (pos 500)) _ (
        foreign-IsSecured h "Content-Type" (codes "application/problem+json") w
          content_type-IsForeign e))

  copy_headers-absent :
      (dst hs : Headers)
      → lookup (name h) hs ≡ none
      → lookup (name h) (copy_headers dst hs) ≡ lookup (name h) dst
  unfolding copy_headers lookup
  copy_headers-absent dst [] e = refl
  copy_headers-absent dst ((k, v) ∷ rest) e =
      ground
        (arith, lookup-insert k (name h) v (copy_headers dst rest), copy_headers-absent dst rest)

  flush-IsSecured :
      (inner : Writer) (w : World)
      → lookup (name h) inner.headers ≡ none
      → IsSecured h w.writer
      → IsSecured h (flush inner w).writer
  unfolding flush
  flush-IsSecured inner w absent (now, before) = send-IsSecured h 200 _ (
      write_header-IsSecured h (code_or_200 inner.sent) _
        (copy_headers-absent w.writer.headers inner.headers absent ∙ now, before))

  timeout-Secures :
      (timed_out : Bool) (next : Handler) → Keeps (name h) next → Secures h (timeout timed_out next)
  unfolding timeout after_timeout
  timeout-Secures timed_out next keep r w e =
      at timed_out (next r (record w { writer = buffer })) (keep r (record w { writer = buffer }))
    where
      at :
          (late : Bool) (a : Exit × World)
          → lookup (name h) a.1.writer.headers ≡ lookup (name h) []
          → IsSecuredAfter h (after_timeout late w a)
      at true (exit, w') k =
          write-IsSecured h (text "request timeout") 15
            (write_header 503 (record w' { writer = w.writer })).1
            (write_header-IsSecured h 503 (record w' { writer = w.writer }) e)
      at false (panicked, w') k = e
      at false (finished, w') k =
          flush-IsSecured w'.writer (record w' { writer = w.writer }) (k ∙ lookup-nil (name h)) e

lookup-secured :
    (h : SecurityHeader) (hs : Headers)
    → lookup (name h) (
        insert "Content-Security-Policy" (value content_security_policy) (
          insert "Referrer-Policy" (value referrer_policy) (
            insert "X-Frame-Options"
              (value frame_options)
              (insert "X-Content-Type-Options" (value content_type_options) hs))))
      ≡ some (value h)
lookup-secured content_type_options hs = simp lookup-insert
lookup-secured frame_options hs = simp lookup-insert
lookup-secured referrer_policy hs = simp lookup-insert
lookup-secured content_security_policy hs = simp lookup-insert

module _ (env : Env) where
  after_observed-headers :
      (o : Option Observation) (w : World)
      → (after_observed env.clock o w).1.writer.headers ≡ w.writer.headers
  unfolding after_observed
  after_observed-headers none w = refl
  after_observed-headers (some o) w = refl

  after_measured-headers :
      (r : Request) (start : ℕ) (a : Exit × World)
      → (after_measured env.clock r start a).1.writer.headers ≡ a.1.writer.headers
  unfolding after_measured
  after_measured-headers r start (panicked, w) = refl
  after_measured-headers r start (finished, w) = after_observed-headers _ _

  after_logged-headers :
      (r : Request) (start : ℕ) (a : Exit × World)
      → (after_logged env.clock env.split_host_port r start a).1.writer.headers ≡ a.1.writer.headers
  unfolding after_logged
  after_logged-headers r start (panicked, w) = refl
  after_logged-headers r start (finished, w) = refl

  request_log-Keeps :
      (k : String) (next : Handler)
      → Keeps k next
      → Keeps k (request_log env.clock env.split_host_port next)
  unfolding request_log
  request_log-Keeps k next keep r w =
      let w' = wrap (record w { reads = w.reads + 1 }) in
      ap (lookup k) (after_logged-headers r (env.clock w.reads) (next r w')) ∙ keep r w'

  measure-Keeps : (k : String) (next : Handler) → Keeps k next → Keeps k (measure env.clock next)
  unfolding measure
  measure-Keeps k next keep r w =
      let w' = wrap (record w { reads = w.reads + 1 }) in
      ap (lookup k) (after_measured-headers r (env.clock w.reads) (next r w')) ∙ keep r w'

  trace-Keeps :
      (h : SecurityHeader) (next : Handler) → Keeps (name h) next → Keeps (name h) (trace env next)
  unfolding trace middleware
  trace-Keeps h next keep r w =
      keep _ _ ∙ lookup-other "traceparent" (name h) _ w.writer.headers (traceparent-IsForeign h)

  -- Behind the timeout, only the application may touch a security header.
  inner_router-Keeps :
      (h : SecurityHeader) (app : Handler)
      → Keeps (name h) app
      → Keeps (name h) (inner_router env app)
  unfolding inner_router
  inner_router-Keeps h app keep =
      request_log-Keeps (name h) (measure env.clock (trace env app))
        (measure-Keeps (name h) (trace env app) (trace-Keeps h app keep))

  protected :
      (h : SecurityHeader) (app : Handler)
      → Keeps (name h) app
      → Secures h (
          rate_limit env.clock (
            max_body
              (pos (2 ^ 20))
              (require_json true (timeout env.timed_out (inner_router env app)))))
  unfolding max_body
  protected h app keep = rate_limit-Secures h env.clock _ (λ r.
      require_json-Secures h true _
        (timeout-Secures h env.timed_out (inner_router env app) (inner_router-Keeps h app keep))
        (limited_body (pos (2 ^ 20)) r))

  set_headers-sent : (hs : Headers) (w : World) → (set_headers hs w).writer.sent ≡ w.writer.sent
  unfolding set_headers set_header
  set_headers-sent [] w = refl
  set_headers-sent ((k, v) ∷ rest) w = set_headers-sent rest (set_header k v w)

  secure-IsSecuredAfter :
      (h : SecurityHeader) (next : Handler) (r : Request) (w : World)
      → Secures h next
      → w.writer.sent ≡ none
      → IsSecuredAfter h (secure next r w)
  unfolding secure set_header
  secure-IsSecuredAfter h next r w s e = by_bool r.tls
    where
      headers : Headers
      headers = insert "Content-Security-Policy" (value content_security_policy) (
          insert "Referrer-Policy" (value referrer_policy) (
            insert "X-Frame-Options" (value frame_options)
              (insert "X-Content-Type-Options" (value content_type_options) w.writer.headers)))

      before : SentWith h w.writer.sent
      before = rw e tt

      safe : World
      safe = record w { writer = record (w.writer) { headers = headers } }

      strict : World
      strict =
          set_header "Strict-Transport-Security" (codes "max-age=31536000; includeSubDomains") safe

      by_bool : (tls : Bool) → IsSecuredAfter h (next r (if tls then strict else safe))
      by_bool true = s r strict (
          foreign-IsSecured h _ _ safe strict-IsForeign (lookup-secured h w.writer.headers, before))
      by_bool false = s r safe (lookup-secured h w.writer.headers, before)

  cors_handler-IsSecuredAfter :
      (h : SecurityHeader) (next : Handler) (r : Request) (w : World)
      → (cors_of env r).1 ≡ false
      → w.writer.sent ≡ none
      → Secures h next
      → IsSecuredAfter h (cors_handler env (secure next) r w)
  unfolding cors_handler
  cors_handler-IsSecuredAfter h next r w off e s = rw off (
      secure-IsSecuredAfter h next r (set_headers (cors_of env r).0 w) s
        (set_headers-sent (cors_of env r).0 w ∙ e))

  -- Whichever of the middleware answers, or the application itself, and also after a panic or the
  -- timeout: a response of the default router, other than one to a CORS preflight, is sent with each of
  -- the four headers of the package secure, if the application leaves that header alone.
  pub serve-secured :
      (h : SecurityHeader) (app : Handler) (r : Request) (w : World)
      → (cors_of env (env.identify r)).1 ≡ false
      → Keeps (name h) app
      → sent_header (name h) (serve env app r w).1.writer.sent ≡ some (value h)
  unfolding serve default_router recover
  serve-secured h app r w off keep =
      let r' = env.identify r in
      let w' = record w { writer = empty_writer } in
      let next = rate_limit env.clock (
        max_body (pos (2 ^ 20))
          (require_json true (timeout env.timed_out (inner_router env app)))) in
      send-sent h (default_router env app r w').1.writer (
        recovered-IsSecuredAfter h (cors_handler env (secure next) r' w')
          (cors_handler-IsSecuredAfter h next r' w' off refl (protected h app keep)))
