-- ===== src/Bootstrap/System.antt =====
-- The system endpoints of MountSystemEndpoints behind the default router of bootstrap/http.go: the calls
-- that health/handlers.go and docs/docs.go make on their writer with WriteJSON of
-- response_writer/response_writer.go. The encoding to JSON is an argument, `none` where it fails.
use api_toolkit.Prelude.{
  ℕ, ◌≡◌, refl, ap, ◌∙◌, Bool, true, false, String, List, [], ◌∷◌, ◌++◌, Option, none, some,
  if◌then◌else◌, any, codes, arith,
}
use api_toolkit.Health.Status.{is_unhealthy}
use api_toolkit.Health.Manager.{Manager}
use api_toolkit.Health.Aggregate.{all_statuses}
use api_toolkit.Health.Handlers
use api_toolkit.Health.Handlers.{
  Endpoint, Response, liveness, readiness, health, detailed_health, liveness_handler,
  readiness_handler, health_handler, detailed_health_handler, probes-code,
}
use api_toolkit.Http.{LogLine, Request, World, text}
use api_toolkit.Bootstrap.{Env, cors_of, serve}
use api_toolkit.Bootstrap.Refused.{code, refusal}
use api_toolkit.Bootstrap.Actions.{Action, put, status, chunk, AllPlain, first_code, last_code}
use api_toolkit.Bootstrap.Recorded.{answering, serve-Recorded}

-- `WriteJSON`: the error of the encoder is dropped.
abbrev encoded : Option (String × ℕ) → List Action
encoded none = []
encoded (some (json, size)) = chunk (text json) size ∷ []

unfoldable pub write_json : ℕ → Option (String × ℕ) → List Action
write_json c json = put "Content-Type" (codes "application/json") ∷ status c ∷ encoded json

-- The endpoints but the detailed report.
abbrev pub IsProbe : Endpoint → Type 0
IsProbe detailed_health = ⊥
IsProbe _ = Unit

-- The checks that a probe goes by.
abbrev pub checks_of : Endpoint → Manager → List String → List String
checks_of liveness m names = m.config.liveness_checks
checks_of readiness m names = m.config.readiness_checks
checks_of health m names = m.config.readiness_checks
checks_of detailed_health m names = names

abbrev pub probe_code : (clock : ℕ → ℕ) → Endpoint → Manager → ℕ → ℕ
probe_code clock e m n =
    if any is_unhealthy (all_statuses clock m (checks_of e m []) n) then 503 else 200

-- The client's code, and the one new line of the log, which has the same code.
abbrev pub AnswersWith : ℕ → World → World → Type 0
AnswersWith c w w' =
    (code w'.writer ≡ some c)
    × ((line : LogLine) × (w'.log ≡ w.log ++ line ∷ []) × (line.status ≡ c))

module _ (encode : Handlers.Body → Option (String × ℕ)) (clock : ℕ → ℕ) where
  abbrev pub answer : Response → List Action
  answer r = write_json r.status_code (encode r.body)

  -- The calls of the handler of an endpoint, from a manager and a number of readings of the clock.
  unfoldable pub health_actions : Endpoint → Manager → List String → ℕ → List Action
  health_actions liveness m names n = answer (liveness_handler clock m n).0
  health_actions readiness m names n = answer (readiness_handler clock m n).0
  health_actions health m names n = answer (health_handler clock m n).0
  health_actions detailed_health m names n = answer (detailed_health_handler clock m names n).0

  json-codes :
      (c c' : ℕ) (json : Option (String × ℕ))
      → c ≡ c'
      → (first_code (write_json c json) ≡ c') × (last_code 200 (write_json c json) ≡ c')
  unfolding write_json
  json-codes c c' none e = (e, e)
  json-codes c c' (some (s, n)) e = (e, e)

  json-AllPlain :
      (b : Bool) (c : ℕ) (json : Option (String × ℕ))
      → c ≡ (if b then 503 else 200)
      → AllPlain (write_json c json)
  unfolding write_json
  json-AllPlain true c none e = rw e (refl, (refl, refl, tt))
  json-AllPlain true c (some (s, n)) e = rw e (refl, (refl, refl, tt))
  json-AllPlain false c none e = rw e (refl, (refl, refl, tt))
  json-AllPlain false c (some (s, n)) e = rw e (refl, (refl, refl, tt))

  json-AnswersWith :
      (env : Env) (r : Request) (w : World) (unhealthy : Bool) (response : Response)
      → (cors_of env (env.identify r)).1 ≡ false
      → refusal env (env.identify r) w ≡ none
      → env.timed_out ≡ false
      → response.status_code ≡ (if unhealthy then 503 else 200)
      → AnswersWith
          (if unhealthy then 503 else 200)
          w
          (serve env (answering (answer response)) r w).1
  json-AnswersWith env r w unhealthy response off pass late e =
      let acts = answer response in
      let (first, last) = json-codes response.status_code _ (encode response.body) e in
      let (sent, body, (line, logged, told, bytes), observed) =
        serve-Recorded env acts r w off pass late
          (json-AllPlain unhealthy response.status_code (encode response.body) e) in
      (sent ∙ ap some first, (line, logged, told ∙ last))

  -- A probe behind the default router: a request that is passed on, in time, is answered with 503 where
  -- some check that the probe goes by, all performed one after the other, is unhealthy, and with 200
  -- otherwise, whether or not the report can be encoded; the log gets exactly one line, with that code.
  pub probe-AnswersWith :
      (env : Env) (e : Endpoint) (m : Manager) (n : ℕ) (r : Request) (w : World)
      → IsProbe e
      → (cors_of env (env.identify r)).1 ≡ false
      → refusal env (env.identify r) w ≡ none
      → env.timed_out ≡ false
      → AnswersWith
          (probe_code clock e m n)
          w
          (serve env (answering (health_actions e m [] n)) r w).1
  unfolding health_actions
  probe-AnswersWith env liveness m n r w probe off pass late =
      json-AnswersWith env r w _ (liveness_handler clock m n).0 off pass late
        (probes-code clock m n).0
  probe-AnswersWith env readiness m n r w probe off pass late =
      json-AnswersWith env r w _ (readiness_handler clock m n).0 off pass late
        (probes-code clock m n).1
  probe-AnswersWith env health m n r w probe off pass late =
      json-AnswersWith env r w _ (health_handler clock m n).0 off pass late
        (probes-code clock m n).2
  probe-AnswersWith env detailed_health m n r w probe off pass late = ground arith
