-- ===== src/Health/Handlers.antt =====
-- health/handlers.go, with the routes of specs/endpoints.go. A response is its code and its body, a
-- router the list of patterns and handlers it was given.
use api_toolkit.Prelude.{
  ℕ, ◌≡◌, refl, String, List, [], ◌∷◌, ◌++◌, if◌then◌else◌, ◌==◌, string_eq, arith, Option, none,
  some, any,
}
use api_toolkit.Specs
use api_toolkit.Health.Status.{
  HealthStatus, HealthResult, HealthResponse, DetailedHealthResponse, is_unhealthy,
}
use api_toolkit.Health.Manager.{Manager, perform_checks, get_liveness, get_readiness, get_health}
use api_toolkit.Health.Detailed.{get_detailed_health}
use api_toolkit.Health.Aggregate.{all_statuses, perform_checks-eq}

-- The body given to `WriteJSON`.
pub data Body : Type 0 where
  brief : HealthResponse → Body
  detailed : DetailedHealthResponse → Body

pub record Response : Type 0 where
  pub status_code : ℕ
  pub body : Body

unfoldable pub code_of : HealthStatus → ℕ
code_of s = if is_unhealthy s then 503 else 200

-- The map of `status`, `timestamp` and `message`, and the code, of a probe.
unfoldable pub probe : HealthResult × Manager × ℕ → Response × Manager × ℕ
unfolding code_of
probe (r, m, w) = (
  record {
    status_code = code_of r.status;
    body = brief (record { status = r.status; timestamp = r.timestamp; message = r.message });
  },
  m,
  w,
)

module _ (clock : ℕ → ℕ) where
  unfoldable pub liveness_handler : Manager → ℕ → Response × Manager × ℕ
  unfolding probe
  liveness_handler m w = probe (get_liveness clock m w)

  unfoldable pub readiness_handler : Manager → ℕ → Response × Manager × ℕ
  unfolding probe
  readiness_handler m w = probe (get_readiness clock m w)

  unfoldable pub health_handler : Manager → ℕ → Response × Manager × ℕ
  unfolding code_of
  health_handler m w =
      let (r, m', w') = get_health clock m w in
      (record { status_code = code_of r.status; body = brief r }, m', w')

  -- `names` as for `get_detailed_health`.
  unfoldable pub detailed_health_handler : Manager → List String → ℕ → Response × Manager × ℕ
  unfolding code_of
  detailed_health_handler m names w =
      let (r, m', w') = get_detailed_health clock m names w in
      (record { status_code = code_of r.status; body = detailed r }, m', w')

  -- The values that the middleware puts into the context of the request: `health_status` and
  -- `health_timestamp`, or nothing before it ran.
  unfoldable pub middleware : Manager → ℕ → Option (HealthStatus × ℕ) × Manager × ℕ
  middleware m w = let (r, m', w') = get_health clock m w in (some (r.status, r.timestamp), m', w')

abbrev pub health_status_from_context : Option (HealthStatus × ℕ) → Option HealthStatus
health_status_from_context none = none
health_status_from_context (some (s, t)) = some s

abbrev pub health_timestamp_from_context : Option (HealthStatus × ℕ) → Option ℕ
health_timestamp_from_context none = none
health_timestamp_from_context (some (s, t)) = some t

-- The handlers by name, as a router gets them.
pub data Endpoint : Type 0 where
  liveness readiness health detailed_health : Endpoint

abbrev pub Router : Type 0
Router = List (String × Endpoint)

unfoldable pub get : Router → String → Endpoint → Router
get router pattern endpoint = router ++ (pattern, endpoint) ∷ []

unfoldable pub register_routes : Router → Router
unfolding get
register_routes router =
    let r1 = get router Specs.livez liveness in
    let r2 = get r1 Specs.readyz readiness in
    let r3 = get r2 Specs.healthz health in
    let r4 = get r3 Specs.health health in get r4 Specs.health_detailed detailed_health

pub record HealthPaths : Type 0 where
  pub liveness : String
  pub readiness : String
  pub health : String
  pub detailed_health : String

unfoldable pub get_unless_empty : Router → String → Endpoint → Router
unfolding get
get_unless_empty router path endpoint = if path == "" then router else get router path endpoint

unfoldable pub register_custom_routes : Router → HealthPaths → Router
unfolding get_unless_empty
register_custom_routes router paths =
    let r1 = get_unless_empty router paths.liveness liveness in
    let r2 = get_unless_empty r1 paths.readiness readiness in
    let r3 = get_unless_empty r2 paths.health health in
    get_unless_empty r3 paths.detailed_health detailed_health

unfoldable pub default_health_paths : HealthPaths
default_health_paths = record {
  liveness = "/live";
  readiness = "/ready";
  health = "/health";
  detailed_health = "/health/detailed";
}

code_of-perform_checks :
    (clock : ℕ → ℕ) (m : Manager) (names : List String) (w : ℕ)
    → code_of (perform_checks clock m names w).0.status
      ≡ (if any is_unhealthy (all_statuses clock m names w) then 503 else 200)
unfolding code_of
code_of-perform_checks clock m [] w = unfold perform_checks in refl
code_of-perform_checks clock m (name ∷ names) w =
    rw (perform_checks-eq clock m name names w) (ground arith)

-- The three probes answer 503 where some check of their list, all performed one after the other,
-- is unhealthy, and 200 otherwise; liveness goes by the liveness checks, readiness and health by the
-- readiness checks.
pub probes-code :
    (clock : ℕ → ℕ) (m : Manager) (w : ℕ)
    → ((liveness_handler clock m w).0.status_code
        ≡ (if any is_unhealthy (all_statuses clock m m.config.liveness_checks w) then 503 else 200))
      × ((readiness_handler clock m w).0.status_code ≡ (
          if any is_unhealthy (all_statuses clock m m.config.readiness_checks w) then 503 else 200))
      × ((health_handler clock m w).0.status_code ≡ (
          if any is_unhealthy (all_statuses clock m m.config.readiness_checks w) then 503 else 200))
unfolding liveness_handler readiness_handler health_handler get_liveness get_readiness get_health
    probe
probes-code clock m w = (
  code_of-perform_checks clock m m.config.liveness_checks w,
  code_of-perform_checks clock m m.config.readiness_checks w,
  code_of-perform_checks clock m m.config.readiness_checks w,
)
