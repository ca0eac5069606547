-- ===== src/Health/Manager.antt =====
-- health/health.go: the manager, its checkers and its cache of results.
use api_toolkit.Prelude.{
  ℕ, ◌+◌, ◌-◌, ◌*◌, Bool, true, String, List, [], ◌∷◌, ◌++◌, Option, none, some, if◌then◌else◌, ltb,
  concat, lookup, insert, nat_eq, string_eq,
}
use api_toolkit.Health.Status.{
  HealthStatus, absent, HealthResult, HealthChecker, HealthCheckConfig, HealthResponse,
  is_unhealthy, tally, start, show_list,
}

-- The two mutexes guard single accesses of the maps, which are single steps here.
pub record Manager : Type 0 where
  pub config : HealthCheckConfig
  pub checkers : List (String × HealthChecker)
  pub cache : List (String × HealthResult)

unfoldable pub new_with_config : HealthCheckConfig → Manager
new_with_config config = record { config = config; checkers = []; cache = [] }

abbrev pub second : ℕ
second = 1_000_000_000

unfoldable pub new : Manager
unfolding new_with_config
new = new_with_config (record {
  timeout = 5 * second;
  cache_duration = 5 * second;
  enable_caching = true;
  enable_detailed = true;
  liveness_checks = "basic" ∷ [];
  readiness_checks = "database" ∷ "basic" ∷ [];
})

unfoldable pub register_checker : Manager → HealthChecker → Manager
register_checker m checker = record m { checkers = insert checker.name checker m.checkers }

unfoldable pub register_checkers : Manager → List HealthChecker → Manager
register_checkers m [] = m
register_checkers m (c ∷ cs) = register_checkers (register_checker m c) cs

-- The write of a result into the cache.
unfoldable pub store : Manager → String → HealthResult → Manager
store m name r = if m.config.enable_caching then record m { cache = insert name r m.cache } else m

-- The entry of the cache, as far as caching is on.
unfoldable pub cached : Manager → String → Option HealthResult
cached m name = if m.config.enable_caching then lookup name m.cache else none

-- How the loop over the names ends.
pub data Loop : Type 0 where
  stopped : HealthResult → Loop
  finished : List HealthResult → Loop

-- The message of `performChecks`.
unfoldable pub issues : List String → String
issues [] = ""
issues (m ∷ ms) = concat ("Issues: " ∷ show_list (m ∷ ms) ∷ [])

module _ (clock : ℕ → ℕ) where
  -- The result for a name without a checker.
  unfoldable pub not_found : String → ℕ → HealthResult
  not_found name w = record {
    status = HealthStatus.unknown;
    message = concat ("Checker '" ∷ name ∷ "' not found" ∷ []);
    details = absent;
    timestamp = clock w;
    duration = 0;
  }

  -- The time before the check, the check, and the two readings after it.
  unfoldable pub stamped : ℕ → HealthResult × ℕ → HealthResult × ℕ
  stamped w (r, w') =
      (record r { duration = clock w' - clock w; timestamp = clock (w' + 1) }, w' + 2)

  -- What follows the look into the cache.
  unfoldable pub run_check :
      Manager → String → Option HealthChecker → ℕ → HealthResult × Manager × ℕ
  unfolding not_found stamped store
  run_check m name none w = (not_found name w, m, w + 1)
  run_check m name (some c) w = let (r, w') = stamped w (c.check (w + 1)) in (r, store m name r, w')

  -- `time.Since(cached.Timestamp) < m.config.CacheDuration`.
  unfoldable pub is_fresh : Manager → HealthResult → ℕ → Bool
  is_fresh m r w = ltb (clock w) (r.timestamp + m.config.cache_duration)

  unfoldable pub from_cache :
      Manager → String → Option HealthResult → ℕ → HealthResult × Manager × ℕ
  unfolding is_fresh
  from_cache m name none w = run_check m name (lookup name m.checkers) w
  from_cache m name (some r) w =
      if is_fresh m r w then (r, m, w + 1) else run_check m name (lookup name m.checkers) (w + 1)

  unfoldable pub perform_check : Manager → String → ℕ → HealthResult × Manager × ℕ
  unfolding cached from_cache
  perform_check m name w = from_cache m name (cached m name) w

  unfoldable pub check_all : Manager → List String → ℕ → List HealthResult → Loop × Manager × ℕ
  check_all m [] w rs = (finished rs, m, w)
  check_all m (name ∷ names) w rs =
      let (r, m', w') = perform_check m name w in
      let rest = check_all m' names w' (rs ++ r ∷ []) in
      if is_unhealthy r.status then (stopped r, m', w') else rest

  unfoldable pub conclude : Loop × Manager × ℕ → HealthResult × Manager × ℕ
  unfolding issues
  conclude (stopped r, m, w) = (r, m, w)
  conclude (finished rs, m, w) = (
    record {
      status = (tally start rs).overall;
      message = issues (tally start rs).messages;
      details = absent;
      timestamp = clock w;
      duration = 0;
    },
    m,
    w + 1,
  )

  unfoldable pub no_checks : ℕ → HealthResult
  no_checks w = record {
    status = HealthStatus.healthy;
    message = "No checks configured";
    details = absent;
    timestamp = clock w;
    duration = 0;
  }

  unfoldable pub perform_checks : Manager → List String → ℕ → HealthResult × Manager × ℕ
  unfolding conclude no_checks
  perform_checks m [] w = (no_checks w, m, w + 1)
  perform_checks m (name ∷ names) w = conclude (check_all m (name ∷ names) w [])

  unfoldable pub get_liveness : Manager → ℕ → HealthResult × Manager × ℕ
  get_liveness m w = perform_checks m m.config.liveness_checks w

  unfoldable pub get_readiness : Manager → ℕ → HealthResult × Manager × ℕ
  get_readiness m w = perform_checks m m.config.readiness_checks w

  unfoldable pub get_health : Manager → ℕ → HealthResponse × Manager × ℕ
  get_health m w =
      let (r, m', w') = get_readiness m w in
      (record { status = r.status; timestamp = r.timestamp; message = r.message }, m', w')
