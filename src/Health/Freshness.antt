-- ===== src/Health/Freshness.antt =====
-- The cache of results of health/health.go.
use api_toolkit.Prelude.{
  ℕ, ◌+◌, ◌≤◌, ◌<◌, ◌≡◌, refl, true, String, some, ltb, lookup, lookup-insert, string_eq, arith,
  Option-cases, Bool-cases, inl, inr,
}
use api_toolkit.Health.Status.{HealthResult, HealthChecker}
use api_toolkit.Health.Manager.{
  Manager, perform_check, from_cache, run_check, is_fresh, cached, store, stamped, not_found,
}

module _ (clock : ℕ → ℕ) where
  -- Time since a reading of the clock is below the duration of the cache.
  abbrev pub Fresh : Manager → HealthResult → ℕ → Type 0
  Fresh m r w = clock w < r.timestamp + m.config.cache_duration

  run_check-cached :
      (m : Manager) (name : String) (c : HealthChecker) (w : ℕ)
      → m.config.enable_caching ≡ true
      → (cached (run_check clock m name (some c) w).1 name
          ≡ some (run_check clock m name (some c) w).0)
        × ((run_check clock m name (some c) w).1.config ≡ m.config)
  unfolding run_check store stamped cached
  run_check-cached m name c w on = ground (
    arith,
    lookup-insert name name (run_check clock m name (some c) w).0 m.cache,
    string_eq.beq_iff name name,
  )

  -- While the cached result is fresh, the checker does not run, and nothing changes but the clock.
  perform_check-Fresh :
      (m : Manager) (name : String) (r : HealthResult) (w : ℕ)
      → cached m name ≡ some r
      → Fresh m r w
      → perform_check clock m name w ≡ (r, m, w + 1)
  unfolding perform_check from_cache is_fresh
  perform_check-Fresh m name r w e h = rw e (ground arith)

  perform_check-cached :
      (m : Manager) (name : String) (c : HealthChecker) (w : ℕ)
      → m.config.enable_caching ≡ true
      → lookup name m.checkers ≡ some c
      → (cached (perform_check clock m name w).1 name ≡ some (perform_check clock m name w).0)
        × ((perform_check clock m name w).1.config ≡ m.config)
  unfolding perform_check from_cache is_fresh
  perform_check-cached m name c w on registered = elim (Option-cases (cached m name)) [
    | inl miss ↦ rw miss (rw registered (run_check-cached m name c w on))
    | inr (r, hit) ↦ elim (Bool-cases (ltb (clock w) (r.timestamp + m.config.cache_duration))) [
      | inl fresh ↦ rw hit (rw fresh (hit, refl))
      | inr stale ↦ rw hit (rw stale (rw registered (run_check-cached m name c (w + 1) on)))
    ]
  ]

-- With caching on and a checker registered under the name, whatever a check of the name returns is
-- returned again by every check made less than the cache's duration after the result's time, with
-- the manager unchanged and the checker not run.
pub perform_check-reused :
    (clock : ℕ → ℕ) (m : Manager) (name : String) (c : HealthChecker) (w v : ℕ)
    → m.config.enable_caching ≡ true
    → lookup name m.checkers ≡ some c
    → Fresh clock m (perform_check clock m name w).0 v
    → perform_check clock (perform_check clock m name w).1 name v
      ≡ ((perform_check clock m name w).0, (perform_check clock m name w).1, v + 1)
perform_check-reused clock m name c w v on registered fresh =
    let (e, same) = perform_check-cached clock m name c w on registered in
    perform_check-Fresh clock (perform_check clock m name w).1 name (perform_check clock m name w).0
      v e (rw same fresh)

-- The clock does not run backwards, and no checker gives back readings of it.
abbrev pub IsMonotone : (ℕ → ℕ) → Type 0
IsMonotone clock = (v w : ℕ) → v ≤ w → clock v ≤ clock w

abbrev pub Advances : Manager → Type 0
Advances m =
    (name : String) (c : HealthChecker) (w : ℕ)
    → lookup name m.checkers ≡ some c
    → w ≤ (c.check w).1

module _ (clock : ℕ → ℕ) (monotone : IsMonotone clock) where
  run_check-recent :
      (m : Manager) (name : String) (v w : ℕ)
      → Advances m
      → v ≤ w
      → clock v ≤ (run_check clock m name (lookup name m.checkers) w).0.timestamp
  unfolding run_check stamped not_found
  run_check-recent m name v w advances h = elim (Option-cases (lookup name m.checkers)) [
    | inl e ↦ rw e (monotone v w h)
    | inr (c, e) ↦
        rw e (monotone v ((c.check (w + 1)).1 + 1) (omega (arith, advances name c (w + 1) e)))
  ]

-- On a clock that does not run backwards, with a positive cache duration and checkers that do not
-- give back readings of the clock, no result is older than the cache's duration when the check of a
-- name begins.
pub perform_check-recent :
    (clock : ℕ → ℕ) (m : Manager) (name : String) (w : ℕ)
    → IsMonotone clock
    → Advances m
    → 0 < m.config.cache_duration
    → Fresh clock m (perform_check clock m name w).0 w
unfolding perform_check from_cache is_fresh
perform_check-recent clock m name w monotone advances positive =
    elim (Option-cases (cached m name)) [
      | inl miss ↦
          rw miss (omega (arith, run_check-recent clock monotone m name w w advances (omega arith)))
      | inr (r, hit) ↦ elim (Bool-cases (ltb (clock w) (r.timestamp + m.config.cache_duration))) [
        | inl fresh ↦ rw hit (rw fresh (ground arith))
        | inr stale ↦ rw hit (
            rw stale (
              omega
                (arith, run_check-recent clock monotone m name w (w + 1) advances (omega arith))))
      ]
    ]
