-- ===== src/Health/Checkers/Composite.antt =====
-- `CompositeChecker` of health/checkers.go.
use api_toolkit.Prelude.{ℕ, ◌+◌, ◌-◌, String, List, [], ◌∷◌, ◌++◌, if◌then◌else◌, concat}
use api_toolkit.Health.Status.{
  HealthStatus, absent, results, Results, done, result, HealthResult, HealthChecker, is_unhealthy,
  tally, start, show_list,
}
use api_toolkit.Health.Manager.{Loop, stopped, finished}

-- The slice of results as details.
unfoldable pub results_of : List HealthResult → Results
results_of [] = done
results_of (r ∷ rs) = result r.status r.message r.details r.timestamp r.duration (results_of rs)

-- The loop over the checkers, with the results so far; `results` includes an unhealthy one.
unfoldable pub run_checkers :
    List HealthChecker → ℕ → List HealthResult → Loop × List HealthResult × ℕ
run_checkers [] w rs = (finished rs, rs, w)
run_checkers (c ∷ cs) w rs =
    let (r, w') = c.check w in
    let rest = run_checkers cs w' (rs ++ r ∷ []) in
    if is_unhealthy r.status then (stopped r, rs ++ r ∷ [], w') else rest

unfoldable pub summary_message : List String → String
summary_message [] = "All composite checks passed"
summary_message (m ∷ ms) = concat ("Composite check: " ∷ show_list (m ∷ ms) ∷ [])

-- The status and the message, by the way the loop ends.
unfoldable pub composite_status : Loop → HealthStatus × String
unfolding summary_message
composite_status (stopped r) =
    (HealthStatus.unhealthy, concat ("Composite check failed: " ∷ r.message ∷ []))
composite_status (finished rs) = let t = tally start rs in (t.overall, summary_message t.messages)

module _ (clock : ℕ → ℕ) where
  -- The result is stamped before its duration is taken.
  unfoldable pub composite_result : ℕ → Loop × List HealthResult × ℕ → HealthResult × ℕ
  unfolding composite_status
  composite_result started (loop, rs, w) =
      let (status, message) = composite_status loop in
      (
        record {
          status = status;
          message = message;
          details = results (results_of rs);
          timestamp = clock w;
          duration = clock (w + 1) - clock started;
        },
        w + 2,
      )

  unfoldable pub composite_check : List HealthChecker → ℕ → HealthResult × ℕ
  unfolding composite_result
  composite_check [] w = (
    record {
      status = HealthStatus.unknown;
      message = "No checkers configured";
      details = absent;
      timestamp = clock w;
      duration = 0;
    },
    w + 1,
  )
  composite_check (c ∷ cs) w = composite_result w (run_checkers (c ∷ cs) (w + 1) [])

  unfoldable pub composite_checker : String → List HealthChecker → HealthChecker
  composite_checker name checkers = record { name = name; check = composite_check checkers }
