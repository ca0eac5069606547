-- ===== src/Health/Checkers/Worst.antt =====
-- The status of `CompositeChecker` of health/checkers.go, against the worst of its checkers' statuses.
use mathlib.Core.List.{map-append}
use api_toolkit.Prelude.{
  ℕ, ◌+◌, ◌≡◌, sym, ap, ◌∙◌, List, [], ◌∷◌, ◌++◌, append-nil, append_assoc, Bool-cases, inl, inr,
}
use api_toolkit.Health.Status.{HealthStatus, HealthResult, HealthChecker, is_unhealthy}
use api_toolkit.Health.Aggregate.{
  worst, IsOverall, worst-IsOverall, statuses, tally-start, worst-append-unhealthy, is_unhealthy-eq,
}
use api_toolkit.Health.Checkers.Composite.{
  run_checkers, composite_status, composite_check, composite_result,
}

-- Every checker run in turn, none left out.
abbrev pub checker_statuses : List HealthChecker → ℕ → List HealthStatus
checker_statuses [] w = []
checker_statuses (c ∷ cs) w = let (r, w') = c.check w in r.status ∷ checker_statuses cs w'

run_checkers-worst :
    (cs : List HealthChecker) (w : ℕ) (rs : List HealthResult)
    → (composite_status (run_checkers cs w rs).0).0 ≡ worst (statuses rs ++ checker_statuses cs w)
unfolding run_checkers composite_status
run_checkers-worst [] w rs = rw append-nil (tally-start rs)
run_checkers-worst (c ∷ cs) w rs =
    let r = (c.check w).0 in
    let w' = (c.check w).1 in
    elim (Bool-cases (is_unhealthy r.status)) [
      | inl bad ↦ rw bad (
          sym (worst-append-unhealthy (statuses rs) (checker_statuses cs w'))
          ∙ ap (λ (s : HealthStatus). worst (statuses rs ++ s ∷ checker_statuses cs w'))
              (sym (is_unhealthy-eq r.status bad)))
      | inr fine ↦ rw fine (
          run_checkers-worst cs w' (rs ++ r ∷ [])
          ∙ ap (λ (ss : List HealthStatus). worst (ss ++ checker_statuses cs w'))
              (map-append (λ (x : HealthResult). x.status) rs (r ∷ []))
          ∙ ap worst (append_assoc (statuses rs) (r.status ∷ []) (checker_statuses cs w')))
    ]

-- The status of a composite check of at least one checker is unhealthy if one of the checkers is, when
-- all are run one after the other, otherwise degraded if one is, otherwise healthy if one is, although it
-- stops at the first unhealthy one; and where no checker gives one of these three, it is the empty string
-- and not unknown.
pub composite_check-worst :
    (clock : ℕ → ℕ) (c : HealthChecker) (cs : List HealthChecker) (w : ℕ)
    → IsOverall (checker_statuses (c ∷ cs) (w + 1)) (composite_check clock (c ∷ cs) w).0.status
unfolding composite_check composite_result
composite_check-worst clock c cs w =
    rw (run_checkers-worst (c ∷ cs) (w + 1) [])
      (worst-IsOverall (checker_statuses (c ∷ cs) (w + 1)))
