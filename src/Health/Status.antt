-- ===== src/Health/Status.antt =====
-- The types of health results of ports/ports.go, and the loop over results that health/health.go and
-- health/checkers.go have in common.
use api_toolkit.Prelude.{
  ℕ, Bool, true, false, String, List, [], ◌∷◌, ◌++◌, if◌then◌else◌, ◌==◌, string_eq, concat,
}
use api_toolkit.Prelude.Int.{ℤ}

-- A string type in the source: its constants, and any other string. The zero value is `other ""`.
pub data HealthStatus : Type 0 where
  healthy unhealthy degraded unknown : HealthStatus
  other : String → HealthStatus

-- The field `Details` of a result: nothing, named numbers, the results of a composite check, or a
-- value of the application's own.
mutual
  pub data Details : Type 0 where
    absent : Details
    numbers : List (String × ℤ) → Details
    results : Results → Details
    opaque : ℕ → Details

  pub data Results : Type 0 where
    done : Results
    result : HealthStatus → String → Details → (timestamp duration : ℕ) → Results → Results

pub record HealthResult : Type 0 where
  pub status : HealthStatus
  pub message : String
  pub details : Details
  pub timestamp : ℕ
  pub duration : ℕ

-- `check` takes the number of clock readings so far, and returns that number after it.
pub record HealthChecker : Type 0 where
  pub name : String
  pub check : ℕ → HealthResult × ℕ

pub record HealthCheckConfig : Type 0 where
  pub timeout : ℕ
  pub cache_duration : ℕ
  pub enable_caching : Bool
  pub enable_detailed : Bool
  pub liveness_checks : List String
  pub readiness_checks : List String

pub record HealthSummary : Type 0 where
  pub total : ℕ
  pub healthy : ℕ
  pub unhealthy : ℕ
  pub degraded : ℕ
  pub unknown : ℕ

pub record HealthResponse : Type 0 where
  pub status : HealthStatus
  pub timestamp : ℕ
  pub message : String

pub record DetailedHealthResponse : Type 0 where
  pub status : HealthStatus
  pub timestamp : ℕ
  pub checks : List (String × HealthResult)
  pub summary : HealthSummary

abbrev pub is_unhealthy : HealthStatus → Bool
is_unhealthy HealthStatus.unhealthy = true
is_unhealthy _ = false

abbrev pub is_unset : HealthStatus → Bool
is_unset (other s) = s == ""
is_unset _ = false

-- What the loop over the results has: `overallStatus` and `messages`.
pub record Tally : Type 0 where
  pub overall : HealthStatus
  pub messages : List String

abbrev pub add_message : List String → String → List String
add_message ms m = if m == "" then ms else ms ++ m ∷ []

unfoldable pub tally_degraded : Tally → String → Tally
tally_degraded t m =
    if is_unhealthy t.overall
    then t
    else record { overall = HealthStatus.degraded; messages = add_message t.messages m }

-- One round: `switch result.Status`.
unfoldable pub tally_one : HealthStatus → String → Tally → Tally
unfolding tally_degraded
tally_one HealthStatus.unhealthy m t = record {
  overall = HealthStatus.unhealthy;
  messages = add_message t.messages m;
}
tally_one HealthStatus.degraded m t = tally_degraded t m
tally_one HealthStatus.healthy m t =
    if is_unset t.overall then record t { overall = HealthStatus.healthy } else t
tally_one _ m t = t

unfoldable pub tally : Tally → List HealthResult → Tally
unfolding tally_one
tally t [] = t
tally t (r ∷ rs) = tally (tally_one r.status r.message t) rs

abbrev pub start : Tally
start = record { overall = other ""; messages = [] }

unfoldable pub spaced : List String → List String
spaced [] = []
spaced (m ∷ []) = m ∷ []
spaced (m ∷ n ∷ ms) = m ∷ " " ∷ spaced (n ∷ ms)

-- `fmt.Sprintf("%v", messages)`.
unfoldable pub show_list : List String → String
show_list ms = concat ("[" ∷ (spaced ms ++ "]" ∷ []))
