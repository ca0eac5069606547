-- ===== src/Health/Detailed.antt =====
-- `GetDetailedHealth` of health/health.go. Go visits the registered names in an order of its own: the
-- names are an argument, in the order visited.
use api_toolkit.Prelude.{
  ℕ, ◌+◌, ◌≡◌, refl, Bool, true, false, String, List, [], ◌∷◌, if◌then◌else◌, ltb, any, length,
  insert, string_eq, count_if, arith,
}
use api_toolkit.Health.Status.{
  HealthStatus, other, HealthResult, HealthSummary, DetailedHealthResponse, is_unhealthy, is_unset,
}
use api_toolkit.Health.Manager.{Manager, perform_check}
use api_toolkit.Health.Aggregate.{is_degraded, is_healthy, all_statuses, worst}

unfoldable pub count_status : HealthStatus → HealthSummary → HealthSummary
count_status HealthStatus.healthy s = record s { healthy = s.healthy + 1 }
count_status HealthStatus.unhealthy s = record s { unhealthy = s.unhealthy + 1 }
count_status HealthStatus.degraded s = record s { degraded = s.degraded + 1 }
count_status HealthStatus.unknown s = record s { unknown = s.unknown + 1 }
count_status (other x) s = s

unfoldable pub overall_of : HealthSummary → HealthStatus
overall_of s =
    if ltb 0 s.unhealthy
    then HealthStatus.unhealthy
    else if ltb 0 s.degraded
    then HealthStatus.degraded
    else if ltb 0 s.healthy
    then HealthStatus.healthy
    else HealthStatus.unknown

abbrev pub Checks : Type 0
Checks = List (String × HealthResult)

module _ (clock : ℕ → ℕ) where
  -- The loop over the names: the map `checks` and the summary.
  unfoldable pub visit_names :
      Manager → List String → ℕ → Checks → HealthSummary → Checks × HealthSummary × Manager × ℕ
  unfolding count_status
  visit_names m [] w checks s = (checks, s, m, w)
  visit_names m (name ∷ names) w checks s =
      let (r, m', w') = perform_check clock m name w in
      visit_names m' names w' (insert name r checks) (count_status r.status s)

  unfoldable pub get_detailed_health :
      Manager → List String → ℕ → DetailedHealthResponse × Manager × ℕ
  unfolding overall_of
  get_detailed_health m names w =
      let none_yet : HealthSummary = record {
        total = length names;
        healthy = 0;
        unhealthy = 0;
        degraded = 0;
        unknown = 0;
      } in
      let (checks, s, m', w') = visit_names m names w [] none_yet in
      (
        record { status = overall_of s; timestamp = clock w'; checks = checks; summary = s },
        m',
        w' + 1,
      )

abbrev pub is_unknown : HealthStatus → Bool
is_unknown HealthStatus.unknown = true
is_unknown _ = false

-- A summary against the statuses it counts.
abbrev pub Counts : List HealthStatus → HealthSummary → Type 0
Counts ss s =
    (s.healthy ≡ count_if is_healthy ss)
    × (s.unhealthy ≡ count_if is_unhealthy ss)
    × (s.degraded ≡ count_if is_degraded ss)
    × (s.unknown ≡ count_if is_unknown ss)

abbrev Adds : HealthSummary → List HealthStatus → HealthSummary → Type 0
Adds s ss t =
    (t.total ≡ s.total)
    × (t.healthy ≡ s.healthy + count_if is_healthy ss)
    × (t.unhealthy ≡ s.unhealthy + count_if is_unhealthy ss)
    × (t.degraded ≡ s.degraded + count_if is_degraded ss)
    × (t.unknown ≡ s.unknown + count_if is_unknown ss)

count_status-Adds :
    (x : HealthStatus) (ss : List HealthStatus) (s t : HealthSummary)
    → Adds (count_status x s) ss t
    → Adds s (x ∷ ss) t
unfolding count_status
count_status-Adds HealthStatus.healthy ss s t h = ground arith
count_status-Adds HealthStatus.unhealthy ss s t h = ground arith
count_status-Adds HealthStatus.degraded ss s t h = ground arith
count_status-Adds HealthStatus.unknown ss s t h = ground arith
count_status-Adds (other x) ss s t h = ground arith

visit_names-Adds :
    (clock : ℕ → ℕ) (m : Manager) (names : List String) (w : ℕ) (checks : Checks)
    (s : HealthSummary)
    → Adds s (all_statuses clock m names w) (visit_names clock m names w checks s).1
unfolding visit_names
visit_names-Adds clock m [] w checks s = ground arith
visit_names-Adds clock m (name ∷ names) w checks s =
    let r = (perform_check clock m name w).0 in
    let m' = (perform_check clock m name w).1 in
    let w' = (perform_check clock m name w).2 in
    count_status-Adds r.status (all_statuses clock m' names w') s
      (visit_names clock m' names w' (insert name r checks) (count_status r.status s)).1
      (visit_names-Adds clock m' names w' (insert name r checks) (count_status r.status s))

any-count_if : {A : Type 0} (p : A → Bool) (xs : List A) → any p xs ≡ ltb 0 (count_if p xs)
any-count_if p [] = refl
any-count_if p (x ∷ xs) = ground (arith, any-count_if p xs)

-- `unknown` in place of no level at all.
abbrev pub or_unknown : HealthStatus → HealthStatus
or_unknown s = if is_unset s then HealthStatus.unknown else s

overall_of-worst :
    (ss : List HealthStatus) (s : HealthSummary)
    → Counts ss s
    → overall_of s ≡ or_unknown (worst ss)
unfolding overall_of
overall_of-worst ss s (h, u, d, k) =
    ground
      (arith, any-count_if is_unhealthy ss, any-count_if is_degraded ss, any-count_if is_healthy ss)

-- The summary of a detailed report counts, over all the names visited, the statuses of their checks
-- performed one after the other, its total is the number of names, and the overall status is the
-- worst of these statuses, or `unknown` where none is healthy, degraded or unhealthy.
pub get_detailed_health-Counts :
    (clock : ℕ → ℕ) (m : Manager) (names : List String) (w : ℕ)
    → ((get_detailed_health clock m names w).0.summary.total ≡ length names)
      × Counts (all_statuses clock m names w) (get_detailed_health clock m names w).0.summary
      × ((get_detailed_health clock m names w).0.status
          ≡ or_unknown (worst (all_statuses clock m names w)))
unfolding get_detailed_health
get_detailed_health-Counts clock m names w =
    let none_yet : HealthSummary = record {
      total = length names;
      healthy = 0;
      unhealthy = 0;
      degraded = 0;
      unknown = 0;
    } in
    let t = (visit_names clock m names w [] none_yet).1 in
    let ss = all_statuses clock m names w in
    let (total, h, u, d, k) = visit_names-Adds clock m names w [] none_yet in
    let counts = zero_Counts ss t h u d k in (total, counts, overall_of-worst ss t counts)
  where
    zero_Counts :
        (ss : List HealthStatus) (t : HealthSummary)
        → t.healthy ≡ 0 + count_if is_healthy ss
        → t.unhealthy ≡ 0 + count_if is_unhealthy ss
        → t.degraded ≡ 0 + count_if is_degraded ss
        → t.unknown ≡ 0 + count_if is_unknown ss
        → Counts ss t
    zero_Counts ss t h u d k =
        (omega (arith, h), omega (arith, u), omega (arith, d), omega (arith, k))
