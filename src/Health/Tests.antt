-- ===== src/Health/Tests.antt =====
-- Runs of health/, and its theorems at concrete inputs.
use api_toolkit.Prelude.{
  ℕ, ◌+◌, ◌^◌, ◌≡◌, refl, true, [], ◌∷◌, some, length, arith, lookup, insert, string_eq, concat,
}
use api_toolkit.Prelude.Int.{pos}
use api_toolkit.Health.Status.{
  HealthStatus, other, absent, HealthChecker, HealthCheckConfig, tally, show_list, spaced,
}
use api_toolkit.Health.Checkers.{basic_checker, database_checker, custom_checker}
use api_toolkit.Health.Checkers.Memory.{memory_checker, memory_status, decimal, digit, wrap64}
use api_toolkit.Health.Checkers.Composite.{composite_checker, composite_check, run_checkers}
use api_toolkit.Health.Checkers.Worst.{checker_statuses, composite_check-worst}
use api_toolkit.Health.Manager.{
  Manager, new, new_with_config, register_checker, register_checkers, perform_check, perform_checks,
  check_all, get_liveness, get_readiness, get_health, from_cache, run_check,
}
use api_toolkit.Health.Aggregate.{worst, IsOverall, all_statuses, perform_checks-worst}
use api_toolkit.Health.Freshness.{
  Fresh, IsMonotone, Advances, perform_check-reused, perform_check-recent,
}
use api_toolkit.Health.Detailed.{
  Counts, or_unknown, get_detailed_health, visit_names, get_detailed_health-Counts,
}
use api_toolkit.Health.Handlers.{
  liveness_handler, readiness_handler, health_handler, detailed_health_handler, register_routes,
  get,
}

health_open : Unit {0}
unfolding run_check from_cache concat new new_with_config register_checker register_checkers
    basic_checker database_checker custom_checker memory_checker composite_checker composite_check
    run_checkers perform_check perform_checks check_all get_liveness get_readiness get_health
    liveness_handler readiness_handler health_handler detailed_health_handler get_detailed_health
    visit_names lookup insert tally show_list spaced decimal digit wrap64 register_routes get
health_open = tt

-- A clock that shows the number of its readings.
abbrev ticks : ℕ → ℕ
ticks n = n

abbrev slow : HealthChecker
slow = record {
  name = "slow";
  check = λ w. (
    record {
      status = HealthStatus.degraded;
      message = "slow";
      details = absent;
      timestamp = 0;
      duration = 0;
    },
    w + 1,
  );
}

abbrev down : HealthChecker
down = record {
  name = "database";
  check = λ w. (
    record {
      status = HealthStatus.unhealthy;
      message = "down";
      details = absent;
      timestamp = 0;
      duration = 0;
    },
    w + 1,
  );
}

abbrev config : HealthCheckConfig
config = record {
  timeout = 5;
  cache_duration = 5;
  enable_caching = true;
  enable_detailed = true;
  liveness_checks = "basic" ∷ "slow" ∷ [];
  readiness_checks = "database" ∷ "basic" ∷ [];
}

abbrev both : Manager
both = record {
  config = config;
  checkers = ("basic", basic_checker ticks) ∷ ("slow", slow) ∷ ("database", down) ∷ [];
  cache = [];
}

both_registered :
    register_checkers (new_with_config config) (basic_checker ticks ∷ slow ∷ down ∷ []) ≡ both
unfolding health_open
both_registered = refl

-- Names without checkers: the response has the empty status, and the code 200.
unregistered :
    ((readiness_handler ticks new 0).0.status_code ≡ 200)
    × ((get_health ticks new 0).0.status ≡ other "")
unfolding health_open
unregistered = (refl, refl)

memory_message : (memory_status (pos 100) 120).1 ≡ "Memory usage too high: 120 MB (max: 100 MB)"
unfolding memory_status health_open
memory_message = refl

-- The product `max * 8` wraps around: an almost empty memory is reported as degraded.
memory_overflow : (memory_status (pos (2 ^ 60)) 1).0 ≡ HealthStatus.degraded
unfolding memory_status health_open
memory_overflow = refl

degraded_message : (get_liveness ticks both 0).0.message ≡ "Issues: [slow]"
unfolding health_open
degraded_message = refl

routes : length (register_routes []) ≡ 5
unfolding health_open
routes = refl

perform_checks-worst_example :
    IsOverall
      (all_statuses ticks both ("basic" ∷ "slow" ∷ []) 0)
      (perform_checks ticks both ("basic" ∷ "slow" ∷ []) 0).0.status
perform_checks-worst_example = perform_checks-worst ticks both "basic" ("slow" ∷ []) 0

composite_check-worst_example :
    IsOverall
      (checker_statuses (slow ∷ down ∷ basic_checker ticks ∷ []) 1)
      (composite_check ticks (slow ∷ down ∷ basic_checker ticks ∷ []) 0).0.status
composite_check-worst_example = composite_check-worst ticks slow (down ∷ basic_checker ticks ∷ []) 0

abbrev m1 : Manager
m1 = (perform_check ticks both "slow" 0).1

slow_found : lookup "slow" both.checkers ≡ some slow
unfolding health_open
slow_found = refl

reused_in_time : Fresh ticks both (perform_check ticks both "slow" 0).0 5
unfolding health_open
reused_in_time = omega arith

perform_check-reused_example :
    perform_check ticks m1 "slow" 5 ≡ ((perform_check ticks both "slow" 0).0, m1, 6)
perform_check-reused_example =
    perform_check-reused ticks both "slow" slow 0 5 refl slow_found reused_in_time

ticks-IsMonotone : IsMonotone ticks
ticks-IsMonotone v w h = h

abbrev only_slow : Manager
only_slow = record { config = config; checkers = ("slow", slow) ∷ []; cache = [] }

only_slow-Advances : Advances only_slow
unfolding lookup
only_slow-Advances name c w e = ground arith

perform_check-recent_example : Fresh ticks only_slow (perform_check ticks only_slow "slow" 3).0 3
perform_check-recent_example =
    perform_check-recent ticks only_slow "slow" 3 ticks-IsMonotone only_slow-Advances (omega arith)

get_detailed_health-Counts_example :
    ((get_detailed_health ticks both ("slow" ∷ "database" ∷ []) 0).0.summary.total ≡ 2)
    × Counts
        (all_statuses ticks both ("slow" ∷ "database" ∷ []) 0)
        (get_detailed_health ticks both ("slow" ∷ "database" ∷ []) 0).0.summary
    × ((get_detailed_health ticks both ("slow" ∷ "database" ∷ []) 0).0.status
        ≡ or_unknown (worst (all_statuses ticks both ("slow" ∷ "database" ∷ []) 0)))
get_detailed_health-Counts_example =
    get_detailed_health-Counts ticks both ("slow" ∷ "database" ∷ []) 0
