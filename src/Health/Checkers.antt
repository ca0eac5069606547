-- ===== src/Health/Checkers.antt =====
-- health/checkers.go: the checkers, each a `HealthChecker` of ports/ports.go.
pub mod Composite
pub mod Memory
pub mod Worst
use Prim.Native.Char.{Char}
use api_toolkit.Prelude.{
  ℕ, zero, suc, ◌+◌, ◌-◌, ◌*◌, ◌/◌, ◌%◌, ◌^◌, ◌≡◌, refl, Bool, true, false, ◌&&◌, String, List, [],
  ◌∷◌, ◌++◌, Option, none, some, if◌then◌else◌, ltb, leb, concat,
}
use api_toolkit.Prelude.Int.{ℤ, pos, negsuc, ltb_ℤ, sub_ℕ}
use api_toolkit.Health.Status.{
  HealthStatus, Details, absent, numbers, results, opaque, Results, done, result, HealthResult,
  HealthChecker, Tally, is_unhealthy, tally, start, show_list,
}

-- The clock of Health.antt.
module _ (clock : ℕ → ℕ) where
  unfoldable pub basic_checker : HealthChecker
  basic_checker = record {
    name = "basic";
    check = λ w. (
      record {
        status = HealthStatus.healthy;
        message = "Basic health check passed";
        details = absent;
        timestamp = clock w;
        duration = 0;
      },
      w + 1,
    );
  }

  -- The pool is not under health/: `ping` answers with the text of an error, or `none`, and `stats`
  -- gives the five counts that the details hold.
  unfoldable pub database_result : Option String → List (String × ℤ) → ℕ → HealthResult
  database_result (some err) stats w = record {
    status = HealthStatus.unhealthy;
    message = concat ("Database ping failed: " ∷ err ∷ []);
    details = absent;
    timestamp = clock (w + 2);
    duration = clock (w + 1) - clock w;
  }
  database_result none stats w = record {
    status = HealthStatus.healthy;
    message = "Database connection healthy";
    details = numbers stats;
    timestamp = clock (w + 2);
    duration = clock (w + 1) - clock w;
  }

  unfoldable pub database_checker :
      (ping : ℕ → Option String) (stats : ℕ → List (String × ℤ)) → HealthChecker
  unfolding database_result
  database_checker ping stats = record {
    name = "database";
    check = λ w. (database_result (ping w) (stats w) w, w + 3);
  }

  -- `checkFunc` answers with a status, a message and details; the five seconds or the other timeout
  -- bound the context that it is given, which is its own to watch.
  unfoldable pub custom_checker :
      String → (ℕ → (HealthStatus × String × Details) × ℕ) → HealthChecker
  custom_checker name check_func = record {
    name = name;
    check = λ w.
        let ((status, message, details), w') = check_func (w + 1) in
        (
          record {
            status = status;
            message = message;
            details = details;
            timestamp = clock (w' + 1);
            duration = clock w' - clock w;
          },
          w' + 2,
        );
  }
