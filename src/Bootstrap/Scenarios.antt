-- ===== src/Bootstrap/Scenarios.antt =====
-- A migrator and a probe of bootstrap/migrate.go and bootstrap/http.go at concrete inputs.
use api_toolkit.Prelude.{
  ℕ, ◌≡◌, refl, true, false, [], ◌∷◌, Option, none, some, any, Text, codes, String,
}
use api_toolkit.Prelude.Int.{pos}
use api_toolkit.Bootstrap.Opening.{Trace, Call, connect, ping, new_adapter}
use api_toolkit.Migrator
use api_toolkit.Migrator.{Root, down_disabled}
use api_toolkit.Migrator.Database
use api_toolkit.Migrator.Database.Deleting.{reverts}
use api_toolkit.Bootstrap.Migrations
use api_toolkit.Bootstrap.Migrations.{
  Adapter, opened, new_migrator, run_up, run_down, begun, by_up, by_down, start_of,
  new_migrator-Guarded,
}
use api_toolkit.Health.Handlers
use api_toolkit.Health.Handlers.{readiness}
use api_toolkit.Health.Manager
use api_toolkit.Bootstrap.{serve}
use api_toolkit.Bootstrap.Recorded.{answering}
use api_toolkit.Bootstrap.System.{health_actions, probe_code, AnswersWith, probe-AnswersWith}
use api_toolkit.Bootstrap.Tests.{env, post, started, accepts_json}

-- A migrator without leave for reverts, on a database that answers every call, and its runs in turn.
abbrev reachable : Trace → Call → Option ℕ
reachable t c = none

abbrev adapter : Adapter
adapter = record {
  runner = record {
    opts = record {
      migrations_dir = [];
      migrations_dirs = codes "db" ∷ [];
      table_name = codes "schema_migrations";
      lock_key = pos 7;
      allow_dangerous_down = false;
      has_logger = true;
    };
    migrations = [];
    loaded = false;
  };
}

abbrev database : Database.Env
database = record {
  error = λ t c. none;
  rows = λ t. [];
  rows_error = λ t. none;
  affected = λ t. 1;
  millis = λ t. 3;
}

abbrev migrations : Text → Root
migrations dir =
    some
      (record { name = codes "20240101_a.up.sql"; is_dir = false; content = some (codes "A") } ∷ [])

adapter_opened :
    new_migrator reachable (codes "postgres://db") [] (pos 7) false true (codes "db" ∷ []) []
    ≡ (opened adapter, (ping, none) ∷ (connect, none) ∷ [])
unfolding new_migrator Migrations.new new_adapter Migrator.new
adapter_opened = refl

abbrev after_runs : Database.World
after_runs =
    let tried = (run_down database (λ s. s) migrations [] (codes "db") (start_of adapter)).1 in
    (run_up database (λ s. s) migrations [] (codes "db") tried).1

new_migrator-Guarded_example :
    (any reverts after_runs.trace ≡ false)
    × ((dir : Text)
        → run_down database (λ s. s) migrations [] dir after_runs
          ≡ (Database.returned (some down_disabled), after_runs))
new_migrator-Guarded_example =
    new_migrator-Guarded reachable (codes "postgres://db") [] (pos 7) true (codes "db" ∷ []) []
      ((ping, none) ∷ (connect, none) ∷ []) adapter database (λ s. s) migrations [] after_runs
      adapter_opened (by_up (codes "db") _ (by_down (codes "db") _ begun))

abbrev encode : Handlers.Body → Option (String × ℕ)
encode body = some ("{}", 2)

probe-AnswersWith_example :
    AnswersWith
      (probe_code (λ n. n) readiness Manager.new 0)
      started
      (serve env
        (answering (health_actions encode (λ n. n) readiness Manager.new [] 0))
        (post (codes "application/json; charset=utf-8"))
        started).1
probe-AnswersWith_example =
    probe-AnswersWith encode (λ n. n) env readiness Manager.new 0
      (post (codes "application/json; charset=utf-8")) started tt refl accepts_json refl
