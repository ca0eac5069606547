-- ===== src/Tester/Tests.antt =====
-- Runs of cmd/tester/main.go, and its theorems at concrete inputs.
use api_toolkit.Prelude.{
  ℕ, length, ◌*◌, ◌≤◌, ◌<◌, ◌≡◌, refl, true, false, not, List, [], ◌∷◌, none, some, if◌then◌else◌,
  eqb, Text, codes, arith, list_eq, trim_space, split_on, lookup, insert,
}
use api_toolkit.Prelude.Int.{pos, ◌-ℤ◌}
use api_toolkit.Envvar.{Package}
use api_toolkit.Tester.{
  Server, Wait, timed_out, panicked, wait_for_api, health_url, trim_right, wait_loop, time_to_next,
  backoff_of, second,
}
use api_toolkit.Tester.Running.{
  Config, World, Machine, run_packages, run_tests_with_cache, compute_cache_key, is_cache_valid,
  test_args, sanitize_for_filename, split_flags, split_spaces, nonempty, load_config, main,
}
use api_toolkit.Tester.Waiting.{decided, wait_for_api-ends}
use api_toolkit.Tester.Caching.{IsSound, main-IsSound}

tester_open : Unit {0}
unfolding wait_for_api health_url trim_right wait_loop time_to_next backoff_of ◌-ℤ◌ run_packages
    run_tests_with_cache compute_cache_key is_cache_valid test_args sanitize_for_filename
    split_flags split_spaces nonempty trim_space split_on lookup insert
tester_open = tt

-- No answer for two attempts, and then the code 503 for ever.
abbrev failing : Server
failing = record {
  parses = λ url. not (eqb (length url) 12);
  response = λ i. if eqb i 0 then none else some 503;
  delay = λ i. 1_000_000;
  decayed = λ i. pos (29 * second);
  cancelled = λ i. false;
}

waits_for_twenty_seconds : wait_for_api failing 22 (codes "http://api") ≡ some timed_out
unfolding tester_open
waits_for_twenty_seconds = refl

-- The URL ":8080/health" does not parse.
panics_at_once : wait_for_api failing 22 (codes ":8080/") ≡ some panicked
unfolding tester_open
panics_at_once = refl

wait_for_api-ends_example :
    (i : ℕ) × (answer : Wait) × (i ≤ 21)
    × (decided failing (health_url (codes "http://api")) i ≡ some answer)
    × ((j : ℕ) → j < i → decided failing (health_url (codes "http://api")) j ≡ none)
    × (wait_for_api failing 30 (codes "http://api") ≡ some answer)
wait_for_api-ends_example =
    wait_for_api-ends failing 30 (codes "http://api") (λ i. omega arith) (omega arith) refl

-- The first run passes, and every other one fails.
abbrev outcome : List (List Text) → ℕ × Text
outcome [] = (0, codes "ok")
outcome (args ∷ before) = (1, codes "FAIL")

abbrev machine : Machine
machine = record {
  clock = λ n. n * second;
  go = λ before args. outcome before;
  stream = λ before args. none;
  list = λ pattern. some (codes "a\nb\n");
  digest = λ text. text;
  writable = true;
}

abbrev config : Config
config = record {
  api_host = [];
  skip_api_wait = true;
  package_pattern = codes "./...";
  test_pattern = [];
  flags = codes "-race  -count=1";
  fast_mode = false;
  cache_enabled = true;
  cache_ttl = pos 3600;
  cache_dir = codes ".test-cache";
}

abbrev empty : World
empty = record { cache = []; commands = []; reads = 0 }

abbrev package_a : Text
package_a = codes "example.com/a"

abbrev package_b : Text
package_b = codes "example.com/b"

passed_and_failed : run_packages machine config (package_a ∷ package_b ∷ []) empty ≡ (
  1,
  record {
    cache =
        (codes "example.com/a||-race  -count=1", record { modified = 0; content = codes "ok" })
        ∷ [];
    commands =
        (codes "test"
          ∷ codes "-v"
          ∷ codes "-failfast"
          ∷ codes "-covermode=atomic"
          ∷ codes "-coverprofile=.coverage/coverage.example--com--b.out"
          ∷ codes "-race"
          ∷ codes "-count=1"
          ∷ package_b
          ∷ [])
        ∷ (codes "test"
            ∷ codes "-v"
            ∷ codes "-failfast"
            ∷ codes "-covermode=atomic"
            ∷ codes "-coverprofile=.coverage/coverage.example--com--a.out"
            ∷ codes "-race"
            ∷ codes "-count=1"
            ∷ package_a
            ∷ [])
        ∷ [];
    reads = 1;
  },
)
unfolding tester_open
passed_and_failed = refl

abbrev unset : Package
unset = record {
  get = λ key. [];
  get_or = λ key def. def;
  get_bool_or = λ key def. def;
  must_get = λ key. none;
  must_get_bool = λ key. none;
  must_get_int = λ key. none;
  must_load = λ paths. true;
}

main-IsSound_example :
    IsSound machine (load_config unset) empty (main machine failing unset 22 [] empty).1
main-IsSound_example = main-IsSound machine failing unset 22 [] empty
