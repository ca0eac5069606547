-- ===== src/Tester/Running.antt =====
-- The runs of `go test` of cmd/tester/main.go, one for each package with a cache of results, or a
-- single one in fast mode.
use api_toolkit.Prelude.{
  ℕ, zero, suc, ◌+◌, ◌-◌, ◌*◌, ◌%◌, ◌^◌, Bool, true, false, not, ◌&&◌, ◌||◌, List, [], ◌∷◌, ◌++◌,
  Option, none, some, if◌then◌else◌, eqb, is_space, Text, codes, trim_space, split_on, lookup,
  is_some, insert, ◌==◌, list_eq, map,
}
use api_toolkit.Prelude.Int.{ℤ, pos, negsuc, ◌-ℤ◌, ltb_ℤ}
use api_toolkit.Health.Checkers.Memory.{wrap64}
use api_toolkit.Envvar
use api_toolkit.Envvar.{Package}
use api_toolkit.Tester.{Server, Wait, ready, panicked, second, wait_for_api}

pub record Config : Type 0 where
  pub api_host : Text
  pub skip_api_wait : Bool
  pub package_pattern : Text
  pub test_pattern : Text
  pub flags : Text
  pub fast_mode : Bool
  pub cache_enabled : Bool
  pub cache_ttl : ℤ
  pub cache_dir : Text

unfoldable pub load_config : Package → Config
load_config lib = record {
  api_host = Envvar.get_or lib (codes "API_HOST") [];
  skip_api_wait = not (Envvar.get_or lib (codes "SKIP_API_WAIT") [] == []);
  package_pattern = Envvar.get_or lib (codes "PKG") (codes "./...");
  test_pattern = Envvar.get_or lib (codes "TEST_PATTERN") [];
  flags = Envvar.get_or lib (codes "FLAGS") [];
  fast_mode = not (Envvar.get_or lib (codes "FAST") [] == []);
  cache_enabled = Envvar.get_bool_or lib (codes "TEST_CACHE_ENABLED") true;
  cache_ttl = Envvar.get_int_or lib (codes "TEST_CACHE_TTL") (pos 3600);
  cache_dir = Envvar.get_or lib (codes "TEST_CACHE_DIR") (codes ".test-cache");
}

-- A file of the cache: the time of its last write, and the output of a test.
pub record File : Type 0 where
  pub modified : ℕ
  pub content : Text

-- `cache` is the directory `CacheDir`, by names of files; `commands` are the arguments of the calls of
-- `go`, the last one first; `reads` counts the readings of the clock.
pub record World : Type 0 where
  pub cache : List (Text × File)
  pub commands : List (List Text)
  pub reads : ℕ

-- The error of a command that is run with its output passed on: an exit code, or no start.
pub data RunError : Type 0 where
  exit_error : (code : ℕ) → RunError
  not_run : RunError

-- The machine: the clock, the command `go` by the commands before it (its exit code, 0 where it gives
-- no error, and its output), the same command with its output passed on, `go list`, the digest in hexadecimal, and whether the cache can be written.
pub record Machine : Type 0 where
  pub clock : ℕ → ℕ
  pub go : List (List Text) → List Text → ℕ × Text
  pub stream : List (List Text) → List Text → Option RunError
  pub list : Text → Option Text
  pub digest : Text → Text
  pub writable : Bool

unfoldable pub compute_cache_key : Machine → (pkg pattern flags : Text) → Text
compute_cache_key m pkg pattern flags = m.digest (pkg ++ codes "|" ++ pattern ++ codes "|" ++ flags)

-- `time.Duration(ttlSeconds)*time.Second`, which wraps around.
abbrev pub ttl_duration : ℤ → ℤ
ttl_duration (pos n) = wrap64 (n * second)
ttl_duration (negsuc n) = wrap64 (2 ^ 64 - (n + 1) * second % 2 ^ 64)

-- The file is as old as that at most.
abbrev pub is_fresh : (now : ℕ) → ℤ → Option File → Bool
is_fresh now ttl none = false
is_fresh now ttl (some f) = not (ltb_ℤ (ttl_duration ttl) (pos now -ℤ pos f.modified))

unfoldable pub is_cache_valid : Machine → World → Text → ℤ → Bool
is_cache_valid m w file ttl = is_fresh (m.clock w.reads) ttl (lookup file w.cache)

-- The replacer of "/" and "." by "--".
unfoldable pub sanitize_for_filename : Text → Text
sanitize_for_filename [] = []
sanitize_for_filename (c ∷ s) =
    let rest = sanitize_for_filename s in
    if eqb c b'/' || eqb c b'.' then b'-' ∷ b'-' ∷ rest else c ∷ rest

-- `strings.Fields`: the runs of other characters between spaces.
unfoldable pub split_spaces : Text → List Text
split_spaces [] = [] ∷ []
split_spaces (c ∷ s) = elim (split_spaces s) [
  | [] ↦ [] ∷ []
  | part ∷ parts ↦ if is_space c then [] ∷ part ∷ parts else (c ∷ part) ∷ parts
]

unfoldable pub nonempty : List Text → List Text
nonempty [] = []
nonempty (s ∷ ss) = let rest = nonempty ss in if s == [] then rest else s ∷ rest

unfoldable pub split_flags : Text → List Text
unfolding split_spaces nonempty
split_flags s = if trim_space s == [] then [] else nonempty (split_spaces s)

abbrev pub packages_of : Option Text → Option (List Text)
packages_of none = none
packages_of (some out) = some (nonempty (map trim_space (split_on b'\n' (trim_space out))))

unfoldable pub run_go_list : Machine → Text → Option (List Text)
unfolding nonempty
run_go_list m pattern = packages_of (m.list pattern)

abbrev pub run_flag : Text → List Text
run_flag pattern = if trim_space pattern == [] then [] else codes "-run" ∷ pattern ∷ []

unfoldable pub test_args : (pkg pattern flags : Text) → List Text
unfolding split_flags sanitize_for_filename
test_args pkg pattern flags =
    codes "test"
    ∷ codes "-v"
    ∷ codes "-failfast"
    ∷ codes "-covermode=atomic"
    ∷ (codes "-coverprofile=.coverage/coverage." ++ sanitize_for_filename pkg ++ codes ".out")
    ∷ (split_flags flags ++ run_flag pattern ++ pkg ∷ [])

abbrev pub store : Machine → Config → Text → Text → World → World
store m cfg file out w =
    if cfg.cache_enabled && m.writable
    then record w {
      cache = insert file (record { modified = m.clock w.reads; content = out }) w.cache;
      reads = w.reads + 1;
    }
    else w

abbrev pub after_run : Machine → Config → Text → ℕ × Text → World → Bool × World
after_run m cfg file (zero, out) w = (true, store m cfg file out w)
after_run m cfg file (suc code, out) w = (false, w)

-- A call of `go`, and what it gives.
abbrev pub called : Machine → List Text → World → (ℕ × Text) × World
called m args w = (m.go w.commands args, record w { commands = args ∷ w.commands })

unfoldable pub run_tests_with_cache :
    Machine → Config → (pkg pattern flags : Text) → World → Bool × World
unfolding compute_cache_key is_cache_valid test_args
run_tests_with_cache m cfg pkg pattern flags w =
    let file = compute_cache_key m pkg pattern flags in
    let w' = record w {
      reads = if cfg.cache_enabled && is_some (lookup file w.cache) then w.reads + 1 else w.reads;
    } in
    let (result, w'') = called m (test_args pkg pattern flags) w' in
    if cfg.cache_enabled && is_cache_valid m w file cfg.cache_ttl
    then (true, w')
    else after_run m cfg file result w''

-- The loop over the packages, with the exit code.
unfoldable pub run_packages : Machine → Config → List Text → World → ℕ × World
unfolding run_tests_with_cache
run_packages m cfg [] w = (0, w)
run_packages m cfg (p ∷ ps) w =
    let (passed, w') = run_tests_with_cache m cfg p cfg.test_pattern cfg.flags w in
    let rest = run_packages m cfg ps w' in if passed then rest else (1, w')

unfoldable pub fast_args : Config → List Text → List Text
unfolding split_flags
fast_args cfg pkgs =
    codes "test"
    ∷ codes "-v"
    ∷ codes "-failfast"
    ∷ (split_flags cfg.flags ++ run_flag cfg.test_pattern ++ pkgs)

abbrev pub exit_code : Option RunError → ℕ
exit_code none = 0
exit_code (some (exit_error code)) = code
exit_code (some not_run) = 1

-- `runCmdStreaming` of `go`, and its exit code.
abbrev pub run_cmd_streaming : Machine → List Text → World → ℕ × World
run_cmd_streaming m args w =
    (exit_code (m.stream w.commands args), record w { commands = args ∷ w.commands })

unfoldable pub run_all : Machine → Config → Option (List Text) → World → ℕ × World
unfolding run_packages fast_args
run_all m cfg none w = (1, w)
run_all m cfg (some pkgs) w =
    if cfg.fast_mode then run_cmd_streaming m (fast_args cfg pkgs) w else run_packages m cfg pkgs w

abbrev pub is_help : Text → Bool
is_help arg = arg == codes "-h" || arg == codes "--help" || arg == codes "help"

abbrev pub any_help : List Text → Bool
any_help [] = false
any_help (arg ∷ args) = is_help arg || any_help args

unfoldable pub after_wait : Machine → Config → Option Wait → World → ℕ × World
unfolding run_go_list run_all
after_wait m cfg (some ready) w = run_all m cfg (run_go_list m cfg.package_pattern) w
after_wait m cfg (some panicked) w = (2, w)
after_wait m cfg _ w = (1, w)

-- The exit code of `main` with the arguments after the name of the program.
unfoldable pub main : Machine → Server → Package → (fuel : ℕ) → List Text → World → ℕ × World
unfolding load_config wait_for_api run_go_list run_all after_wait
main m server lib fuel args w =
    let cfg = load_config lib in
    if any_help args
    then (0, w)
    else if cfg.skip_api_wait
    then run_all m cfg (run_go_list m cfg.package_pattern) w
    else after_wait m cfg (wait_for_api server fuel cfg.api_host) w
