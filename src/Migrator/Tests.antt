-- ===== src/Migrator/Tests.antt =====
-- Runs of migrator/migrator.go, and its theorems at concrete inputs.
use api_toolkit.Prelude.{
  ℕ, ◌<◌, ◌^◌, ◌≡◌, ◌≢◌, refl, true, false, List, [], ◌∷◌, ◌++◌, map, none, some, Text, codes,
  arith, list_eq, parse_nat, digits_value, lookup, insert, strip_prefix, trim_space, trim_left,
}
use api_toolkit.Prelude.Int.{pos}
use api_toolkit.Migrator.{
  Direction, Options, Migration, Runner, DirEntry, Root, new, parse_file_name, span, strip_slashes,
  after_slash, dedupe, aggregate, sort_by, insert_by,
}
use api_toolkit.Migrator.Naming.{file_name, parse_file_name-file_name}
use api_toolkit.Migrator.Loading.{load_from, load_migrations, collect}
use api_toolkit.Migrator.Pending.{
  AppliedRow, Pending, pending_up, collect_pending, applied_set, IsPendingUp,
  pending_up-IsPendingUp,
}
use api_toolkit.Migrator.Database.{
  sql_of, Env, World, Outcome, pq, double_quotes, call, apply_all, apply_one, run_up, run_down,
  with_lock, ensure_table, load_applied, find, latest_success, up_body, with_applied,
}
use api_toolkit.Migrator.Database.Protocol.{IsSettled}
use api_toolkit.Migrator.Database.Applying.{recorded}
use api_toolkit.Migrator.Database.Completing.{Completes, read_at, run_up-Completes}
use api_toolkit.Migrator.Database.Quoting.{read_identifier, read_identifier-pq}
use api_toolkit.Migrator.Database.Reporting.{StatusOutcome, run_status, available_up}
use api_toolkit.Migrator.Database.Locking.{runs-IsSettled}

migrator_open : Unit {0}
unfolding new parse_file_name span strip_slashes after_slash dedupe aggregate sort_by insert_by
    load_from load_migrations collect pending_up collect_pending applied_set lookup insert
    strip_prefix trim_space trim_left parse_nat digits_value pq double_quotes call apply_all
    apply_one run_up run_down with_lock ensure_table load_applied find latest_success sql_of
    run_status available_up up_body with_applied
migrator_open = tt

-- A hash for the tests: the text itself.
abbrev no_hash : Text → Text
no_hash s = s

abbrev options : Options
options = record {
  migrations_dir = codes "db";
  migrations_dirs = codes "db" ∷ [];
  table_name = [];
  lock_key = pos 0;
  allow_dangerous_down = true;
  has_logger = false;
}

abbrev files : List DirEntry
files =
    record { name = codes "20240102_b.up.sql"; is_dir = false; content = some (codes "B") }
    ∷ record { name = codes "20240101_a.up.sql"; is_dir = false; content = some (codes " A\n") }
    ∷ record { name = codes "notes.txt"; is_dir = false; content = none }
    ∷ record { name = codes "20240102_b.down.sql"; is_dir = false; content = some (codes "undo") }
    ∷ []

abbrev dir_fs : Text → Root
dir_fs d = some files

abbrev runner : Runner
runner = new options

abbrev fine : Env
fine = record {
  error = λ t c. none;
  rows = λ t. [];
  rows_error = λ t. none;
  affected = λ t. 1;
  millis = λ t. 7;
}

abbrev versions : List Migration → List ℕ
versions ms = map (λ (m : Migration). m.version) ms

abbrev directory : DirEntry
directory = record { name = codes "20240103_c.up.sql"; is_dir = true; content = none }

loaded_versions :
    versions (load_migrations no_hash dir_fs [] runner).1.migrations
    ≡ 20240101 ∷ 20240102 ∷ 20240102 ∷ []
unfolding migrator_open
loaded_versions = refl

-- The second load after one that failed at an unreadable file has the first migration twice.
abbrev unreadable : DirEntry
unreadable = record { name = codes "20240105_z.up.sql"; is_dir = false; content = none }

abbrev readable : DirEntry
readable = record unreadable { content = some (codes "Z") }

abbrev one_file : DirEntry
one_file = record { name = codes "20240101_a.up.sql"; is_dir = false; content = some (codes "A") }

loaded_twice :
    versions
      (load_from no_hash
        (load_from no_hash runner (some (one_file ∷ unreadable ∷ []) ∷ [])).1
        (some (one_file ∷ readable ∷ []) ∷ [])).1.migrations
    ≡ 20240101 ∷ 20240101 ∷ 20240105 ∷ []
unfolding migrator_open
loaded_twice = refl

-- Nine digits are accepted as well.
nine_digits : parse_file_name (codes "202401019_a.up.sql") ≢ none
unfolding migrator_open
nine_digits = λ h. cc

seven_digits : parse_file_name (codes "2024010_a.up.sql") ≡ none
unfolding migrator_open
seven_digits = refl

quoted : pq (codes "a\"b") ≡ codes "\"a\"\"b\""
unfolding migrator_open
quoted = refl

parse_file_name-file_name_example :
    (m : Migration) × (parse_file_name
        (file_name (codes "20240101") (codes "add_users") Direction.up)
      ≡ some m)
    × (parse_nat (codes "20240101") ≡ some m.version)
    × (m.version < 10 ^ 14)
    × (m.name ≡ codes "add_users")
    × (m.dir ≡ Direction.up)
parse_file_name-file_name_example =
    parse_file_name-file_name (codes "20240101") (codes "add_users") Direction.up (omega arith)
      (omega arith) refl refl (λ h. cc)

abbrev b_up : Migration
b_up = record {
  version = 2;
  name = codes "b";
  dir = Direction.up;
  file = codes "b";
  sql = codes "B";
  checksum = codes "B";
}

abbrev a_up : Migration
a_up = record b_up { version = 1 }

abbrev row : AppliedRow
row = record {
  version = 1;
  name = codes "a";
  checksum = codes "B";
  applied_at = [];
  exec_ms = 3;
  success = true;
}

one_pending : pending_up (b_up ∷ a_up ∷ []) (row ∷ []) ≡ Pending.pending (b_up ∷ [])
unfolding migrator_open
one_pending = refl

pending_up-IsPendingUp_example :
    IsPendingUp (row ∷ []) (b_up ∷ a_up ∷ []) (pending_up (b_up ∷ a_up ∷ []) (row ∷ []))
pending_up-IsPendingUp_example = pending_up-IsPendingUp (b_up ∷ a_up ∷ []) (row ∷ [])

abbrev world : World
world = record { runner = runner; trace = [] }

applied_in_order : (run_up fine no_hash dir_fs [] world).0 ≡ Outcome.returned none
unfolding migrator_open
applied_in_order = refl

read_identifier-pq_example :
    read_identifier (pq (codes "a\"; DROP") ++ codes " (") ≡ some (codes "a\"; DROP", codes " (")
read_identifier-pq_example = read_identifier-pq (codes "a\"; DROP") (codes " (") refl

run_up-Completes_example :
    Completes fine (read_at world) (recorded world.trace) (run_up fine no_hash dir_fs [] world)
run_up-Completes_example = run_up-Completes fine no_hash dir_fs [] world

-- A panic of `pendingUp` gives the lock back as well.
abbrev other_row : AppliedRow
other_row = record row { version = 20240101 }

abbrev panicking : Env
panicking = record fine { rows = λ t. other_row ∷ [] }

panics :
    (run_up panicking no_hash dir_fs [] world).0 ≡ Outcome.panicked 20240101 (codes "B") (codes "A")
unfolding migrator_open
panics = refl

flags :
    (run_status fine no_hash dir_fs [] world).0
    ≡ StatusOutcome.reported (record {
      table = codes "schema_migrations";
      applied = [];
      available = (true, 20240101, codes "a") ∷ (true, 20240102, codes "b") ∷ [];
    })
unfolding migrator_open
flags = refl

runs-IsSettled_example :
    IsSettled (run_up fine no_hash dir_fs [] world).1
    × IsSettled (run_down fine no_hash dir_fs [] world).1
runs-IsSettled_example = runs-IsSettled fine no_hash dir_fs [] world refl
