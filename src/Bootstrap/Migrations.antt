-- ===== src/Bootstrap/Migrations.antt =====
-- migrate/migrate.go and bootstrap/migrate.go: a migrator over the adapter of the runner of
-- migrator/migrator.go, and what a program may do with it.
use mathlib.Core.Path.{subst}
use api_toolkit.Prelude.{ℕ, ◌≡◌, refl, Bool, true, false, List, [], Option, none, some, any, Text}
use api_toolkit.Prelude.Int.{ℤ}
use api_toolkit.Migrator
use api_toolkit.Migrator.{Runner, Error, down_disabled, Root}
use api_toolkit.Migrator.Database
use api_toolkit.Migrator.Database.{Env, World, Outcome, returned}
use api_toolkit.Migrator.Database.Reporting
use api_toolkit.Migrator.Database.Reporting.{StatusOutcome}
use api_toolkit.Migrator.Database.Deleting.{reverts, IsGuarded, run_up-Guards, run_status-IsGuarded}
use api_toolkit.Ports.Services
use api_toolkit.Bootstrap.Opening.{Call, Trace, OpenError, new_adapter}

-- `Options` of migrate/migrate.go. The embedded file systems are an argument of the runner's operations.
pub record Options : Type 0 where
  pub dsn : Text
  pub dirs : List Text
  pub table : Text
  pub lock_key : ℤ
  pub allow_dangerous_down : Bool
  pub has_log : Bool

-- The runner's state moves with the calls: `runner` is the one that `New` makes.
pub record Adapter : Type 0 where
  pub runner : Runner

pub data Opened : Type 0 where
  opened : Adapter → Opened
  refused : OpenError → Opened

-- Messages of the runner go to the logger, which is there.
unfoldable pub runner_of : Options → Runner
runner_of opts = Migrator.new (record {
  migrations_dir = [];
  migrations_dirs = opts.dirs;
  table_name = opts.table;
  lock_key = opts.lock_key;
  allow_dangerous_down = opts.allow_dangerous_down;
  has_logger = true;
})

unfoldable pub with_runner : Options → Option OpenError × Trace → Opened × Trace
unfolding runner_of
with_runner opts (some e, t) = (refused e, t)
with_runner opts (none, t) = (opened (record { runner = runner_of opts }), t)

module _ (answer : Trace → Call → Option ℕ) where
  -- `New` of migrate/migrate.go.
  unfoldable pub new : Options → Trace → Opened × Trace
  unfolding with_runner
  new opts t = with_runner opts (new_adapter answer opts.has_log opts.dsn t)

  unfoldable pub new_migrator :
      (dsn table : Text) (lock_key : ℤ) (allow_down has_log : Bool) (dirs : List Text)
      → Trace
      → Opened × Trace
  unfolding new
  new_migrator dsn table lock_key allow_down has_log dirs t =
      new
        (record {
          dsn = dsn;
          dirs = dirs;
          table = table;
          lock_key = lock_key;
          allow_dangerous_down = allow_down;
          has_log = has_log;
        })
        t

-- The methods of the adapter; the directory that they are given is ignored.
module _ (env : Env) (sum256 : Text → Text) (dir_fs : Text → Root) (embedded : List Root) where
  unfoldable pub up : (dir : Text) → World → Outcome × World
  up dir w = Database.run_up env sum256 dir_fs embedded w

  unfoldable pub down : (dir : Text) → World → Outcome × World
  down dir w = Database.run_down env sum256 dir_fs embedded w

  unfoldable pub status : (dir : Text) → World → StatusOutcome × World
  status dir w = Reporting.run_status env sum256 dir_fs embedded w

  -- The adapter as the interface of ports/ports.go.
  unfoldable pub adapter_port : Services.Migrator World Outcome StatusOutcome
  unfolding up down status
  adapter_port = record { up = up; down = down; status = status }

  -- `RunUp`, `RunDown` and `Status` of bootstrap/migrate.go.
  unfoldable pub run_up : (dir : Text) → World → Outcome × World
  unfolding up
  run_up dir w = up dir w

  unfoldable pub run_down : (dir : Text) → World → Outcome × World
  unfolding down
  run_down dir w = down dir w

  unfoldable pub run_status : (dir : Text) → World → StatusOutcome × World
  unfolding status
  run_status dir w = status dir w

  -- What a program reaches from a world by the three, in any order and with any directories.
  pub data Reaches (start : World) : World → Type 0 where
    begun : Reaches start start
    by_up : (dir : Text) (w : World) → Reaches start w → Reaches start (run_up dir w).1
    by_down : (dir : Text) (w : World) → Reaches start w → Reaches start (run_down dir w).1
    by_status : (dir : Text) (w : World) → Reaches start w → Reaches start (run_status dir w).1

  run_down-Guarded :
      (dir : Text) (w : World) → IsGuarded w → run_down dir w ≡ (returned (some down_disabled), w)
  unfolding run_down down Database.run_down
  run_down-Guarded dir w (off, h) = rw off refl

  Reaches-IsGuarded : (start w : World) → IsGuarded start → Reaches start w → IsGuarded w
  unfolding run_up up run_status status
  Reaches-IsGuarded start w h begun = h
  Reaches-IsGuarded start w h (by_up dir w' r) =
      run_up-Guards env sum256 dir_fs embedded w' (Reaches-IsGuarded start w' h r)
  Reaches-IsGuarded start w h (by_down dir w' r) =
      let kept = Reaches-IsGuarded start w' h r in rw (run_down-Guarded dir w' kept) kept
  Reaches-IsGuarded start w h (by_status dir w' r) =
      run_status-IsGuarded env sum256 dir_fs embedded w' (Reaches-IsGuarded start w' h r)

abbrev pub start_of : Adapter → World
start_of a = record { runner = a.runner; trace = [] }

-- The adapter's runner, where there is one, has reverts off.
abbrev IsOff : Opened × Trace → Type 0
IsOff (opened a, t) = IsGuarded (start_of a)
IsOff (refused e, t) = Unit

with_runner-IsOff :
    (opts : Options) (r : Option OpenError × Trace)
    → opts.allow_dangerous_down ≡ false
    → IsOff (with_runner opts r)
unfolding with_runner runner_of Migrator.new
with_runner-IsOff opts (some e, t) off = tt
with_runner-IsOff opts (none, t) off = (off, refl)

-- A migrator opened by `NewMigrator` without leave for reverts: whatever the database answers, however
-- often and in whatever order `RunUp`, `RunDown` and `Status` are called, and with whatever
-- directories, no revert is begun and no row of the table is deleted, and every further `RunDown`
-- returns the error that says so and does nothing.
pub new_migrator-Guarded :
    (answer : Trace → Call → Option ℕ) (dsn table : Text) (lock_key : ℤ) (has_log : Bool)
    (dirs : List Text) (t t' : Trace) (a : Adapter) (env : Env) (sum256 : Text → Text)
    (dir_fs : Text → Root) (embedded : List Root) (w : World)
    → new_migrator answer dsn table lock_key false has_log dirs t ≡ (opened a, t')
    → Reaches env sum256 dir_fs embedded (start_of a) w
    → (any reverts w.trace ≡ false)
      × ((dir : Text)
          → run_down env sum256 dir_fs embedded dir w ≡ (returned (some down_disabled), w))
unfolding new_migrator new
new_migrator-Guarded answer dsn table lock_key has_log dirs t t' a env sum256 dir_fs embedded w e
      r =
    let guarded : IsGuarded (start_of a) = subst IsOff e (
      with_runner-IsOff
        (record {
          dsn = dsn;
          dirs = dirs;
          table = table;
          lock_key = lock_key;
          allow_dangerous_down = false;
          has_log = has_log;
        })
        (new_adapter answer has_log dsn t) refl) in
    let kept = Reaches-IsGuarded env sum256 dir_fs embedded (start_of a) w guarded r in
    (kept.1, λ dir. run_down-Guarded env sum256 dir_fs embedded dir w kept)
