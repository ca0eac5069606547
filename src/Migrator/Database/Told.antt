-- ===== src/Migrator/Database/Told.antt =====
-- What `Status` of migrator/migrator.go tells, against the rows and the migrations themselves.
use api_toolkit.Prelude.{
  ℕ, ◌≡◌, Bool, true, false, ◌&&◌, List, [], ◌∷◌, Option, none, some, eqb, Text, any, select, map,
}
use api_toolkit.Migrator.{up, Migration, Root, Error, driver, same_dir}
use api_toolkit.Migrator.Pending.{AppliedRow, Pending, no_row, changed}
use api_toolkit.Migrator.Database.{Trace, Env, World, load}
use api_toolkit.Migrator.Database.Reporting.{StatusOutcome, reported, failed, status_panicked}

-- A migration up of this version is among them.
abbrev has_up : ℕ → List Migration → Bool
has_up v ms = any (λ m. same_dir m.dir up && eqb m.version v) ms

-- The lines for the migrations up: a star where no successful row has the version.
abbrev pub told : List AppliedRow → List Migration → List (Bool × ℕ × Text)
told applied ms =
    map (λ m. (no_row applied m, m.version, m.name)) (select (λ m. same_dir m.dir up) ms)

abbrev last_error : Trace → Option ℕ
last_error [] = none
last_error ((c, e) ∷ t) = e

module _ (env : Env) (sum256 : Text → Text) (dir_fs : Text → Root) (embedded : List Root) where
  -- Why `Status` fails in a world: its last call, the reading of the rows, or the load before it.
  pub data IsCause (w : World) : Error → Type 0 where
    of_call : (n : ℕ) → last_error w.trace ≡ some n → IsCause w (driver n)
    of_rows : (n : ℕ) → env.rows_error w.trace ≡ some n → IsCause w (driver n)
    of_load :
        (e : Error) (w0 : World) → load env sum256 dir_fs embedded w0 ≡ (some e, w) → IsCause w e

  -- The rows are those that the last query of the world read.
  abbrev pub IsTold : StatusOutcome × World → Type 0
  IsTold (reported r, w) =
      (r.table ≡ w.runner.opts.table_name)
      × (r.applied ≡ env.rows w.trace)
      × (any (changed (env.rows w.trace)) w.runner.migrations ≡ false)
      × (r.available ≡ told (env.rows w.trace) w.runner.migrations)
  IsTold (status_panicked v have want, w) =
      any (changed (env.rows w.trace)) w.runner.migrations ≡ true
  IsTold (failed e, w) = IsCause w e
