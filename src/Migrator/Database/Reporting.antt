-- ===== src/Migrator/Database/Reporting.antt =====
-- `Status` of migrator/migrator.go. Its text is a value with what each line shows: the table, the rows
-- ("none" where there are none), and each migration up with the flag "*" or " ".
use api_toolkit.Prelude.{ℕ, Bool, List, [], ◌∷◌, Option, none, some, if◌then◌else◌, any, eqb, Text}
use api_toolkit.Migrator.{up, Migration, Error, driver, Root, same_dir}
use api_toolkit.Migrator.Pending.{AppliedRow, Pending, mismatch, pending, pending_up}
use api_toolkit.Migrator.Database.{Env, World, ensure_table, load_applied, load}

pub record Report : Type 0 where
  pub table : Text
  pub applied : List AppliedRow
  pub available : List (Bool × ℕ × Text)

pub data StatusOutcome : Type 0 where
  reported : Report → StatusOutcome
  failed : Error → StatusOutcome
  status_panicked : (version : ℕ) (have want : Text) → StatusOutcome

-- The flag of a version: some pending migration has it.
abbrev pub is_next : List Migration → ℕ → Bool
is_next next version = any (λ n. eqb n.version version) next

-- The lines of the migrations up.
unfoldable pub available_up : List Migration → List Migration → List (Bool × ℕ × Text)
available_up next [] = []
available_up next (m ∷ ms) =
    let rest = available_up next ms in
    if same_dir m.dir up then (is_next next m.version, m.version, m.name) ∷ rest else rest

unfoldable pub report_of : Text → List AppliedRow → List Migration → Pending → StatusOutcome
unfolding available_up
report_of table applied ms (mismatch v have want) = status_panicked v have want
report_of table applied ms (pending next) =
    reported (record { table = table; applied = applied; available = available_up next ms })

module _ (env : Env) (sum256 : Text → Text) (dir_fs : Text → Root) (embedded : List Root) where
  unfoldable pub status_with_rows : Option ℕ × List AppliedRow × World → StatusOutcome × World
  unfolding report_of
  status_with_rows (some e, rows, w) = (failed (driver e), w)
  status_with_rows (none, rows, w) = (
    report_of w.runner.opts.table_name rows w.runner.migrations
        (pending_up w.runner.migrations rows),
    w,
  )

  unfoldable pub status_loaded : Option Error × World → StatusOutcome × World
  unfolding status_with_rows
  status_loaded (some e, w) = (failed e, w)
  status_loaded (none, w) = status_with_rows (load_applied env w)

  unfoldable pub status_with_table : Option ℕ × World → StatusOutcome × World
  unfolding status_loaded
  status_with_table (some e, w) = (failed (driver e), w)
  status_with_table (none, w) = status_loaded (load env sum256 dir_fs embedded w)

  -- Without the lock.
  unfoldable pub run_status : World → StatusOutcome × World
  unfolding status_with_table
  run_status w = status_with_table (ensure_table env w)
