-- ===== src/Migrator/Database.antt =====
-- The operations of migrator/migrator.go on the database: `Up`, `Down` and `Status` with what they
-- call. The database is not under migrator/: an `Env` answers each call by the calls made before it.
pub mod Protocol
pub mod Locking
pub mod Held
pub mod Bracket
pub mod Applying
pub mod Completing
pub mod Quoting
pub mod Reporting
pub mod Told
pub mod Deleting
use api_toolkit.Prelude.{
  ℕ, zero, suc, ◌+◌, ◌≡◌, refl, Bool, true, false, ◌&&◌, List, [], ◌∷◌, ◌++◌, Option, none, some,
  if◌then◌else◌, is_some, eqb, Text, codes, trim_space, ◌==◌, list_eq,
}
use api_toolkit.Prelude.Int.{ℤ}
use api_toolkit.Migrator.{
  Direction, down, up, Options, Migration, Runner, Root, Error, down_disabled, driver,
  migration_failed, revert_failed, no_row_deleted, no_down_migration, same_dir,
}
use api_toolkit.Migrator.Loading.{load_migrations}
use api_toolkit.Migrator.Pending.{AppliedRow, Pending, mismatch, pending, pending_up}

-- `pq`: an identifier in quotes, with its quotes doubled.
unfoldable pub double_quotes : Text → Text
double_quotes [] = []
double_quotes (c ∷ s) = let rest = double_quotes s in if eqb c b'"' then c ∷ c ∷ rest else c ∷ rest

unfoldable pub pq : Text → Text
unfolding double_quotes
pq ident = codes "\"" ++ double_quotes ident ++ codes "\""

-- The statements of the runner, with their arguments.
pub data Statement : Type 0 where
  advisory_lock : ℤ → Statement
  advisory_unlock : ℤ → Statement
  create_table : Text → Statement
  select_applied : Text → Statement
  upsert_row : Text → Migration → ℕ → Bool → Statement
  delete_row : Text → ℕ → Statement

-- Their texts.
unfoldable pub sql_of : Statement → Text
unfolding pq
sql_of (advisory_lock key) = codes "SELECT pg_advisory_lock($1);"
sql_of (advisory_unlock key) = codes "SELECT pg_advisory_unlock($1);"
sql_of (create_table table) =
    codes "\nCREATE TABLE IF NOT EXISTS "
    ++ pq table
    ++ codes
        " (\n  version BIGINT PRIMARY KEY,\n  name TEXT NOT NULL,\n  checksum TEXT NOT NULL,\n  applied_at TIMESTAMPTZ NOT NULL,\n  exec_ms INTEGER NOT NULL,\n  success BOOLEAN NOT NULL\n);"
sql_of (select_applied table) =
    codes "\nSELECT version, name, checksum, applied_at, exec_ms, success\nFROM "
    ++ pq table
    ++ codes "\nORDER BY applied_at ASC, version ASC;"
sql_of (upsert_row table m ms ok) =
    codes "\nINSERT INTO "
    ++ pq table
    ++ codes
        " (version, name, checksum, applied_at, exec_ms, success)\nVALUES ($1, $2, $3, NOW(), $4, $5)\nON CONFLICT (version) DO UPDATE SET\n  name = EXCLUDED.name,\n  checksum = EXCLUDED.checksum,\n  applied_at = EXCLUDED.applied_at,\n  exec_ms = EXCLUDED.exec_ms,\n  success = EXCLUDED.success;"
sql_of (delete_row table version) = codes "DELETE FROM " ++ pq table ++ codes " WHERE version = $1;"

-- The calls of `database/sql`, and the messages to the logger.
pub data Call : Type 0 where
  exec : Statement → Call
  query : Statement → Call
  begin_tx commit rollback : Call
  exec_tx : Text → Call
  exec_tx_statement : Statement → Call
  log_applying log_reverting : ℕ → Text → Call
  log_up_to_date log_nothing : Call

-- The calls made, the last one first, each with its error.
abbrev pub Trace : Type 0
Trace = List (Call × Option ℕ)

pub record Env : Type 0 where
  pub error : Trace → Call → Option ℕ
  pub rows : Trace → List AppliedRow
  pub rows_error : Trace → Option ℕ
  pub affected : Trace → ℕ
  pub millis : Trace → ℕ

pub record World : Type 0 where
  pub runner : Runner
  pub trace : Trace

-- How an operation ends: with its error, if any, or with the panic of `pendingUp`.
pub data Outcome : Type 0 where
  returned : Option Error → Outcome
  panicked : (version : ℕ) (have want : Text) → Outcome

abbrev pub or_else : Option AppliedRow → Option AppliedRow → Option AppliedRow
or_else none b = b
or_else (some a) b = some a

abbrev pub wrapped : Option ℕ → Option Error
wrapped none = none
wrapped (some e) = some (driver e)

-- One call.
unfoldable pub call : Env → Call → World → Option ℕ × World
call env c w = (env.error w.trace c, record w { trace = (c, env.error w.trace c) ∷ w.trace })

abbrev pub logged : Call → World → World
logged c w = if w.runner.opts.has_logger then record w { trace = (c, none) ∷ w.trace } else w

module _ (env : Env) where
  unfoldable pub ensure_table : World → Option ℕ × World
  ensure_table w = call env (exec (create_table w.runner.opts.table_name)) w

  -- The rows read before an error are dropped.
  unfoldable pub read_rows : Option ℕ × World → Option ℕ × List AppliedRow × World
  read_rows (some e, w) = (some e, [], w)
  read_rows (none, w) = (
    env.rows_error w.trace,
    (if is_some (env.rows_error w.trace) then [] else env.rows w.trace),
    w,
  )

  unfoldable pub load_applied : World → Option ℕ × List AppliedRow × World
  unfolding read_rows
  load_applied w = read_rows (call env (query (select_applied w.runner.opts.table_name)) w)

  -- `record`: a row for a migration, or another one in its place.
  unfoldable pub record_row : Migration → ℕ → Bool → World → Option ℕ × World
  record_row m ms ok w = call env (exec (upsert_row w.runner.opts.table_name m ms ok)) w

  unfoldable pub after_commit : Migration → ℕ → Option ℕ × World → Option Error × World
  unfolding record_row
  after_commit m ms (some e, w) =
      let (ignored, w') = record_row m ms false w in (some (driver e), w')
  after_commit m ms (none, w) = let (e, w') = record_row m ms true w in (wrapped e, w')

  -- The time that the statement took, in milliseconds, is that of the clock after it.
  unfoldable pub after_exec : Migration → Option ℕ × World → Option Error × World
  unfolding record_row after_commit
  after_exec m (some e, w) =
      let (ignored, w1) = call env rollback w in
      let (ignored', w2) = record_row m (env.millis w.trace) false w1 in
      (some (migration_failed m.version e), w2)
  after_exec m (none, w) = after_commit m (env.millis w.trace) (call env commit w)

  unfoldable pub after_begin : Migration → Option ℕ × World → Option Error × World
  unfolding after_exec
  after_begin m (some e, w) = (some (driver e), w)
  after_begin m (none, w) = after_exec m (call env (exec_tx m.sql) w)

  unfoldable pub apply_one : Migration → World → Option Error × World
  unfolding after_begin
  apply_one m w = after_begin m (call env begin_tx (logged (log_applying m.version m.name) w))

  -- The loop over the pending migrations.
  unfoldable pub apply_all : List Migration → World → Option Error × World
  apply_all [] w = (none, w)
  apply_all (m ∷ ms) w =
      let (e, w') = apply_one m w in
      let rest = apply_all ms w' in if is_some e then (e, w') else rest

  unfoldable pub after_delete : Migration → Option ℕ × World → Option Error × World
  after_delete m (some e, w) = let (ignored, w') = call env rollback w in (some (driver e), w')
  after_delete m (none, w) =
      if eqb (env.affected w.trace) 1
      then (let (e, w') = call env commit w in (wrapped e, w'))
      else (let (ignored, w') = call env rollback w in
          (some (no_row_deleted m.version w.runner.opts.table_name), w'))

  -- The row is deleted in the transaction of the down statement.
  unfoldable pub after_down : Migration → Option ℕ × World → Option Error × World
  unfolding after_delete
  after_down m (some e, w) =
      let (ignored, w') = call env rollback w in (some (revert_failed m.version e), w')
  after_down m (none, w) =
      after_delete m
        (call env (exec_tx_statement (delete_row w.runner.opts.table_name m.version)) w)

  unfoldable pub after_begin_down : Migration → Option ℕ × World → Option Error × World
  unfolding after_down
  after_begin_down m (some e, w) = (some (driver e), w)
  after_begin_down m (none, w) =
      after_down m (if trim_space m.sql == [] then (none, w) else call env (exec_tx m.sql) w)

  unfoldable pub revert_one : Migration → World → Option Error × World
  unfolding after_begin_down
  revert_one m w =
      after_begin_down m (call env begin_tx (logged (log_reverting m.version m.name) w))

  unfoldable pub unlock : Outcome × World → Outcome × World
  unlock (o, w) =
      let (ignored, w') = call env (exec (advisory_unlock w.runner.opts.lock_key)) w in (o, w')

  unfoldable pub after_lock : (World → Outcome × World) → Option ℕ × World → Outcome × World
  unfolding unlock
  after_lock body (some e, w) = (returned (some (driver e)), w)
  after_lock body (none, w) = unlock (body w)

  -- `withLock`: the deferred unlock follows the body however it ends.
  unfoldable pub with_lock : (World → Outcome × World) → World → Outcome × World
  unfolding after_lock
  with_lock body w = after_lock body (call env (exec (advisory_lock w.runner.opts.lock_key)) w)

  abbrev pub as_outcome : Option Error × World → Outcome × World
  as_outcome (e, w) = (returned e, w)

  unfoldable pub apply_pending : Pending → World → Outcome × World
  apply_pending (mismatch v have want) w = (panicked v have want, w)
  apply_pending (pending []) w = (returned none, logged log_up_to_date w)
  apply_pending (pending (m ∷ ms)) w = as_outcome (apply_all (m ∷ ms) w)

  unfoldable pub with_applied : Option ℕ × List AppliedRow × World → Outcome × World
  unfolding apply_pending
  with_applied (some e, rows, w) = (returned (some (driver e)), w)
  with_applied (none, rows, w) = apply_pending (pending_up w.runner.migrations rows) w

  -- The latest successful row and what is done about it; `find` takes the first migration down.
  unfoldable pub find : ℕ → Direction → List Migration → Option Migration
  find version dir [] = none
  find version dir (m ∷ ms) =
      let rest = find version dir ms in
      if eqb m.version version && same_dir m.dir dir then some m else rest

  unfoldable pub latest_success : List AppliedRow → Option AppliedRow
  latest_success [] = none
  latest_success (a ∷ rest) = or_else (latest_success rest) (if a.success then some a else none)

  unfoldable pub revert_found : AppliedRow → Option Migration → World → Outcome × World
  revert_found latest none w = (returned (some (no_down_migration latest.version latest.name)), w)
  revert_found latest (some m) w = as_outcome (revert_one m w)

  unfoldable pub revert_latest : Option AppliedRow → World → Outcome × World
  unfolding revert_found find
  revert_latest none w = (returned none, logged log_nothing w)
  revert_latest (some latest) w =
      revert_found latest (find latest.version down w.runner.migrations) w

  unfoldable pub down_with_applied : Option ℕ × List AppliedRow × World → Outcome × World
  unfolding revert_latest latest_success
  down_with_applied (some e, rows, w) = (returned (some (driver e)), w)
  down_with_applied (none, rows, w) = revert_latest (latest_success rows) w

  -- The arguments of the load, as in Migrator/Loading.antt.
  module _ (sum256 : Text → Text) (dir_fs : Text → Root) (embedded : List Root) where
    abbrev pub load : World → Option Error × World
    load w =
        let (e, r) = load_migrations sum256 dir_fs embedded w.runner in (e, record w { runner = r })

    -- The table, the migrations and the rows, in this order, and then `k`; an error ends it.
    unfoldable pub after_load :
        (Option ℕ × List AppliedRow × World → Outcome × World)
        → Option Error × World
        → Outcome × World
    after_load k (some e, w) = (returned (some e), w)
    after_load k (none, w) = k (load_applied w)

    unfoldable pub after_table :
        (Option ℕ × List AppliedRow × World → Outcome × World) → Option ℕ × World → Outcome × World
    unfolding after_load
    after_table k (some e, w) = (returned (some (driver e)), w)
    after_table k (none, w) = after_load k (load w)

    unfoldable pub up_body : World → Outcome × World
    unfolding after_table
    up_body w = after_table with_applied (ensure_table w)

    unfoldable pub down_body : World → Outcome × World
    unfolding after_table
    down_body w = after_table down_with_applied (ensure_table w)

    unfoldable pub run_up : World → Outcome × World
    run_up w = with_lock up_body w

    unfoldable pub run_down : World → Outcome × World
    run_down w =
        if w.runner.opts.allow_dangerous_down
        then with_lock down_body w
        else (returned (some down_disabled), w)
