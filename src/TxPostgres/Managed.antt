-- ===== src/TxPostgres/Managed.antt =====
-- txpostgres/txpostgres.go over the interfaces of ports/ports.go: for any pool, and any function that is
-- given the transaction, on whatever world these act.
use api_toolkit.Prelude.{ℕ, none, some, String}
use api_toolkit.Ports.Database.{
  Result, ok, failed, Op, DatabaseRows, DatabaseRow, DatabaseResult, DatabaseTransaction,
  DatabaseConnection, DatabasePool,
}
use api_toolkit.Ports.Services.{TxManager}
use api_toolkit.TxPostgres.{Outcome, returned, panicked}

pub record Manager (W : Type 0) : Type 0 where
  pub pool : DatabasePool W

unfoldable pub new : {W : Type 0} → DatabasePool W → Manager W
new pool = record { pool = pool }

-- The value of a context under `txKey`.
pub data TxValue (W : Type 0) : Type 0 where
  absent another : TxValue W
  transaction : DatabaseTransaction W → TxValue W

-- A function given to `WithinTx`, by the value of its context; it ends by a return or by a panic.
abbrev pub Fn : Type 0 → Type 0
Fn W = TxValue W → Op W Outcome

pub record Dber (W : Type 0) : Type 0 where
  pub exec : String → Op W (Result DatabaseResult)
  pub query : String → Op W (Result (DatabaseRows W))
  pub query_row : String → Op W (DatabaseRow W)

module _ {W : Type 0} where
  -- The deferred calls, on every way out.
  abbrev pub then_release : DatabaseConnection W → Outcome × W → Outcome × W
  then_release conn (o, w) = (o, conn.release w)

  abbrev pub then_rollback : DatabaseTransaction W → Outcome × W → Outcome × W
  then_rollback tx (o, w) = let (ignored, w') = tx.rollback w in (o, w')

  abbrev pub after_fn : DatabaseTransaction W → Outcome × W → Outcome × W
  after_fn tx (returned none, w) = let (e, w') = tx.commit w in (returned e, w')
  after_fn tx (returned (some e), w) = (returned (some e), w)
  after_fn tx (panicked v, w) = (panicked v, w)

  unfoldable pub after_start : Fn W → Result (DatabaseTransaction W) × W → Outcome × W
  after_start fn (failed e, w) = (returned (some e), w)
  after_start fn (ok tx, w) = then_rollback tx (after_fn tx (fn (transaction tx) w))

  unfoldable pub after_acquire : Fn W → Result (DatabaseConnection W) × W → Outcome × W
  unfolding after_start
  after_acquire fn (failed e, w) = (returned (some e), w)
  after_acquire fn (ok conn, w) = then_release conn (after_start fn (conn.start w))

  unfoldable pub within_tx : Manager W → Fn W → W → Outcome × W
  unfolding after_acquire
  within_tx m fn w = after_acquire fn (m.pool.acquire w)

  -- The manager as the interface that it implements.
  unfoldable pub manager_port : Manager W → TxManager W (TxValue W) Outcome
  unfolding within_tx
  manager_port m = record { within_tx = within_tx m }

  -- `rowsWithRelease` and `rowWithRelease`.
  unfoldable pub rows_with_release : DatabaseRows W → DatabaseConnection W → DatabaseRows W
  rows_with_release rows conn = record {
    next = rows.next;
    scan = rows.scan;
    close = λ w. conn.release (rows.close w);
    rows_error = rows.rows_error;
  }

  unfoldable pub row_with_release : DatabaseRow W → DatabaseConnection W → DatabaseRow W
  row_with_release row conn = record {
    scan = λ w. let (e, w') = row.scan w in (e, conn.release w');
  }

  unfoldable pub err_row : ℕ → DatabaseRow W
  err_row e = record { scan = λ w. (some e, w) }

  unfoldable pub exec_on : String → Result (DatabaseConnection W) × W → Result DatabaseResult × W
  exec_on sql (failed e, w) = (failed e, w)
  exec_on sql (ok conn, w) = let (r, w') = conn.exec sql w in (r, conn.release w')

  unfoldable pub query_result :
      DatabaseConnection W → Result (DatabaseRows W) × W → Result (DatabaseRows W) × W
  unfolding rows_with_release
  query_result conn (failed e, w) = (failed e, conn.release w)
  query_result conn (ok rows, w) = (ok (rows_with_release rows conn), w)

  unfoldable pub query_on : String → Result (DatabaseConnection W) × W → Result (DatabaseRows W) × W
  unfolding query_result
  query_on sql (failed e, w) = (failed e, w)
  query_on sql (ok conn, w) = query_result conn (conn.query sql w)

  unfoldable pub query_row_on : String → Result (DatabaseConnection W) × W → DatabaseRow W × W
  unfolding row_with_release err_row
  query_row_on sql (failed e, w) = (err_row e, w)
  query_row_on sql (ok conn, w) =
      let (row, w') = conn.query_row sql w in (row_with_release row conn, w')

  unfoldable pub pooled_facade : DatabasePool W → Dber W
  unfolding exec_on query_on query_row_on
  pooled_facade pool = record {
    exec = λ sql w. exec_on sql (pool.acquire w);
    query = λ sql w. query_on sql (pool.acquire w);
    query_row = λ sql w. query_row_on sql (pool.acquire w);
  }

  unfoldable pub from_ctx : TxValue W → DatabasePool W → Dber W
  unfolding pooled_facade
  from_ctx (transaction tx) pool = record {
    exec = tx.exec;
    query = tx.query;
    query_row = tx.query_row;
  }
  from_ctx absent pool = pooled_facade pool
  from_ctx another pool = pooled_facade pool
