-- ===== src/Pgxpool.antt =====
-- pgxpool/pgxpool.go: the adapter that makes a pool of the driver pgx a DatabasePool of ports/ports.go.
-- The driver is not code of the repository: what the adapter calls of it is a record of functions on
-- the world.
pub mod Driver
pub mod Laws
pub mod Transacting
mod Tests
use api_toolkit.Prelude.{ℕ, Bool, String}
use api_toolkit.Prelude.Int.{ℤ}
use api_toolkit.Ports.Database.{
  Result, ok, failed, Op, Error, wrap, DatabaseRows, DatabaseRow, DatabaseResult,
  DatabaseTransaction, DatabaseConnection, DatabaseStats, DatabasePool,
}
use api_toolkit.Pgxpool.Driver.{PgxRows, PgxRow, CommandTag, PgxTx, PgxConn, PgxStat, PgxPool}

pub record Rows (W : Type 0) : Type 0 where
  pub rows : PgxRows W

pub record Row (W : Type 0) : Type 0 where
  pub row : PgxRow W

pub record CommandResult : Type 0 where
  pub command_tag : CommandTag

pub record Transaction (W : Type 0) : Type 0 where
  pub tx : PgxTx W

pub record Connection (W : Type 0) : Type 0 where
  pub conn : PgxConn W

pub record Stats : Type 0 where
  pub stat : PgxStat

pub record Adapter (W : Type 0) : Type 0 where
  pub pool : PgxPool W

-- Each wrapper as the interface that it implements: the methods that the source declares, and those of
-- the embedded value.
unfoldable pub result_port : CommandResult → DatabaseResult
result_port r = record { rows_affected = r.command_tag.rows_affected }

unfoldable pub stats_port : Stats → DatabaseStats
stats_port s = record {
  acquire_count = s.stat.acquire_count;
  acquire_duration = s.stat.acquire_duration;
  acquired_conns = s.stat.acquired_conns;
  canceled_acquire_count = s.stat.canceled_acquire_count;
  constructing_conns = s.stat.constructing_conns;
  empty_acquire_count = s.stat.empty_acquire_count;
  idle_conns = s.stat.idle_conns;
  max_conns = s.stat.max_conns;
  new_conns_count = s.stat.new_conns_count;
  total_conns = s.stat.total_conns;
}

module _ {W : Type 0} where
  unfoldable pub rows_port : Rows W → DatabaseRows W
  rows_port r = record {
    next = r.rows.next;
    scan = r.rows.scan;
    close = r.rows.close;
    rows_error = r.rows.rows_error;
  }

  unfoldable pub row_port : Row W → DatabaseRow W
  row_port r = record { scan = r.row.scan }

  -- `&Rows{Rows: rows}` and its like, on the way out.
  unfoldable pub as_rows : Result (PgxRows W) × W → Result (DatabaseRows W) × W
  as_rows r = wrap (λ rows. rows_port (record { rows = rows })) r

  unfoldable pub as_row : PgxRow W × W → DatabaseRow W × W
  as_row (row, w) = (row_port (record { row = row }), w)

  unfoldable pub as_result : Result CommandTag × W → Result DatabaseResult × W
  as_result r = wrap (λ tag. result_port (record { command_tag = tag })) r

  unfoldable pub transaction_port : Transaction W → DatabaseTransaction W
  transaction_port t = record {
    query = λ sql w. as_rows (t.tx.query sql w);
    query_row = λ sql w. as_row (t.tx.query_row sql w);
    exec = λ sql w. as_result (t.tx.exec sql w);
    commit = t.tx.commit;
    rollback = t.tx.rollback;
  }

  unfoldable pub as_transaction : Result (PgxTx W) × W → Result (DatabaseTransaction W) × W
  as_transaction r = wrap (λ tx. transaction_port (record { tx = tx })) r

  unfoldable pub connection_port : Connection W → DatabaseConnection W
  connection_port c = record {
    query = λ sql w. as_rows (c.conn.query sql w);
    query_row = λ sql w. as_row (c.conn.query_row sql w);
    exec = λ sql w. as_result (c.conn.exec sql w);
    start = λ w. as_transaction (c.conn.start w);
    release = c.conn.release;
  }

  unfoldable pub as_connection : Result (PgxConn W) × W → Result (DatabaseConnection W) × W
  as_connection r = wrap (λ conn. connection_port (record { conn = conn })) r

  unfoldable pub pool_port : Adapter W → DatabasePool W
  pool_port a = record {
    ping = a.pool.ping;
    close = a.pool.close;
    acquire = λ w. as_connection (a.pool.acquire w);
    stat = λ w. stats_port (record { stat = a.pool.stat w });
  }

  -- `New`: `connect` is the driver's `New`.
  unfoldable pub new :
      (String → Op W (Result (PgxPool W))) → String → Op W (Result (DatabasePool W))
  new connect dsn w = wrap (λ pool. pool_port (record { pool = pool })) (connect dsn w)
