-- ===== src/Pgxpool/Driver.antt =====
-- What pgxpool/pgxpool.go calls of the driver pgx, as parameters: the methods of its pool, connection,
-- transaction, rows and row.
use api_toolkit.Prelude.{Bool, String}
use api_toolkit.Prelude.Int.{ℤ}
use api_toolkit.Ports.Database.{Result, Op, Error}

pub record PgxRows (W : Type 0) : Type 0 where
  pub next : Op W Bool
  pub scan : Op W Error
  pub close : W → W
  pub rows_error : W → Error

pub record PgxRow (W : Type 0) : Type 0 where
  pub scan : Op W Error

pub record CommandTag : Type 0 where
  pub rows_affected : ℤ

pub record PgxTx (W : Type 0) : Type 0 where
  pub query : String → Op W (Result (PgxRows W))
  pub query_row : String → Op W (PgxRow W)
  pub exec : String → Op W (Result CommandTag)
  pub commit : Op W Error
  pub rollback : Op W Error

pub record PgxConn (W : Type 0) : Type 0 where
  pub query : String → Op W (Result (PgxRows W))
  pub query_row : String → Op W (PgxRow W)
  pub exec : String → Op W (Result CommandTag)
  pub start : Op W (Result (PgxTx W))
  pub release : W → W

pub record PgxStat : Type 0 where
  pub acquire_count : ℤ
  pub acquire_duration : ℤ
  pub acquired_conns : ℤ
  pub canceled_acquire_count : ℤ
  pub constructing_conns : ℤ
  pub empty_acquire_count : ℤ
  pub idle_conns : ℤ
  pub max_conns : ℤ
  pub new_conns_count : ℤ
  pub total_conns : ℤ

pub record PgxPool (W : Type 0) : Type 0 where
  pub ping : Op W Error
  pub close : W → W
  pub acquire : Op W (Result (PgxConn W))
  pub stat : W → PgxStat
