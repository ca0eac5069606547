-- ===== src/Pgxpool/Transacting.antt =====
-- txpostgres/txpostgres.go over the adapter of pgxpool/pgxpool.go.
use api_toolkit.Prelude.{◌≡◌, refl, String}
use api_toolkit.Ports.Database.{Result, ok, failed, Op, map_ok, DatabasePool}
use api_toolkit.Ports.Ledger.{Ledger, Keeps}
use api_toolkit.TxPostgres.Managed
use api_toolkit.TxPostgres.Managed.{TxValue, Fn, within_tx, from_ctx}
use api_toolkit.TxPostgres.Balance.{IsTidy, IsDber, IsContext, within_tx-Keeps, from_ctx-IsDber}
use api_toolkit.Pgxpool.{pool_port, new}
use api_toolkit.Pgxpool.Driver.{PgxPool}
use api_toolkit.Pgxpool.Laws.{IsPgxPool, pool_port-IsPool}

module _ {W : Type 0} (view : W → Ledger) where
  -- A pool of the driver that does what pgx documents, or an error.
  abbrev pub OkPgxPool : Result (PgxPool W) → Type 0
  OkPgxPool (ok pool) = IsPgxPool view pool
  OkPgxPool (failed e) = Unit

  -- What transactions and contexts over a pool leave of the ledger.
  abbrev pub Balanced : TxValue W → Fn W → Result (DatabasePool W) → Result (PgxPool W) → Type 0
  Balanced value fn (failed e) (failed e') = e ≡ e'
  Balanced value fn (ok pool) (ok driver) =
      Keeps view (within_tx (Managed.new pool) fn) × IsDber view (from_ctx value pool)
  Balanced value fn _ _ = ⊥

  -- `New` gives a pool exactly where the driver does, and else the driver's error. Over such a pool
  -- `WithinTx` of a function that gives back what it takes leaves every connection returned and every
  -- transaction closed, and what `FromCtx` gives for any context leaks no connection either.
  pub new-Balanced :
      (connect : String → Op W (Result (PgxPool W))) (dsn : String) (w : W) (value : TxValue W)
      (fn : Fn W)
      → OkPgxPool (connect dsn w).0
      → IsContext view value
      → IsTidy view fn
      → Balanced value fn (new connect dsn w).0 (connect dsn w).0
  unfolding new Managed.new
  new-Balanced connect dsn w value fn h context tidy = connected (connect dsn w).0 h
    where
      connected :
          (r : Result (PgxPool W))
          → OkPgxPool r
          → Balanced value fn (map_ok (λ pool. pool_port (record { pool = pool })) r) r
      connected (failed e) h = refl
      connected (ok driver) h =
          let adapted = pool_port (record { pool = driver }) in
          let p = pool_port-IsPool view driver h in
          (
            within_tx-Keeps view (Managed.new adapted) fn p tidy,
            from_ctx-IsDber view value adapted context p,
          )
