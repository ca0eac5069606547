-- ===== src/Pgxpool/Laws.antt =====
-- What the driver pgx documents of its pool, on the ledger of Ports/Ledger.antt, and that the adapter of
-- pgxpool/pgxpool.go promises the same of the interfaces.
use api_toolkit.Prelude.{ℕ, ◌≡◌, false, String}
use api_toolkit.Ports.Database.{Result, ok, failed}
use api_toolkit.Ports.Ledger.{
  Ledger, is_in, take_conn, drop_conn, open_tx, close_tx, Keeps, OkRows, IsTx, Begins, IsConnection,
  Takes, IsPool,
}
use api_toolkit.Pgxpool.{
  rows_port, row_port, as_rows, as_row, as_result, transaction_port, as_transaction,
  connection_port, as_connection, pool_port,
}
use api_toolkit.Pgxpool.Driver.{PgxRows, PgxTx, PgxConn, PgxPool}

module _ {W : Type 0} (view : W → Ledger) where
  pub record IsPgxRows (rows : PgxRows W) : Type 0 where
    pub next_keeps : Keeps view rows.next
    pub scan_keeps : Keeps view rows.scan
    pub close_keeps : (w : W) → view (rows.close w) ≡ view w

  abbrev pub OkPgxRows : Result (PgxRows W) → Type 0
  OkPgxRows (ok rows) = IsPgxRows rows
  OkPgxRows (failed e) = Unit

  pub record IsPgxTx (i : ℕ) (tx : PgxTx W) : Type 0 where
    pub query_keeps : (sql : String) → Keeps view (tx.query sql)
    pub query_rows : (sql : String) (w : W) → OkPgxRows (tx.query sql w).0
    pub query_row_keeps : (sql : String) → Keeps view (tx.query_row sql)
    pub query_row_row : (sql : String) (w : W) → Keeps view (tx.query_row sql w).0.scan
    pub exec_keeps : (sql : String) → Keeps view (tx.exec sql)
    pub commit_closes : (w : W) → view (tx.commit w).1 ≡ close_tx i (view w)
    pub rollback_closes : (w : W) → view (tx.rollback w).1 ≡ close_tx i (view w)

  abbrev pub PgxBegins : W → Result (PgxTx W) × W → Type 0
  PgxBegins w (failed e, w') = view w' ≡ view w
  PgxBegins w (ok tx, w') =
      (i : ℕ) × IsPgxTx i tx × (view w' ≡ open_tx i (view w)) × (is_in i (view w).txs ≡ false)

  pub record IsPgxConn (i : ℕ) (conn : PgxConn W) : Type 0 where
    pub query_keeps : (sql : String) → Keeps view (conn.query sql)
    pub query_rows : (sql : String) (w : W) → OkPgxRows (conn.query sql w).0
    pub query_row_keeps : (sql : String) → Keeps view (conn.query_row sql)
    pub query_row_row : (sql : String) (w : W) → Keeps view (conn.query_row sql w).0.scan
    pub exec_keeps : (sql : String) → Keeps view (conn.exec sql)
    pub start_begins : (w : W) → PgxBegins w (conn.start w)
    pub release_drops : (w : W) → view (conn.release w) ≡ drop_conn i (view w)

  abbrev pub PgxTakes : W → Result (PgxConn W) × W → Type 0
  PgxTakes w (failed e, w') = view w' ≡ view w
  PgxTakes w (ok conn, w') = (i : ℕ) × IsPgxConn i conn × (view w' ≡ take_conn i (view w))

  pub record IsPgxPool (pool : PgxPool W) : Type 0 where
    pub ping_keeps : Keeps view pool.ping
    pub acquire_takes : (w : W) → PgxTakes w (pool.acquire w)

  as_rows-OkRows : (r : Result (PgxRows W) × W) → OkPgxRows r.0 → OkRows view (as_rows r).0
  unfolding as_rows rows_port
  as_rows-OkRows (failed e, w) h = h
  as_rows-OkRows (ok rows, w) h = record {
    next_keeps = h.next_keeps;
    scan_keeps = h.scan_keeps;
    close_keeps = h.close_keeps;
  }

  transaction_port-IsTx :
      (i : ℕ) (tx : PgxTx W) → IsPgxTx i tx → IsTx view i (transaction_port (record { tx = tx }))
  unfolding transaction_port as_rows as_row as_result row_port
  transaction_port-IsTx i tx h = record {
    query_keeps = h.query_keeps;
    query_rows = λ sql w. as_rows-OkRows (tx.query sql w) (h.query_rows sql w);
    query_row_keeps = h.query_row_keeps;
    query_row_row = h.query_row_row;
    exec_keeps = h.exec_keeps;
    commit_closes = h.commit_closes;
    rollback_closes = h.rollback_closes;
  }

  as_transaction-Begins :
      (w : W) (r : Result (PgxTx W) × W) → PgxBegins w r → Begins view w (as_transaction r)
  unfolding as_transaction
  as_transaction-Begins w (failed e, w') h = h
  as_transaction-Begins w (ok tx, w') (i, t, opened, fresh) =
      (i, transaction_port-IsTx i tx t, opened, fresh)

  connection_port-IsConnection :
      (i : ℕ) (conn : PgxConn W)
      → IsPgxConn i conn
      → IsConnection view i (connection_port (record { conn = conn }))
  unfolding connection_port as_rows as_row as_result row_port
  connection_port-IsConnection i conn h = record {
    query_keeps = h.query_keeps;
    query_rows = λ sql w. as_rows-OkRows (conn.query sql w) (h.query_rows sql w);
    query_row_keeps = h.query_row_keeps;
    query_row_row = h.query_row_row;
    exec_keeps = h.exec_keeps;
    start_begins = λ w. as_transaction-Begins w (conn.start w) (h.start_begins w);
    release_drops = h.release_drops;
  }

  as_connection-Takes :
      (w : W) (r : Result (PgxConn W) × W) → PgxTakes w r → Takes view w (as_connection r)
  unfolding as_connection
  as_connection-Takes w (failed e, w') h = h
  as_connection-Takes w (ok conn, w') (i, c, taken) =
      (i, connection_port-IsConnection i conn c, taken)

  -- The adapter of a driver's pool that does what pgx documents keeps the promises of the interface:
  -- its connections, their transactions and the rows of both, wrapped, change the ledger as the
  -- interface says, and an error passes through with nothing taken.
  pub pool_port-IsPool :
      (pool : PgxPool W) → IsPgxPool pool → IsPool view (pool_port (record { pool = pool }))
  unfolding pool_port
  pool_port-IsPool pool h = record {
    ping_keeps = h.ping_keeps;
    acquire_takes = λ w. as_connection-Takes w (pool.acquire w) (h.acquire_takes w);
  }
