-- ===== src/TxPostgres/Balance.antt =====
-- Connections and transactions of txpostgres/txpostgres.go, for any pool that keeps the promises of
-- Ports/Ledger.antt.
use api_toolkit.Prelude.{ℕ, ◌≡◌, ap, ◌∙◌, false, none, some, String}
use api_toolkit.Ports.Database.{
  Result, ok, failed, DatabaseRows, DatabaseRow, DatabaseTransaction, DatabaseConnection,
  DatabasePool,
}
use api_toolkit.Ports.Ledger.{
  Ledger, is_in, take_conn, drop_conn, open_tx, close_tx, Keeps, OkRows, IsTx, Begins, IsConnection,
  Takes, IsPool, drop_conn-take_conn, close_tx-open_tx, close_tx_absent,
}
use api_toolkit.TxPostgres.{Outcome, returned, panicked}
use api_toolkit.TxPostgres.Managed.{
  Manager, TxValue, absent, another, transaction, Fn, Dber, then_release, then_rollback, after_fn,
  after_start, after_acquire, within_tx, exec_on, query_result, query_on, query_row_on,
  rows_with_release, row_with_release, err_row, pooled_facade, from_ctx,
}

module _ {W : Type 0} (view : W → Ledger) where
  -- A function that, in any transaction, gives back what it takes and leaves the transaction alone.
  abbrev pub IsTidy : Fn W → Type 0
  IsTidy fn =
      (i : ℕ) (tx : DatabaseTransaction W) → IsTx view i tx → Keeps view (fn (transaction tx))

  then_release-view :
      (i : ℕ) (conn : DatabaseConnection W) (w : W) (r : Outcome × W)
      → IsConnection view i conn
      → view r.1 ≡ take_conn i (view w)
      → view (then_release conn r).1 ≡ view w
  then_release-view i conn w (o, w') c h =
      c.release_drops w' ∙ ap (drop_conn i) h ∙ drop_conn-take_conn i (view w)

  -- After a commit the rollback finds nothing to close.
  rolled_back :
      (i : ℕ) (tx : DatabaseTransaction W) (l : Ledger) (r : Outcome × W)
      → IsTx view i tx
      → is_in i l.txs ≡ false
      → view r.1 ≡ open_tx i l
      → view (then_rollback tx (after_fn tx r)).1 ≡ l
  rolled_back i tx l (returned none, w) t fresh h =
      t.rollback_closes (tx.commit w).1
      ∙ ap (close_tx i) (t.commit_closes w ∙ ap (close_tx i) h ∙ close_tx-open_tx i l)
      ∙ close_tx_absent i l fresh
  rolled_back i tx l (returned (some e), w) t fresh h =
      t.rollback_closes w ∙ ap (close_tx i) h ∙ close_tx-open_tx i l
  rolled_back i tx l (panicked v, w) t fresh h =
      t.rollback_closes w ∙ ap (close_tx i) h ∙ close_tx-open_tx i l

  module _ (fn : Fn W) (tidy : IsTidy fn) where
    after_start-view :
        (w : W) (r : Result (DatabaseTransaction W) × W)
        → Begins view w r
        → view (after_start fn r).1 ≡ view w
    unfolding after_start
    after_start-view w (failed e, w') h = h
    after_start-view w (ok tx, w') (i, t, opened, fresh) =
        rolled_back i tx (view w) (fn (transaction tx) w') t fresh (tidy i tx t w' ∙ opened)

    after_acquire-view :
        (w : W) (r : Result (DatabaseConnection W) × W)
        → Takes view w r
        → view (after_acquire fn r).1 ≡ view w
    unfolding after_acquire
    after_acquire-view w (failed e, w') h = h
    after_acquire-view w (ok conn, w') (i, c, taken) =
        then_release-view i conn w (after_start fn (conn.start w')) c
          (after_start-view w' (conn.start w') (c.start_begins w') ∙ taken)

  -- With any pool that keeps its promises, on any world: if the function gives back what it takes in
  -- whatever transaction it gets, `WithinTx` leaves exactly the connections taken out and the
  -- transactions open that were so before, however the pool answers and the function ends. So it is
  -- again such a function, and calls of `WithinTx` nest.
  pub within_tx-Keeps :
      (m : Manager W) (fn : Fn W) → IsPool view m.pool → IsTidy fn → Keeps view (within_tx m fn)
  unfolding within_tx
  within_tx-Keeps m fn p tidy w =
      after_acquire-view fn tidy w (m.pool.acquire w) (p.acquire_takes w)

  -- Rows, or a row, that give the ledger back to `l` when they are closed or scanned.
  abbrev pub Restored : Ledger → Result (DatabaseRows W) × W → Type 0
  Restored l (failed e, w) = view w ≡ l
  Restored l (ok rows, w) =
      Keeps view rows.next
      × Keeps view rows.scan
      × ((w' : W) → view w' ≡ view w → view (rows.close w') ≡ l)

  abbrev pub RestoredByScan : Ledger → DatabaseRow W × W → Type 0
  RestoredByScan l (row, w) = (w' : W) → view w' ≡ view w → view (row.scan w').1 ≡ l

  pub record IsDber (d : Dber W) : Type 0 where
    pub exec_keeps : (sql : String) → Keeps view (d.exec sql)
    pub query_restores : (sql : String) (w : W) → Restored (view w) (d.query sql w)
    pub query_row_restores : (sql : String) (w : W) → RestoredByScan (view w) (d.query_row sql w)

  -- A context without a transaction, or with one that keeps its promises.
  abbrev pub IsContext : TxValue W → Type 0
  IsContext (transaction tx) = (i : ℕ) × IsTx view i tx
  IsContext _ = Unit

  exec_on-view :
      (sql : String) (w : W) (r : Result (DatabaseConnection W) × W)
      → Takes view w r
      → view (exec_on sql r).1 ≡ view w
  unfolding exec_on
  exec_on-view sql w (failed e, w') h = h
  exec_on-view sql w (ok conn, w') (i, c, taken) =
      c.release_drops (conn.exec sql w').1
      ∙ ap (drop_conn i) (c.exec_keeps sql w' ∙ taken)
      ∙ drop_conn-take_conn i (view w)

  query_result-Restored :
      (i : ℕ) (conn : DatabaseConnection W) (l : Ledger) (r : Result (DatabaseRows W) × W)
      → IsConnection view i conn
      → OkRows view r.0
      → view r.1 ≡ take_conn i l
      → Restored l (query_result conn r)
  unfolding query_result rows_with_release
  query_result-Restored i conn l (failed e, w) c h taken =
      c.release_drops w ∙ ap (drop_conn i) taken ∙ drop_conn-take_conn i l
  query_result-Restored i conn l (ok rows, w) c h taken = (
    h.next_keeps,
    h.scan_keeps,
    λ w' same.
        c.release_drops (rows.close w')
        ∙ ap (drop_conn i) (h.close_keeps w' ∙ same ∙ taken)
        ∙ drop_conn-take_conn i l,
  )

  query_on-Restored :
      (sql : String) (w : W) (r : Result (DatabaseConnection W) × W)
      → Takes view w r
      → Restored (view w) (query_on sql r)
  unfolding query_on
  query_on-Restored sql w (failed e, w') h = h
  query_on-Restored sql w (ok conn, w') (i, c, taken) =
      query_result-Restored i conn (view w) (conn.query sql w') c (c.query_rows sql w')
        (c.query_keeps sql w' ∙ taken)

  query_row_on-Restored :
      (sql : String) (w : W) (r : Result (DatabaseConnection W) × W)
      → Takes view w r
      → RestoredByScan (view w) (query_row_on sql r)
  unfolding query_row_on row_with_release err_row
  query_row_on-Restored sql w (failed e, w') h w'' same = same ∙ h
  query_row_on-Restored sql w (ok conn, w') (i, c, taken) w'' same =
      let row = (conn.query_row sql w').0 in
      c.release_drops (row.scan w'').1
      ∙ ap (drop_conn i) (c.query_row_row sql w' w'' ∙ same ∙ c.query_row_keeps sql w' ∙ taken)
      ∙ drop_conn-take_conn i (view w)

  of_tx :
      (l : Ledger) (r : Result (DatabaseRows W) × W) → OkRows view r.0 → view r.1 ≡ l → Restored l r
  of_tx l (failed e, w) h same = same
  of_tx l (ok rows, w) h same = (h.next_keeps, h.scan_keeps, λ w' e. h.close_keeps w' ∙ e ∙ same)

  pooled_facade-IsDber : (pool : DatabasePool W) → IsPool view pool → IsDber (pooled_facade pool)
  unfolding pooled_facade
  pooled_facade-IsDber pool p = record {
    exec_keeps = λ sql w. exec_on-view sql w (pool.acquire w) (p.acquire_takes w);
    query_restores = λ sql w. query_on-Restored sql w (pool.acquire w) (p.acquire_takes w);
    query_row_restores = λ sql w. query_row_on-Restored sql w (pool.acquire w) (p.acquire_takes w);
  }

  -- What `FromCtx` gives, the transaction of the context or the facade of the pool, leaks no
  -- connection: `Exec` leaves the ledger as it was, `Query` does so with an error and otherwise with
  -- the `Close` of its rows, and `QueryRow` with the `Scan` of its row.
  pub from_ctx-IsDber :
      (value : TxValue W) (pool : DatabasePool W)
      → IsContext value
      → IsPool view pool
      → IsDber (from_ctx value pool)
  unfolding from_ctx
  from_ctx-IsDber (transaction tx) pool (i, t) p = record {
    exec_keeps = t.exec_keeps;
    query_restores =
        λ sql w. of_tx (view w) (tx.query sql w) (t.query_rows sql w) (t.query_keeps sql w);
    query_row_restores = λ sql w w' same. t.query_row_row sql w w' ∙ same ∙ t.query_row_keeps sql w;
  }
  from_ctx-IsDber absent pool h p = pooled_facade-IsDber pool p
  from_ctx-IsDber another pool h p = pooled_facade-IsDber pool p
