-- ===== src/TxPostgres.antt =====
-- txpostgres/txpostgres.go: transactions around a function, and the facade that takes a connection of
-- the pool for each operation. The pool and the function are not under txpostgres/: an `Env` answers
-- each call by the calls made before it.
pub mod Protocol
pub mod Managed
pub mod Balance
pub mod Atomic
pub mod Traced
mod Tests
mod Scenarios
use api_toolkit.Prelude.{
  ℕ, ◌≡◌, refl, Bool, true, false, List, [], ◌∷◌, ◌++◌, Option, none, some, String,
}

-- The calls on the pool, the connection and the transaction. A `statement` is one that the function
-- runs in the transaction; the other operations are those of the connection itself.
pub data Call : Type 0 where
  acquire release begin commit rollback : Call
  statement exec query query_row : String → Call
  rows_close row_scan : Call

-- The calls made, the last one first, each with its error.
abbrev pub Trace : Type 0
Trace = List (Call × Option ℕ)

-- How a function given to `WithinTx` ends.
pub data Outcome : Type 0 where
  returned : Option ℕ → Outcome
  panicked : ℕ → Outcome

-- `fn` tells the statements that the function runs, each with its error, and how it ends.
pub record Env : Type 0 where
  pub error : Trace → Call → Option ℕ
  pub fn : Trace → List (String × Option ℕ) × Outcome

unfoldable pub call : Env → Call → Trace → Option ℕ × Trace
call env c t = (env.error t c, (c, env.error t c) ∷ t)

unfoldable pub statements : List (String × Option ℕ) → Trace → Trace
statements [] t = t
statements ((sql, e) ∷ rest) t = statements rest ((statement sql, e) ∷ t)

module _ (env : Env) where
  -- The deferred `conn.Release()`.
  unfoldable pub then_release : Outcome × Trace → Outcome × Trace
  then_release (o, t) = let (ignored, t') = call env release t in (o, t')

  -- The deferred `tx.Rollback(ctx)`, whose error is dropped.
  unfoldable pub then_rollback : Outcome × Trace → Outcome × Trace
  then_rollback (o, t) = let (ignored, t') = call env rollback t in (o, t')

  -- What follows the function: the commit where it returned no error.
  unfoldable pub after_fn : Outcome → Trace → Outcome × Trace
  after_fn (returned none) t = let (e, t') = call env commit t in (returned e, t')
  after_fn (returned (some e)) t = (returned (some e), t)
  after_fn (panicked v) t = (panicked v, t)

  unfoldable pub in_tx : Trace → Outcome × Trace
  unfolding after_fn
  in_tx t = let (ran, end) = env.fn t in after_fn end (statements ran t)

  unfoldable pub after_begin : Option ℕ × Trace → Outcome × Trace
  unfolding in_tx then_rollback
  after_begin (some e, t) = (returned (some e), t)
  after_begin (none, t) = then_rollback (in_tx t)

  unfoldable pub after_acquire : Option ℕ × Trace → Outcome × Trace
  unfolding after_begin then_release
  after_acquire (some e, t) = (returned (some e), t)
  after_acquire (none, t) = then_release (after_begin (call env begin t))

  unfoldable pub within_tx : Trace → Outcome × Trace
  unfolding after_acquire
  within_tx t = after_acquire (call env acquire t)

  -- `pooledFacade`. The error of the operation, or none with a result that the caller uses.
  unfoldable pub exec_acquired : String → Option ℕ × Trace → Option ℕ × Trace
  exec_acquired sql (some e, t) = (some e, t)
  exec_acquired sql (none, t) =
      let (e, t1) = call env (exec sql) t in let (ignored, t2) = call env release t1 in (e, t2)

  unfoldable pub pooled_exec : String → Trace → Option ℕ × Trace
  unfolding exec_acquired
  pooled_exec sql t = exec_acquired sql (call env acquire t)

  unfoldable pub query_done : Option ℕ × Trace → Option ℕ × Trace
  query_done (some e, t) = let (ignored, t') = call env release t in (some e, t')
  query_done (none, t) = (none, t)

  unfoldable pub query_acquired : String → Option ℕ × Trace → Option ℕ × Trace
  unfolding query_done
  query_acquired sql (some e, t) = (some e, t)
  query_acquired sql (none, t) = query_done (call env (query sql) t)

  -- Without an error the rows keep the connection until `rows_with_release_close`.
  unfoldable pub pooled_query : String → Trace → Option ℕ × Trace
  unfolding query_acquired
  pooled_query sql t = query_acquired sql (call env acquire t)

  unfoldable pub rows_with_release_close : Trace → Trace
  rows_with_release_close t =
      let (ignored, t1) = call env rows_close t in let (ignored', t2) = call env release t1 in t2

  -- The row: `errRow` with its error, or one that keeps the connection until it is scanned.
  unfoldable pub row_acquired : String → Option ℕ × Trace → Option ℕ × Trace
  row_acquired sql (some e, t) = (some e, t)
  row_acquired sql (none, t) = let (ignored, t') = call env (query_row sql) t in (none, t')

  unfoldable pub pooled_query_row : String → Trace → Option ℕ × Trace
  unfolding row_acquired
  pooled_query_row sql t = row_acquired sql (call env acquire t)

  -- `Scan` of the row that `pooled_query_row` gave.
  unfoldable pub row_with_release_scan : Option ℕ → Trace → Option ℕ × Trace
  row_with_release_scan (some e) t = (some e, t)
  row_with_release_scan none t =
      let (e, t1) = call env row_scan t in let (ignored, t2) = call env release t1 in (e, t2)

  -- A method of the transaction: `WithinTx` counts it among the statements.
  unfoldable pub tx_exec : String → Trace → Option ℕ × Trace
  tx_exec sql t = call env (statement sql) t

-- The value under `txKey` in a context.
pub data TxValue : Type 0 where
  absent transaction another : TxValue

-- `DBer`, in the two forms that `FromCtx` gives.
pub data Dber : Type 0 where
  active_tx pooled_facade : Dber

unfoldable pub from_ctx : TxValue → Dber
from_ctx transaction = active_tx
from_ctx _ = pooled_facade

-- `FromCtx(ctx, pool).Exec(ctx, sql)`.
unfoldable pub exec_from_ctx : Env → TxValue → String → Trace → Option ℕ × Trace
unfolding from_ctx pooled_exec tx_exec
exec_from_ctx env value sql t = on (from_ctx value)
  where
    on : Dber → Option ℕ × Trace
    on active_tx = tx_exec env sql t
    on pooled_facade = pooled_exec env sql t
