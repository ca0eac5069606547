-- ===== src/TxPostgres/Traced.antt =====
-- The two models of txpostgres/txpostgres.go agree: over a pool whose world is the list of the calls made
-- on it, the code over the interfaces is the code over calls.
use api_toolkit.Prelude.{ℕ, ◌≡◌, refl, ap, false, Option, none, some, String}
use api_toolkit.Prelude.Int.{pos}
use api_toolkit.Ports.Database.{
  Result, ok, failed, DatabaseRows, DatabaseRow, DatabaseResult, DatabaseTransaction,
  DatabaseConnection, DatabaseStats, DatabasePool,
}
use api_toolkit.TxPostgres.{
  acquire, release, begin, commit, rollback, statement, exec, query, query_row, rows_close,
  row_scan, Trace, Outcome, returned, panicked, Env, call, statements, then_release, then_rollback,
  after_fn, in_tx, after_begin, after_acquire, within_tx, exec_acquired, pooled_exec, query_done,
  query_acquired, pooled_query, row_acquired, pooled_query_row, row_with_release_scan,
}
use api_toolkit.TxPostgres.Managed
use api_toolkit.TxPostgres.Managed.{TxValue, Fn}

module _ {A : Type 0} (a : A) where
  abbrev answered : Option ℕ × Trace → Result A × Trace
  answered (none, t) = (ok a, t)
  answered (some e, t) = (failed e, t)

abbrev pub error_of : {A : Type 0} → Result A × Trace → Option ℕ × Trace
error_of (ok a, t) = (none, t)
error_of (failed e, t) = (some e, t)

abbrev pub no_stats : DatabaseStats
no_stats = record {
  acquire_count = pos 0;
  acquire_duration = pos 0;
  acquired_conns = pos 0;
  canceled_acquire_count = pos 0;
  constructing_conns = pos 0;
  empty_acquire_count = pos 0;
  idle_conns = pos 0;
  max_conns = pos 0;
  new_conns_count = pos 0;
  total_conns = pos 0;
}

-- A pool, each method of which makes one call.
module _ (env : Env) where
  abbrev rows : DatabaseRows Trace
  rows = record {
    next = λ t. (false, t);
    scan = λ t. (none, t);
    close = λ t. (call env rows_close t).1;
    rows_error = λ t. none;
  }

  abbrev row : DatabaseRow Trace
  row = record { scan = call env row_scan }

  abbrev result : DatabaseResult
  result = record { rows_affected = pos 0 }

  abbrev tx : DatabaseTransaction Trace
  tx = record {
    query = λ sql t. answered rows (call env (statement sql) t);
    query_row = λ sql t. (row, (call env (statement sql) t).1);
    exec = λ sql t. answered result (call env (statement sql) t);
    commit = call env commit;
    rollback = call env rollback;
  }

  abbrev conn : DatabaseConnection Trace
  conn = record {
    query = λ sql t. answered rows (call env (query sql) t);
    query_row = λ sql t. (row, (call env (query_row sql) t).1);
    exec = λ sql t. answered result (call env (exec sql) t);
    start = λ t. answered tx (call env begin t);
    release = λ t. (call env release t).1;
  }

  abbrev pub pool : DatabasePool Trace
  pool = record {
    ping = λ t. (none, t);
    close = λ t. t;
    acquire = λ t. answered conn (call env acquire t);
    stat = λ t. no_stats;
  }

  -- The function of the environment: it runs its statements, whatever its context.
  abbrev pub fn : Fn Trace
  fn value t = let (ran, end) = env.fn t in (end, statements ran t)

  after_fn-traced : (r : Outcome × Trace) → Managed.after_fn tx r ≡ after_fn env r.0 r.1
  unfolding after_fn
  after_fn-traced (returned none, t) = refl
  after_fn-traced (returned (some e), t) = refl
  after_fn-traced (panicked v, t) = refl

  after_start-traced :
      (r : Option ℕ × Trace) → Managed.after_start fn (answered tx r) ≡ after_begin env r
  unfolding Managed.after_start after_begin in_tx then_rollback
  after_start-traced (some e, t) = refl
  after_start-traced (none, t) =
      ap (Managed.then_rollback tx) (after_fn-traced ((env.fn t).1, statements (env.fn t).0 t))

  after_acquire-traced :
      (r : Option ℕ × Trace) → Managed.after_acquire fn (answered conn r) ≡ after_acquire env r
  unfolding Managed.after_acquire after_acquire then_release
  after_acquire-traced (some e, t) = refl
  after_acquire-traced (none, t) =
      ap (Managed.then_release conn) (after_start-traced (call env begin t))

  exec_on-traced :
      (sql : String) (r : Option ℕ × Trace)
      → error_of (Managed.exec_on sql (answered conn r)) ≡ exec_acquired env sql r
  unfolding Managed.exec_on exec_acquired
  exec_on-traced sql (some e, t) = refl
  exec_on-traced sql (none, t) = released (call env (exec sql) t)
    where
      released :
          (r : Option ℕ × Trace)
          → error_of ((answered result r).0, (call env release (answered result r).1).1)
            ≡ (r.0, (call env release r.1).1)
      released (some e, t') = refl
      released (none, t') = refl

  query_on-traced :
      (sql : String) (r : Option ℕ × Trace)
      → error_of (Managed.query_on sql (answered conn r)) ≡ query_acquired env sql r
  unfolding Managed.query_on query_acquired Managed.query_result query_done
  query_on-traced sql (some e, t) = refl
  query_on-traced sql (none, t) = done (call env (query sql) t)
    where
      done :
          (r : Option ℕ × Trace)
          → error_of (Managed.query_result conn (answered rows r)) ≡ query_done env r
      done (some e, t') = refl
      done (none, t') = refl

  abbrev pub scanned : DatabaseRow Trace × Trace → Option ℕ × Trace
  scanned (r, t) = r.scan t

  query_row_on-traced :
      (sql : String) (r : Option ℕ × Trace)
      → scanned (Managed.query_row_on sql (answered conn r))
        ≡ row_with_release_scan env (row_acquired env sql r).0 (row_acquired env sql r).1
  unfolding Managed.query_row_on Managed.row_with_release Managed.err_row row_acquired
      row_with_release_scan
  query_row_on-traced sql (some e, t) = refl
  query_row_on-traced sql (none, t) = refl

  -- Over the pool that makes each call of the environment, the code over the interfaces ends as the
  -- code over calls does, after the same calls: `WithinTx`, and of the facade `Exec`, `Query` and
  -- `QueryRow` with the `Scan` of its row.
  pub within_tx-traced :
      (sql : String) (t : Trace)
      → (Managed.within_tx (Managed.new pool) fn t ≡ within_tx env t)
        × (error_of ((Managed.pooled_facade pool).exec sql t) ≡ pooled_exec env sql t)
        × (error_of ((Managed.pooled_facade pool).query sql t) ≡ pooled_query env sql t)
        × (scanned ((Managed.pooled_facade pool).query_row sql t)
            ≡ row_with_release_scan env
                (pooled_query_row env sql t).0
                (pooled_query_row env sql t).1)
  unfolding Managed.within_tx Managed.new Managed.pooled_facade within_tx pooled_exec pooled_query
      pooled_query_row
  within_tx-traced sql t = (
    after_acquire-traced (call env acquire t),
    exec_on-traced sql (call env acquire t),
    query_on-traced sql (call env acquire t),
    query_row_on-traced sql (call env acquire t),
  )
