-- ===== src/TxPostgres/Protocol.antt =====
-- The connections and transactions of txpostgres/txpostgres.go, as a state machine over its calls.
use api_toolkit.Prelude.{
  ℕ, suc, ◌+◌, ◌≡◌, refl, ap, ◌∙◌, List, [], ◌∷◌, Option, none, some, String, arith,
}
use api_toolkit.TxPostgres.{
  Call, acquire, release, begin, commit, rollback, statement, query, Trace, Outcome, returned,
  panicked, Env, call, statements, then_release, then_rollback, after_fn, in_tx, after_begin,
  after_acquire, within_tx, pooled_exec, exec_acquired, pooled_query, query_acquired, query_done,
  rows_with_release_close, pooled_query_row, row_acquired, row_with_release_scan,
}

-- `holding`: a connection of the pool; `open`: a transaction on it; `closed`: after its commit.
pub data Phase : Type 0 where
  idle holding active closed broken : Phase

abbrev on_acquire : Phase → Option ℕ → Phase
on_acquire idle none = holding
on_acquire idle (some e) = idle
on_acquire _ e = broken

abbrev on_begin : Phase → Option ℕ → Phase
on_begin holding none = active
on_begin holding (some e) = holding
on_begin _ e = broken

abbrev on_commit : Phase → Phase
on_commit active = closed
on_commit _ = broken

abbrev on_rollback : Phase → Phase
on_rollback active = holding
on_rollback closed = holding
on_rollback _ = broken

abbrev on_release : Phase → Phase
on_release holding = idle
on_release _ = broken

abbrev while_active : Phase → Phase
while_active active = active
while_active _ = broken

abbrev while_holding : Phase → Phase
while_holding holding = holding
while_holding _ = broken

abbrev pub step : Phase → Call → Option ℕ → Phase
step p acquire e = on_acquire p e
step p begin e = on_begin p e
step p (statement sql) e = while_active p
step p commit e = on_commit p
step p rollback e = on_rollback p
step p release e = on_release p
step p _ e = while_holding p

-- From a pool with no connection taken.
abbrev pub phase : Trace → Phase
phase [] = idle
phase ((c, e) ∷ t) = step (phase t) c e

-- Every connection taken has been given back, every transaction on it closed before.
abbrev pub IsIdle : Trace → Type 0
IsIdle t = phase t ≡ idle

-- The commits without an error.
abbrev pub commits : Trace → ℕ
commits [] = 0
commits ((commit, none) ∷ t) = suc (commits t)
commits ((c, e) ∷ t) = commits t

abbrev pub succeeded : Outcome → ℕ
succeeded (returned none) = 1
succeeded _ = 0

statements-phase :
    (ran : List (String × Option ℕ)) (t : Trace)
    → phase t ≡ active
    → phase (statements ran t) ≡ active
unfolding statements
statements-phase [] t h = h
statements-phase ((sql, e) ∷ rest) t h =
    statements-phase rest ((statement sql, e) ∷ t) (ap while_active h)

statements-commits :
    (ran : List (String × Option ℕ)) (t : Trace) → commits (statements ran t) ≡ commits t
unfolding statements
statements-commits [] t = refl
statements-commits ((sql, e) ∷ rest) t = statements-commits rest ((statement sql, e) ∷ t)

-- What the parts of `WithinTx` leave behind, from a trace with `n` commits.
abbrev Leaves : ℕ → (Phase → Phase) → Phase → Outcome × Trace → Type 0
Leaves n f p (o, t) = (f (phase t) ≡ p) × (commits t ≡ succeeded o + n)

module _ (env : Env) where
  after_fn-Leaves :
      (o : Outcome) (t : Trace)
      → phase t ≡ active
      → Leaves (commits t) on_rollback holding (after_fn env o t)
  unfolding after_fn call
  after_fn-Leaves (returned none) t h =
      (ap (λ p. on_rollback (on_commit p)) h, counted (env.error t commit))
    where
      counted : (e : Option ℕ) → commits ((commit, e) ∷ t) ≡ succeeded (returned e) + commits t
      counted none = omega arith
      counted (some e) = omega arith
  after_fn-Leaves (returned (some e)) t h = (ap on_rollback h, omega arith)
  after_fn-Leaves (panicked v) t h = (ap on_rollback h, omega arith)

  in_tx-Leaves :
      (t : Trace) → phase t ≡ active → Leaves (commits t) on_rollback holding (in_tx env t)
  unfolding in_tx
  in_tx-Leaves t h =
      rw⁻¹ (statements-commits (env.fn t).0 t) (
        after_fn-Leaves (env.fn t).1 (statements (env.fn t).0 t)
          (statements-phase (env.fn t).0 t h))

  then_rollback-Leaves :
      (n : ℕ) (r : Outcome × Trace)
      → Leaves n on_rollback holding r
      → Leaves n on_release idle (then_rollback env r)
  unfolding then_rollback call
  then_rollback-Leaves n (o, t) (h, k) = (ap on_release h, k)

  after_begin-Leaves :
      (r : Option ℕ × Trace)
      → phase r.1 ≡ on_begin holding r.0
      → Leaves (commits r.1) on_release idle (after_begin env r)
  unfolding after_begin
  after_begin-Leaves (some e, t) h = (ap on_release h, omega arith)
  after_begin-Leaves (none, t) h = then_rollback-Leaves (commits t) (in_tx env t) (in_tx-Leaves t h)

  then_release-Leaves :
      (n : ℕ) (r : Outcome × Trace)
      → Leaves n on_release idle r
      → Leaves n (λ p. p) idle (then_release env r)
  unfolding then_release call
  then_release-Leaves n (o, t) (h, k) = (h, k)

  after_acquire-Leaves :
      (r : Option ℕ × Trace)
      → phase r.1 ≡ on_acquire idle r.0
      → Leaves (commits r.1) (λ p. p) idle (after_acquire env r)
  unfolding after_acquire call
  after_acquire-Leaves (some e, t) h = (h, omega arith)
  after_acquire-Leaves (none, t) h =
      then_release-Leaves (commits t) (after_begin env (call env begin t))
        (after_begin-Leaves (call env begin t) (ap (λ p. on_begin p (env.error t begin)) h))

-- Whatever the pool answers and however the function ends, by a panic as well: `WithinTx` gives back
-- the connection that it took, every transaction that it began is rolled back or committed before,
-- the function's statements run only inside of it, and it commits once exactly where it returns no
-- error and never otherwise.
pub within_tx-IsIdle :
    (env : Env) (t : Trace)
    → IsIdle t
    → IsIdle (within_tx env t).1
      × (commits (within_tx env t).1 ≡ succeeded (within_tx env t).0 + commits t)
unfolding within_tx call
within_tx-IsIdle env t h =
    after_acquire-Leaves env (call env acquire t) (ap (λ p. on_acquire p (env.error t acquire)) h)

-- What an operation of the facade gives back, or keeps for its result.
abbrev after_result : Option ℕ → Phase
after_result none = holding
after_result (some e) = idle

module _ (env : Env) where
  exec_acquired-IsIdle :
      (sql : String) (r : Option ℕ × Trace)
      → phase r.1 ≡ on_acquire idle r.0
      → IsIdle (exec_acquired env sql r).1
  unfolding exec_acquired call
  exec_acquired-IsIdle sql (some e, t) h = h
  exec_acquired-IsIdle sql (none, t) h = ap (λ p. on_release (while_holding p)) h

  query_acquired-phase :
      (sql : String) (r : Option ℕ × Trace)
      → phase r.1 ≡ on_acquire idle r.0
      → phase (query_acquired env sql r).1 ≡ after_result (query_acquired env sql r).0
  unfolding query_acquired query_done call
  query_acquired-phase sql (some e, t) h = h
  query_acquired-phase sql (none, t) h = done (env.error t (query sql)) _ (ap while_holding h)
    where
      done :
          (e : Option ℕ) (t' : Trace)
          → phase t' ≡ holding
          → phase (query_done env (e, t')).1 ≡ after_result (query_done env (e, t')).0
      done (some e) t' h' = ap on_release h'
      done none t' h' = h'

  row_acquired-phase :
      (sql : String) (r : Option ℕ × Trace)
      → phase r.1 ≡ on_acquire idle r.0
      → phase (row_acquired env sql r).1 ≡ after_result (row_acquired env sql r).0
  unfolding row_acquired call
  row_acquired-phase sql (some e, t) h = h
  row_acquired-phase sql (none, t) h = ap while_holding h

  scanned-IsIdle :
      (e : Option ℕ) (t : Trace)
      → phase t ≡ after_result e
      → IsIdle (row_with_release_scan env e t).1
  unfolding row_with_release_scan call
  scanned-IsIdle (some e) t h = h
  scanned-IsIdle none t h = ap (λ p. on_release (while_holding p)) h

-- The facade leaks no connection: `Exec` gives its connection back, `Query` does so when it gives an
-- error and `Close` on its rows otherwise, and `Scan` of the row of `QueryRow` does in every case.
pub facade-IsIdle :
    (env : Env) (sql : String) (t : Trace)
    → IsIdle t
    → IsIdle (pooled_exec env sql t).1
      × ((pooled_query env sql t).0 ≡ none
          → IsIdle (rows_with_release_close env (pooled_query env sql t).1))
      × ((e : ℕ) → (pooled_query env sql t).0 ≡ some e → IsIdle (pooled_query env sql t).1)
      × IsIdle
          (row_with_release_scan env
            (pooled_query_row env sql t).0
            (pooled_query_row env sql t).1).1
unfolding pooled_exec pooled_query pooled_query_row rows_with_release_close call
facade-IsIdle env sql t h =
    let got : phase (call env acquire t).1 ≡ on_acquire idle (call env acquire t).0 =
      ap (λ p. on_acquire p (env.error t acquire)) h in
    let queried = query_acquired-phase env sql (call env acquire t) got in
    (
      exec_acquired-IsIdle env sql (call env acquire t) got,
      λ fine. ap (λ p. on_release (while_holding p)) (queried ∙ ap after_result fine),
      λ e failed. queried ∙ ap after_result failed,
      scanned-IsIdle env (row_acquired env sql (call env acquire t)).0
          (row_acquired env sql (call env acquire t)).1
          (row_acquired-phase env sql (call env acquire t) got),
    )
