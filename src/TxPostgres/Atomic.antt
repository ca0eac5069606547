-- ===== src/TxPostgres/Atomic.antt =====
-- All or nothing: what `WithinTx` of txpostgres/txpostgres.go leaves of the data, for any pool whose
-- transactions keep what a database promises of them.
use mathlib.Core.Path.{subst}
use api_toolkit.Prelude.{ℕ, ◌≡◌, refl, ◌∙◌, Bool, true, false, Option, none, some, String}
use api_toolkit.Ports.Database.{
  Result, ok, failed, DatabaseTransaction, DatabaseConnection, DatabasePool,
}
use api_toolkit.TxPostgres.{Outcome, returned, panicked}
use api_toolkit.TxPostgres.Managed.{
  Manager, transaction, Fn, then_release, then_rollback, after_fn, after_start, after_acquire,
  within_tx,
}

-- `stored` reads the data that a world holds, as the open transaction sees them.
module _ {W D : Type 0} (stored : W → D) where
  -- After a commit: what was written stays, or, with an error, what was there before the transaction.
  abbrev pub Commits : D → W → Option ℕ × W → Type 0
  Commits before w (none, w') = stored w' ≡ stored w
  Commits before w (some e, w') = stored w' ≡ before

  -- A transaction that began on the data `before`; `is_open` says of a world that it is open there.
  pub record IsAtomicTx (is_open : W → Bool) (before : D) (tx : DatabaseTransaction W)
      : Type 0 where
    pub exec_open : (sql : String) (w : W) → is_open (tx.exec sql w).1 ≡ is_open w
    pub query_open : (sql : String) (w : W) → is_open (tx.query sql w).1 ≡ is_open w
    pub query_row_open : (sql : String) (w : W) → is_open (tx.query_row sql w).1 ≡ is_open w
    pub commit_ends : (w : W) → is_open w ≡ true → Commits before w (tx.commit w)
    pub commit_closes : (w : W) → is_open (tx.commit w).1 ≡ false
    pub rollback_undoes : (w : W) → is_open w ≡ true → stored (tx.rollback w).1 ≡ before
    pub rollback_skips : (w : W) → is_open w ≡ false → stored (tx.rollback w).1 ≡ stored w

  abbrev pub BeginsAtomic : W → Result (DatabaseTransaction W) × W → Type 0
  BeginsAtomic w (failed e, w') = stored w' ≡ stored w
  BeginsAtomic w (ok tx, w') =
      (is_open : W → Bool) × IsAtomicTx is_open (stored w) tx
      × (is_open w' ≡ true)
      × (stored w' ≡ stored w)

  pub record IsAtomicConnection (conn : DatabaseConnection W) : Type 0 where
    pub start_begins : (w : W) → BeginsAtomic w (conn.start w)
    pub release_keeps : (w : W) → stored (conn.release w) ≡ stored w

  abbrev pub TakesAtomic : W → Result (DatabaseConnection W) × W → Type 0
  TakesAtomic w (failed e, w') = stored w' ≡ stored w
  TakesAtomic w (ok conn, w') = IsAtomicConnection conn × (stored w' ≡ stored w)

  abbrev pub IsAtomicPool : DatabasePool W → Type 0
  IsAtomicPool pool = (w : W) → TakesAtomic w (pool.acquire w)

  -- The function neither commits nor rolls back the transaction that it is given.
  abbrev pub LeavesOpen : Fn W → Type 0
  LeavesOpen fn =
      (is_open : W → Bool) (before : D) (tx : DatabaseTransaction W) (w : W)
      → IsAtomicTx is_open before tx
      → is_open w ≡ true
      → is_open (fn (transaction tx) w).1 ≡ true

  module _ (fn : Fn W) where
    -- Without an error the data are those that a run of the function left, from the data before; with
    -- an error or a panic they are the data before.
    abbrev pub IsAtomic : D → Outcome × W → Type 0
    IsAtomic before (returned none, w') =
        (tx : DatabaseTransaction W) × (w0 : W) × (w1 : W) × (stored w0 ≡ before)
        × (fn (transaction tx) w0 ≡ (returned none, w1))
        × (stored w' ≡ stored w1)
    IsAtomic before (returned (some e), w') = stored w' ≡ before
    IsAtomic before (panicked v, w') = stored w' ≡ before

    module _ (leaves : LeavesOpen fn) where
      ended-IsAtomic :
          (is_open : W → Bool) (before : D) (tx : DatabaseTransaction W) (w0 : W) (r : Outcome × W)
          → IsAtomicTx is_open before tx
          → stored w0 ≡ before
          → fn (transaction tx) w0 ≡ r
          → is_open r.1 ≡ true
          → IsAtomic before (then_rollback tx (after_fn tx r))
      ended-IsAtomic is_open before tx w0 (returned none, w) a same ran open_still =
          committed (tx.commit w) (a.commit_ends w open_still) (a.commit_closes w)
        where
          committed :
              (c : Option ℕ × W)
              → Commits before w c
              → is_open c.1 ≡ false
              → IsAtomic before (then_rollback tx (returned c.0, c.1))
          committed (none, w') h closed = (tx, w0, w, same, ran, a.rollback_skips w' closed ∙ h)
          committed (some e, w') h closed = a.rollback_skips w' closed ∙ h
      ended-IsAtomic is_open before tx w0 (returned (some e), w) a same ran open_still =
          a.rollback_undoes w open_still
      ended-IsAtomic is_open before tx w0 (panicked v, w) a same ran open_still =
          a.rollback_undoes w open_still

      after_start-IsAtomic :
          (w : W) (r : Result (DatabaseTransaction W) × W)
          → BeginsAtomic w r
          → IsAtomic (stored w) (after_start fn r)
      unfolding after_start
      after_start-IsAtomic w (failed e, w') h = h
      after_start-IsAtomic w (ok tx, w') (is_open, a, begun, same) =
          ended-IsAtomic is_open (stored w) tx w' (fn (transaction tx) w') a same refl
            (leaves is_open (stored w) tx w' a begun)

      released-IsAtomic :
          (before : D) (conn : DatabaseConnection W) (r : Outcome × W)
          → IsAtomicConnection conn
          → IsAtomic before r
          → IsAtomic before (then_release conn r)
      released-IsAtomic before conn (returned none, w) c (tx, w0, w1, same, ran, kept) =
          (tx, w0, w1, same, ran, c.release_keeps w ∙ kept)
      released-IsAtomic before conn (returned (some e), w) c h = c.release_keeps w ∙ h
      released-IsAtomic before conn (panicked v, w) c h = c.release_keeps w ∙ h

      after_acquire-IsAtomic :
          (w : W) (r : Result (DatabaseConnection W) × W)
          → TakesAtomic w r
          → IsAtomic (stored w) (after_acquire fn r)
      unfolding after_acquire
      after_acquire-IsAtomic w (failed e, w') h = h
      after_acquire-IsAtomic w (ok conn, w') (c, same) =
          released-IsAtomic (stored w) conn (after_start fn (conn.start w')) c (
            subst (λ d. IsAtomic d (after_start fn (conn.start w'))) same
              (after_start-IsAtomic w' (conn.start w') (c.start_begins w')))

      -- All or nothing: over a pool whose transactions commit or restore the data, and with a function
      -- that does not end the transaction itself, `WithinTx` that returns no error leaves exactly the data
      -- of one run of the function in a transaction, from the data before; with an error, be it of the
      -- pool, of the function or of the commit, and with a panic, it leaves the data as they were.
      pub within_tx-IsAtomic :
          (m : Manager W) → IsAtomicPool m.pool → (w : W) → IsAtomic (stored w) (within_tx m fn w)
      unfolding within_tx
      within_tx-IsAtomic m p w = after_acquire-IsAtomic w (m.pool.acquire w) (p w)
