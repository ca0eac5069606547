-- ===== src/Ports/Ledger.antt =====
-- What a pool of ports/ports.go promises of its connections and transactions: a ledger of those that
-- are taken out and open, and how each method changes it.
use api_toolkit.Prelude.{
  ℕ, ◌≡◌, refl, ap, arith, Bool, false, List, [], ◌∷◌, String, eqb, any, if◌then◌else◌,
}
use api_toolkit.Ports.Database.{
  Result, ok, failed, DatabaseRows, DatabaseRow, DatabaseTransaction, DatabaseConnection,
  DatabasePool,
}

-- The connections taken out and the transactions open, by numbers.
pub record Ledger : Type 0 where
  pub conns : List ℕ
  pub txs : List ℕ

abbrev pub remove : ℕ → List ℕ → List ℕ
remove a [] = []
remove a (b ∷ bs) = let rest = remove a bs in if eqb a b then bs else b ∷ rest

abbrev pub is_in : ℕ → List ℕ → Bool
is_in a bs = any (eqb a) bs

abbrev pub take_conn : ℕ → Ledger → Ledger
take_conn i l = record l { conns = i ∷ l.conns }

abbrev pub drop_conn : ℕ → Ledger → Ledger
drop_conn i l = record l { conns = remove i l.conns }

abbrev pub open_tx : ℕ → Ledger → Ledger
open_tx i l = record l { txs = i ∷ l.txs }

abbrev pub close_tx : ℕ → Ledger → Ledger
close_tx i l = record l { txs = remove i l.txs }

module _ {W : Type 0} (view : W → Ledger) where
  -- The ledger stays as it is.
  abbrev pub Keeps : {A : Type 0} → (W → A × W) → Type 0
  Keeps f = (w : W) → view (f w).1 ≡ view w

  pub record IsRows (rows : DatabaseRows W) : Type 0 where
    pub next_keeps : Keeps rows.next
    pub scan_keeps : Keeps rows.scan
    pub close_keeps : (w : W) → view (rows.close w) ≡ view w

  abbrev pub IsRow : DatabaseRow W → Type 0
  IsRow row = Keeps row.scan

  -- What a query answers with: rows that keep the ledger, or an error.
  abbrev pub OkRows : Result (DatabaseRows W) → Type 0
  OkRows (ok rows) = IsRows rows
  OkRows (failed e) = Unit

  -- A commit and a rollback close the transaction, with an error or without one.
  pub record IsTx (i : ℕ) (tx : DatabaseTransaction W) : Type 0 where
    pub query_keeps : (sql : String) → Keeps (tx.query sql)
    pub query_rows : (sql : String) (w : W) → OkRows (tx.query sql w).0
    pub query_row_keeps : (sql : String) → Keeps (tx.query_row sql)
    pub query_row_row : (sql : String) (w : W) → IsRow (tx.query_row sql w).0
    pub exec_keeps : (sql : String) → Keeps (tx.exec sql)
    pub commit_closes : (w : W) → view (tx.commit w).1 ≡ close_tx i (view w)
    pub rollback_closes : (w : W) → view (tx.rollback w).1 ≡ close_tx i (view w)

  -- A transaction begun has a number that no open one has.
  abbrev pub Begins : W → Result (DatabaseTransaction W) × W → Type 0
  Begins w (failed e, w') = view w' ≡ view w
  Begins w (ok tx, w') =
      (i : ℕ) × IsTx i tx × (view w' ≡ open_tx i (view w)) × (is_in i (view w).txs ≡ false)

  pub record IsConnection (i : ℕ) (conn : DatabaseConnection W) : Type 0 where
    pub query_keeps : (sql : String) → Keeps (conn.query sql)
    pub query_rows : (sql : String) (w : W) → OkRows (conn.query sql w).0
    pub query_row_keeps : (sql : String) → Keeps (conn.query_row sql)
    pub query_row_row : (sql : String) (w : W) → IsRow (conn.query_row sql w).0
    pub exec_keeps : (sql : String) → Keeps (conn.exec sql)
    pub start_begins : (w : W) → Begins w (conn.start w)
    pub release_drops : (w : W) → view (conn.release w) ≡ drop_conn i (view w)

  abbrev pub Takes : W → Result (DatabaseConnection W) × W → Type 0
  Takes w (failed e, w') = view w' ≡ view w
  Takes w (ok conn, w') = (i : ℕ) × IsConnection i conn × (view w' ≡ take_conn i (view w))

  pub record IsPool (pool : DatabasePool W) : Type 0 where
    pub ping_keeps : Keeps pool.ping
    pub acquire_takes : (w : W) → Takes w (pool.acquire w)

remove_head : (i : ℕ) (is : List ℕ) → remove i (i ∷ is) ≡ is
remove_head i is = ground arith

remove_absent : (i : ℕ) (is : List ℕ) → is_in i is ≡ false → remove i is ≡ is
remove_absent i [] h = refl
remove_absent i (j ∷ js) h = ground (arith, remove_absent i js)

-- What is taken or opened and then given back leaves the ledger as it was.
pub drop_conn-take_conn : (i : ℕ) (l : Ledger) → drop_conn i (take_conn i l) ≡ l
drop_conn-take_conn i l = ap (λ is. record l { conns = is }) (remove_head i l.conns)

pub close_tx-open_tx : (i : ℕ) (l : Ledger) → close_tx i (open_tx i l) ≡ l
close_tx-open_tx i l = ap (λ is. record l { txs = is }) (remove_head i l.txs)

pub close_tx_absent : (i : ℕ) (l : Ledger) → is_in i l.txs ≡ false → close_tx i l ≡ l
close_tx_absent i l h = ap (λ is. record l { txs = is }) (remove_absent i l.txs h)
