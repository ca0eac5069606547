-- ===== src/Pgxpool/Tests.antt =====
-- A driver in memory for pgxpool/pgxpool.go, runs over it, and the theorems at concrete inputs.
use api_toolkit.Prelude.{
  ℕ, suc, ◌+◌, ◌≤◌, ◌≡◌, refl, arith, Bool, true, false, List, [], ◌∷◌, none, some, String, leb,
  length, ◌==◌, string_eq, if◌then◌else◌,
}
use api_toolkit.Prelude.Int.{pos}
use api_toolkit.Ports.Database.{Result, ok, failed, Op, DatabasePool}
use api_toolkit.Ports.Ledger.{Ledger, is_in, take_conn, drop_conn, open_tx, close_tx}
use api_toolkit.TxPostgres.{returned, panicked}
use api_toolkit.TxPostgres.Managed
use api_toolkit.TxPostgres.Managed.{TxValue, absent, another, transaction, Fn, within_tx, from_ctx}
use api_toolkit.TxPostgres.Balance.{IsTidy, within_tx-Keeps}
use api_toolkit.Pgxpool.{
  pool_port, new, as_connection, connection_port, as_transaction, transaction_port, as_result,
}
use api_toolkit.Pgxpool.Driver.{PgxRows, PgxRow, CommandTag, PgxTx, PgxConn, PgxStat, PgxPool}
use api_toolkit.Pgxpool.Laws.{
  IsPgxRows, IsPgxTx, IsPgxConn, OkPgxRows, PgxTakes, IsPgxPool, pool_port-IsPool,
}
use api_toolkit.Pgxpool.Transacting.{Balanced, new-Balanced}

-- A number above all of those given.
abbrev fresh : List ℕ → ℕ
fresh [] = 0
fresh (x ∷ xs) = suc (x + fresh xs)

absent_above : (n : ℕ) (xs : List ℕ) → fresh xs ≤ n → is_in n xs ≡ false
absent_above n [] h = refl
absent_above n (x ∷ xs) h = grind (arith, absent_above n xs)

-- The world is the ledger itself. A statement "bad" fails, and so does a transaction on it.
abbrev quiet : {A : Type 0} → A → Ledger → A × Ledger
quiet a l = (a, l)

abbrev answer : {A : Type 0} → A → String → Result A
answer a sql = if sql == "bad" then failed 7 else ok a

abbrev rows : PgxRows Ledger
rows = record { next = quiet false; scan = quiet none; close = λ l. l; rows_error = λ l. none }

abbrev row : PgxRow Ledger
row = record { scan = quiet none }

abbrev tag : CommandTag
tag = record { rows_affected = pos 1 }

abbrev tx : ℕ → PgxTx Ledger
tx i = record {
  query = λ sql. quiet (answer rows sql);
  query_row = λ sql. quiet row;
  exec = λ sql. quiet (answer tag sql);
  commit = λ l. (none, close_tx i l);
  rollback = λ l. (some 1, close_tx i l);
}

abbrev conn : ℕ → PgxConn Ledger
conn i = record {
  query = λ sql. quiet (answer rows sql);
  query_row = λ sql. quiet row;
  exec = λ sql. quiet (answer tag sql);
  start = λ l. (ok (tx (fresh l.txs)), open_tx (fresh l.txs) l);
  release = drop_conn i;
}

abbrev stat : PgxStat
stat = record {
  acquire_count = pos 3;
  acquire_duration = pos 9;
  acquired_conns = pos 1;
  canceled_acquire_count = pos 0;
  constructing_conns = pos 0;
  empty_acquire_count = pos 0;
  idle_conns = pos 1;
  max_conns = pos 4;
  new_conns_count = pos 2;
  total_conns = pos 2;
}

-- A pool that is full with three connections out.
abbrev acquired : Ledger → Result (PgxConn Ledger) × Ledger
acquired l =
    if leb 3 (length l.conns)
    then (failed 4, l)
    else (ok (conn (fresh l.conns)), take_conn (fresh l.conns) l)

abbrev pool : PgxPool Ledger
pool = record { ping = quiet none; close = λ l. l; acquire = acquired; stat = λ l. stat }

abbrev connect : String → Op Ledger (Result (PgxPool Ledger))
connect dsn l = (if dsn == "bad" then failed 2 else ok pool, l)

abbrev view : Ledger → Ledger
view l = l

rows-IsPgxRows : IsPgxRows view rows
rows-IsPgxRows = record { next_keeps = λ w. refl; scan_keeps = λ w. refl; close_keeps = λ w. refl }

answered : (b : Bool) → OkPgxRows view (if b then failed 7 else ok rows)
answered true = tt
answered false = rows-IsPgxRows

tx-IsPgxTx : (i : ℕ) → IsPgxTx view i (tx i)
tx-IsPgxTx i = record {
  query_keeps = λ sql w. refl;
  query_rows = λ sql w. answered (sql == "bad");
  query_row_keeps = λ sql w. refl;
  query_row_row = λ sql w w'. refl;
  exec_keeps = λ sql w. refl;
  commit_closes = λ w. refl;
  rollback_closes = λ w. refl;
}

conn-IsPgxConn : (i : ℕ) → IsPgxConn view i (conn i)
conn-IsPgxConn i = record {
  query_keeps = λ sql w. refl;
  query_rows = λ sql w. answered (sql == "bad");
  query_row_keeps = λ sql w. refl;
  query_row_row = λ sql w w'. refl;
  exec_keeps = λ sql w. refl;
  start_begins = λ w.
      (fresh w.txs, tx-IsPgxTx (fresh w.txs), refl, absent_above (fresh w.txs) w.txs (omega arith));
  release_drops = λ w. refl;
}

pool-IsPgxPool : IsPgxPool view pool
pool-IsPgxPool = record {
  ping_keeps = λ w. refl;
  acquire_takes = λ w. took w (leb 3 (length w.conns));
}
  where
    took :
        (w : Ledger) (b : Bool)
        → PgxTakes view w
            (if b then (failed 4, w) else (ok (conn (fresh w.conns)), take_conn (fresh w.conns) w))
    took w true = refl
    took w false = (fresh w.conns, conn-IsPgxConn (fresh w.conns), refl)

abbrev adapted : DatabasePool Ledger
unfolding pool_port
adapted = pool_port (record { pool = pool })

-- A function that runs a statement in its transaction, and another one in a transaction of its own.
abbrev inner : Fn Ledger
inner value l = let (r, l') = (from_ctx value adapted).exec "bad" l in (panicked 5, l')

abbrev outer : Fn Ledger
outer value l = within_tx (Managed.new adapted) inner l

pool_open : Unit {0}
unfolding pool_port Managed.new within_tx Managed.after_acquire Managed.after_start from_ctx new
    Managed.pooled_facade Managed.exec_on as_connection connection_port as_transaction
    transaction_port as_result
pool_open = tt

-- With three connections out already there is none for the outer transaction, with two none for the
-- inner one; with fewer the panic of the inner function goes through both.
full :
    within_tx (Managed.new adapted) outer (record { conns = 1 ∷ 2 ∷ 3 ∷ []; txs = [] })
    ≡ (returned (some 4), record { conns = 1 ∷ 2 ∷ 3 ∷ []; txs = [] })
unfolding pool_open
full = refl

through :
    within_tx (Managed.new adapted) outer (record { conns = 8 ∷ []; txs = 4 ∷ [] })
    ≡ (panicked 5, record { conns = 8 ∷ []; txs = 4 ∷ [] })
unfolding pool_open
through = refl

inner-IsTidy : IsTidy view inner
unfolding from_ctx
inner-IsTidy i _ t l = t.exec_keeps "bad" l

outer-IsTidy : IsTidy view outer
unfolding Managed.new pool_port
outer-IsTidy i _ t l =
    within_tx-Keeps view (Managed.new adapted) inner (pool_port-IsPool view pool pool-IsPgxPool)
      inner-IsTidy l

new-Balanced_example :
    Balanced view absent outer
      (new connect "postgres://" (record { conns = []; txs = [] })).0
      (connect "postgres://" (record { conns = []; txs = [] })).0
new-Balanced_example =
    new-Balanced view connect "postgres://" (record { conns = []; txs = [] }) absent outer
      pool-IsPgxPool tt outer-IsTidy
