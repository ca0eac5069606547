-- ===== src/TxPostgres/Scenarios.antt =====
-- A pool in memory for txpostgres/txpostgres.go: one number, and the number before the transaction.
use api_toolkit.Prelude.{
  ℕ, ◌+◌, ◌≡◌, refl, ◌∙◌, arith, Bool, true, false, Option, none, some, eqb, leb,
}
use api_toolkit.Prelude.Int.{pos}
use api_toolkit.Ports.Database.{
  Result, ok, failed, DatabaseRows, DatabaseRow, DatabaseTransaction, DatabaseConnection,
  DatabasePool,
}
use api_toolkit.TxPostgres.{Outcome, returned}
use api_toolkit.TxPostgres.Managed
use api_toolkit.TxPostgres.Managed.{TxValue, absent, another, transaction, Fn, within_tx}
use api_toolkit.TxPostgres.Traced.{no_stats}
use api_toolkit.TxPostgres.Atomic.{
  Commits, IsAtomicTx, BeginsAtomic, IsAtomicPool, LeavesOpen, IsAtomic, within_tx-IsAtomic,
}

record Store : Type 0 where
  value : ℕ
  before : Option ℕ

abbrev end_with : ℕ → Store
end_with n = record { value = n; before = none }

abbrev rows : DatabaseRows Store
rows = record {
  next = λ s. (false, s);
  scan = λ s. (none, s);
  close = λ s. s;
  rows_error = λ s. none;
}

abbrev row : DatabaseRow Store
row = record { scan = λ s. (none, s) }

abbrev began_on : ℕ → Option ℕ → Bool
began_on b none = false
began_on b (some c) = eqb b c

abbrev is_open : ℕ → Store → Bool
is_open b s = began_on b s.before

-- A commit fails, and restores, from five on.
abbrev committed : (open_here full : Bool) → ℕ → Store → Option ℕ × Store
committed false full b s = (some 9, s)
committed true true b s = (some 8, end_with b)
committed true false b s = (none, end_with s.value)

abbrev rolled_back : (open_here : Bool) → ℕ → Store → Option ℕ × Store
rolled_back false b s = (some 9, s)
rolled_back true b s = (none, end_with b)

-- The transaction that began on `b`. Each statement adds one.
abbrev tx : ℕ → DatabaseTransaction Store
tx b = record {
  query = λ sql s. (ok rows, s);
  query_row = λ sql s. (row, s);
  exec = λ sql s. (ok (record { rows_affected = pos 1 }), record s { value = s.value + 1 });
  commit = λ s. committed (is_open b s) (leb 5 s.value) b s;
  rollback = λ s. rolled_back (is_open b s) b s;
}

abbrev begin_from : ℕ → Option ℕ → Result (DatabaseTransaction Store) × Store
begin_from n none = (ok (tx n), record { value = n; before = some n })
begin_from n (some b) = (failed 3, record { value = n; before = some b })

abbrev conn : DatabaseConnection Store
conn = record {
  query = λ sql s. (ok rows, s);
  query_row = λ sql s. (row, s);
  exec = λ sql s. (failed 2, s);
  start = λ s. begin_from s.value s.before;
  release = λ s. s;
}

abbrev pool : DatabasePool Store
pool = record {
  ping = λ s. (none, s);
  close = λ s. s;
  acquire = λ s. (ok conn, s);
  stat = λ s. no_stats;
}

committed-Commits :
    (open_here full : Bool) (b : ℕ) (s : Store)
    → open_here ≡ true
    → Commits Store.value b s (committed open_here full b s)
committed-Commits true true b s h = refl
committed-Commits true false b s h = refl
committed-Commits false full b s h = ground arith

committed-closes :
    (full : Bool) (b : ℕ) (s : Store) (open_here : Bool)
    → is_open b s ≡ open_here
    → is_open b (committed open_here full b s).1 ≡ false
committed-closes full b s false h = h
committed-closes true b s true h = refl
committed-closes false b s true h = refl

tx-IsAtomicTx : (b : ℕ) → IsAtomicTx Store.value (is_open b) b (tx b)
tx-IsAtomicTx b = record {
  exec_open = λ sql w. refl;
  query_open = λ sql w. refl;
  query_row_open = λ sql w. refl;
  commit_ends = λ w h. committed-Commits (is_open b w) (leb 5 w.value) b w h;
  commit_closes = λ w. committed-closes (leb 5 w.value) b w (is_open b w) refl;
  rollback_undoes = λ w h. rw h refl;
  rollback_skips = λ w h. rw h refl;
}

begin_from-BeginsAtomic :
    (n : ℕ) (before : Option ℕ)
    → BeginsAtomic Store.value (record { value = n; before = before }) (begin_from n before)
begin_from-BeginsAtomic n none = (is_open n, tx-IsAtomicTx n, ground arith, refl)
begin_from-BeginsAtomic n (some b) = refl

pool-IsAtomicPool : IsAtomicPool Store.value pool
pool-IsAtomicPool w = (
  record {
    start_begins = λ s. begin_from-BeginsAtomic s.value s.before;
    release_keeps = λ s. refl;
  },
  refl,
)

-- Two statements by way of the context, and then an error if there are three or more.
abbrev ended_by : Bool → Outcome
ended_by true = returned (some 6)
ended_by false = returned none

abbrev twice : Fn Store
twice value s =
    let (r1, s1) = (Managed.from_ctx value pool).exec "INSERT" s in
    let (r2, s2) = (Managed.from_ctx value pool).exec "INSERT" s1 in (ended_by (leb 9 s2.value), s2)

twice-LeavesOpen : LeavesOpen Store.value twice
unfolding Managed.from_ctx
twice-LeavesOpen opened before t w a h =
    a.exec_open "INSERT" (t.exec "INSERT" w).1 ∙ a.exec_open "INSERT" w ∙ h

store_open : Unit {0}
unfolding Managed.within_tx Managed.after_acquire Managed.after_start Managed.from_ctx Managed.new
store_open = tt

added : within_tx (Managed.new pool) twice (end_with 1) ≡ (returned none, end_with 3)
unfolding store_open
added = refl

-- The commit fails, or the function.
restored : within_tx (Managed.new pool) twice (end_with 4) ≡ (returned (some 8), end_with 4)
unfolding store_open
restored = refl

undone : within_tx (Managed.new pool) twice (end_with 7) ≡ (returned (some 6), end_with 7)
unfolding store_open
undone = refl

within_tx-IsAtomic_example :
    IsAtomic Store.value twice 1 (within_tx (record { pool = pool }) twice (end_with 1))
within_tx-IsAtomic_example =
    within_tx-IsAtomic Store.value twice twice-LeavesOpen (record { pool = pool }) pool-IsAtomicPool
      (end_with 1)
