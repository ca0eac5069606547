-- ===== src/TxPostgres/Tests.antt =====
-- Runs of txpostgres/txpostgres.go, and its theorems at concrete inputs.
use api_toolkit.Prelude.{◌+◌, ◌≡◌, refl, [], ◌∷◌, none, some}
use api_toolkit.TxPostgres.{
  acquire, release, begin, commit, rollback, statement, returned, panicked, Env, call, statements,
  within_tx,
}
use api_toolkit.TxPostgres.Protocol.{IsIdle, commits, succeeded, within_tx-IsIdle}

postgres_open : Unit {0}
unfolding call statements within_tx
postgres_open = tt

abbrev fine : Env
fine = record { error = λ t c. none; fn = λ t. (("INSERT", none) ∷ [], returned none) }

abbrev panicking : Env
panicking = record { error = λ t c. none; fn = λ t. (("INSERT", some 3) ∷ [], panicked 7) }

committed : within_tx fine [] ≡ (
  returned none,
  (release, none)
      ∷ (rollback, none)
      ∷ (commit, none)
      ∷ (statement "INSERT", none)
      ∷ (begin, none)
      ∷ (acquire, none)
      ∷ [],
)
unfolding postgres_open
committed = refl

rolled_back : within_tx panicking [] ≡ (
  panicked 7,
  (release, none)
      ∷ (rollback, none)
      ∷ (statement "INSERT", some 3)
      ∷ (begin, none)
      ∷ (acquire, none)
      ∷ [],
)
unfolding postgres_open
rolled_back = refl

within_tx-IsIdle_example :
    IsIdle (within_tx panicking []).1
    × (commits (within_tx panicking []).1 ≡ succeeded (within_tx panicking []).0 + 0)
within_tx-IsIdle_example = within_tx-IsIdle panicking [] refl
