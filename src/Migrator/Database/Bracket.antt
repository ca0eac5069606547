-- ===== src/Migrator/Database/Bracket.antt =====
-- The advisory lock around `Up` and `Down` of migrator/migrator.go.
use api_toolkit.Prelude.{ℕ, ◌≡◌, ◌⊎◌, List, ◌∷◌, Option, some, list_eq}
use api_toolkit.Migrator.Pending.{AppliedRow, Pending}
use api_toolkit.Migrator.Database.{advisory_unlock, exec, Trace, World, Outcome}
use api_toolkit.Migrator.Database.Held.{released, held, lock_in, IsHeld}

-- Every call on the database so far was made while the lock was held, and the lock is released; or it
-- is held and the last call was its unlock, which the database answered with an error.
abbrev pub IsReleased : World → Type 0
IsReleased w =
    (lock_in w ≡ released)
    ⊎ ((e : ℕ) × (t : Trace) × (w.trace
          ≡ (exec (advisory_unlock w.runner.opts.lock_key), some e) ∷ t)
        × (lock_in w ≡ held))

abbrev Holds : (World → Outcome × World) → Type 0
Holds body = (w : World) → IsHeld w → IsHeld (body w).1

abbrev HoldsRows : (Option ℕ × List AppliedRow × World → Outcome × World) → Type 0
HoldsRows k =
    (e : Option ℕ) (rows : List AppliedRow) (w : World) → IsHeld w → IsHeld (k (e, rows, w)).1
