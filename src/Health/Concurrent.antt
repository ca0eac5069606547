-- ===== src/Health/Concurrent.antt =====
-- Checks of health/health.go that run at the same time: the steps of `performCheck` between its locks, in
-- any interleaving. Checkers are registered before.
pub mod Sound
mod Tests
use mathlib.Core.Path.{subst}
use mathlib.Core.Option.{some_inj}
use api_toolkit.Prelude.{
  ℕ, ◌+◌, ◌-◌, ◌≤◌, ◌<◌, ◌≡◌, refl, ap, ◌∙◌, sym, ◌⊎◌, inl, inr, Bool, true, false, String, List,
  [], ◌∷◌, ◌++◌, Option, none, some, if◌then◌else◌, lookup, insert, lookup-insert, string_eq, ◌==◌,
  All, arith,
}
use api_toolkit.Health.Status.{HealthResult, HealthChecker}
use api_toolkit.Health.Manager.{Manager, is_fresh, cached, store, not_found}

-- A call of `performCheck`: before the look into the cache, past it without a result, in its own check
-- since a reading of the clock, with the result of the check, and returned.
pub data Thread : Type 0 where
  looking missed : String → Thread
  running : String → HealthChecker → (start : ℕ) → Thread
  checked answered : String → HealthResult → Thread

pub record System : Type 0 where
  pub manager : Manager
  pub reads : ℕ
  pub threads : List Thread

-- What a checker gives to the caller that asks at the reading `asked`, with the readings of the caller
-- around it; other threads may read the clock in between.
abbrev pub stamped_at : (clock : ℕ → ℕ) → HealthChecker → (asked start end : ℕ) → HealthResult
stamped_at clock c asked start end = record ((c.check asked).0) {
  duration = clock end - clock start;
  timestamp = clock (end + 1);
}

module _ (clock : ℕ → ℕ) where
  -- One step of one call, from a manager and a number of readings.
  pub data Step (m : Manager) (w : ℕ) : Thread → Manager → ℕ → Thread → Type 0 where
    hit :
        (name : String) (r : HealthResult)
        → cached m name ≡ some r
        → is_fresh clock m r w ≡ true
        → Step m w (looking name) m (w + 1) (answered name r)
    stale :
        (name : String) (r : HealthResult)
        → cached m name ≡ some r
        → is_fresh clock m r w ≡ false
        → Step m w (looking name) m (w + 1) (missed name)
    miss : (name : String) → cached m name ≡ none → Step m w (looking name) m w (missed name)
    unknown :
        (name : String)
        → lookup name m.checkers ≡ none
        → Step m w (missed name) m (w + 1) (answered name (not_found clock name w))
    run :
        (name : String) (c : HealthChecker)
        → lookup name m.checkers ≡ some c
        → Step m w (missed name) m (w + 1) (running name c w)
    finish :
        (name : String) (c : HealthChecker) (asked start : ℕ)
        → start < asked
        → (c.check asked).1 ≤ w
        → Step m w
            (running name c start)
            m
            (w + 2)
            (checked name (stamped_at clock c asked start w))
    write :
        (name : String) (r : HealthResult)
        → Step m w (checked name r) (store m name r) w (answered name r)

  -- The calls step in any order, and the clock is read by others as well.
  pub data Reaches (s : System) : System → Type 0 where
    begun : Reaches s s
    ticked :
        (m : Manager) (w : ℕ) (threads : List Thread)
        → Reaches s (record { manager = m; reads = w; threads = threads })
        → Reaches s (record { manager = m; reads = w + 1; threads = threads })
    stepped :
        (m m' : Manager) (w w' : ℕ) (before after : List Thread) (t t' : Thread)
        → Reaches s (record { manager = m; reads = w; threads = before ++ t ∷ after })
        → Step m w t m' w' t'
        → Reaches s (record { manager = m'; reads = w'; threads = before ++ t' ∷ after })
