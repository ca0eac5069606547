-- ===== src/Health/Checkers/Memory.antt =====
-- `MemoryChecker` of health/checkers.go. What `runtime.ReadMemStats` reads is an argument.
use api_toolkit.Prelude.{
  ℕ, zero, suc, ◌+◌, ◌*◌, ◌/◌, ◌%◌, ◌^◌, ◌≤◌, ◌<◌, ◌≡◌, ◌↔◌, true, ◌&&◌, String, List, [], ◌∷◌,
  if◌then◌else◌, ltb, concat, arith,
}
use api_toolkit.Prelude.Int.{ℤ, pos, negsuc, ltb_ℤ, sub_ℕ}
use api_toolkit.Health.Status.{HealthStatus, numbers, HealthChecker, is_unhealthy}
use api_toolkit.Health.Aggregate.{is_degraded}

-- The fields of `runtime.MemStats` that the check reads.
pub record MemStats : Type 0 where
  pub alloc : ℕ
  pub heap_alloc : ℕ
  pub heap_sys : ℕ
  pub num_gc : ℕ

-- An int64 that has wrapped around.
unfoldable pub wrap64 : ℕ → ℤ
wrap64 n = if ltb (n % 2 ^ 64) (2 ^ 63) then pos (n % 2 ^ 64) else sub_ℕ (n % 2 ^ 64) (2 ^ 64)

-- `x / 10` truncates towards zero.
abbrev pub tenth : ℤ → ℤ
tenth (pos n) = pos (n / 10)
tenth (negsuc n) = sub_ℕ 0 ((n + 1) / 10)

-- `c.maxMemoryMB * 8 / 10`, of a positive maximum.
abbrev pub warn_level : ℕ → ℤ
warn_level max = tenth (wrap64 (max * 8))

nth : List String → ℕ → String
nth [] n = ""
nth (s ∷ ss) zero = s
nth (s ∷ ss) (suc n) = nth ss n

unfoldable pub digit : ℕ → String
unfolding nth
digit = nth ("0" ∷ "1" ∷ "2" ∷ "3" ∷ "4" ∷ "5" ∷ "6" ∷ "7" ∷ "8" ∷ "9" ∷ [])

-- `%d` of a number below 10²⁰: the fuel is the number of digits printed at most.
unfoldable pub decimal : ℕ → ℕ → String
decimal zero n = ""
decimal (suc fuel) n =
    let rest = decimal fuel (n / 10) in
    if ltb n 10 then digit n else concat (rest ∷ digit (n % 10) ∷ [])

abbrev show_ℤ : ℤ → String
show_ℤ (pos n) = decimal 20 n
show_ℤ (negsuc n) = concat ("-" ∷ decimal 20 (n + 1) ∷ [])

abbrev pub usage : String → ℕ → ℤ → String
usage what mb max = concat (what ∷ ": " ∷ decimal 20 mb ∷ " MB (max: " ∷ show_ℤ max ∷ " MB)" ∷ [])

-- The status and the message for the megabytes in use. A maximum that is not positive sets no limit.
unfoldable pub memory_status : ℤ → ℕ → HealthStatus × String
memory_status (negsuc n) mb =
    (HealthStatus.healthy, concat ("Memory usage: " ∷ decimal 20 mb ∷ " MB" ∷ []))
memory_status (pos max) mb =
    if ltb 0 max && ltb max mb
    then (HealthStatus.unhealthy, usage "Memory usage too high" mb (pos max))
    else if ltb 0 max && ltb_ℤ (warn_level max) (pos mb)
    then (HealthStatus.degraded, usage "Memory usage high" mb (pos max))
    else (HealthStatus.healthy, concat ("Memory usage: " ∷ decimal 20 mb ∷ " MB" ∷ []))

unfoldable pub memory_checker : (clock : ℕ → ℕ) (read : ℕ → MemStats) → ℤ → HealthChecker
unfolding memory_status
memory_checker clock read max = record {
  name = "memory";
  check = λ w.
      let stats = read w in
      let mb = stats.alloc / 1024 / 1024 in
      let (status, message) = memory_status max mb in
      (
        record {
          status = status;
          message = message;
          details = numbers (
              ("alloc_mb", pos mb)
              ∷ ("max_memory_mb", max)
              ∷ ("heap_alloc", pos stats.heap_alloc)
              ∷ ("heap_sys", pos stats.heap_sys)
              ∷ ("num_gc", pos stats.num_gc)
              ∷ []);
          timestamp = clock w;
          duration = 0;
        },
        w + 1,
      );
}

warn_level-value : (max : ℕ) → max < 2 ^ 60 → warn_level max ≡ pos (max * 8 / 10)
unfolding wrap64
warn_level-value max h = ground arith

-- With a positive maximum below 2⁶⁰ megabytes, the check is unhealthy exactly above the maximum, and
-- degraded exactly above eight tenths of it, rounded down, up to the maximum.
pub memory_status-thresholds :
    (max mb : ℕ)
    → 0 < max
    → max < 2 ^ 60
    → ((is_unhealthy (memory_status (pos max) mb).0 ≡ true) ↔ (max < mb))
      × ((is_degraded (memory_status (pos max) mb).0 ≡ true) ↔ ((max * 8 / 10 < mb) × (mb ≤ max)))
unfolding memory_status
memory_status-thresholds max mb positive small = ground (arith, warn_level-value max small)
