-- ===== src/Health/Concurrent/Tests.antt =====
-- Two checks of one name at the same time: a run of health/health.go with its steps in an order in which
-- the older result is written last.
use api_toolkit.Prelude.{ℕ, ◌≡◌, refl, arith, true, [], ◌∷◌, some, lookup, insert, string_eq}
use api_toolkit.Health.Status.{HealthStatus, absent, HealthResult, HealthChecker, HealthCheckConfig}
use api_toolkit.Health.Manager.{Manager, cached, store}
use api_toolkit.Health.Concurrent.{
  Thread, looking, missed, running, checked, answered, System, stamped_at, Step, miss, run, finish,
  write, Reaches, begun, ticked, stepped,
}
use api_toolkit.Health.Concurrent.Sound.{IsSound, Reaches-IsSound}

abbrev ticks : ℕ → ℕ
ticks n = n

abbrev database : HealthChecker
database = record {
  name = "db";
  check = λ v. (
    record {
      status = HealthStatus.healthy;
      message = "";
      details = absent;
      timestamp = 0;
      duration = 0;
    },
    v,
  );
}

abbrev config : HealthCheckConfig
config = record {
  timeout = 5;
  cache_duration = 30;
  enable_caching = true;
  enable_detailed = true;
  liveness_checks = [];
  readiness_checks = "db" ∷ [];
}

abbrev empty : Manager
empty = record { config = config; checkers = ("db", database) ∷ []; cache = [] }

abbrev first : HealthResult
first = stamped_at ticks database 2 0 3

abbrev second : HealthResult
second = stamped_at ticks database 2 1 5

abbrev at : Manager → ℕ → Thread → Thread → System
at m w t t' = record { manager = m; reads = w; threads = t ∷ t' ∷ [] }

abbrev before : System
before = at empty 0 (looking "db") (looking "db")

abbrev after : System
after =
    at (store (store empty "db" second) "db" first) 7 (answered "db" first) (answered "db" second)

module _ (m m' : Manager) (w w' : ℕ) (t u : Thread) where
  left :
      (s : Thread)
      → Reaches ticks before (at m w t s)
      → Step ticks m w t m' w' u
      → Reaches ticks before (at m' w' u s)
  left s r step = stepped m m' w w' [] (s ∷ []) t u r step

  right :
      (s : Thread)
      → Reaches ticks before (at m w s t)
      → Step ticks m w t m' w' u
      → Reaches ticks before (at m' w' s u)
  right s r step = stepped m m' w w' (s ∷ []) [] t u r step

raced : Reaches ticks before after
unfolding cached lookup
raced =
    let r1 =
      left empty empty 0 0 (looking "db") (missed "db") (looking "db") begun (miss "db" refl) in
    let r2 = right empty empty 0 0 (looking "db") (missed "db") (missed "db") r1 (miss "db" refl) in
    let r3 = left empty empty 0 1 _ _ (missed "db") r2 (run "db" database refl) in
    let r4 = right empty empty 1 2 _ _ (running "db" database 0) r3 (run "db" database refl) in
    let r5 = ticked empty 2 _ r4 in
    let r6 =
      left empty empty 3 5 _ _ (running "db" database 1) r5
        (finish "db" database 2 0 (omega arith) (omega arith)) in
    let r7 =
      right empty empty 5 7 _ _ (checked "db" first) r6
        (finish "db" database 2 1 (omega arith) (omega arith)) in
    let r8 =
      right empty (store empty "db" second) 7 7 _ _ (checked "db" first) r7 (write "db" second) in
    left (store empty "db" second) (store (store empty "db" second) "db" first) 7 7 _ _
      (answered "db" second) r8 (write "db" first)

older_kept : lookup "db" after.manager.cache ≡ some first
unfolding store lookup insert
older_kept = refl

before-IsSound : IsSound ticks (("db", database) ∷ []) before
unfolding lookup
before-IsSound = record { same = refl; cache = λ name r e. cc; threads = (tt, (tt, tt)) }

Reaches-IsSound_example : IsSound ticks (("db", database) ∷ []) after
Reaches-IsSound_example =
    Reaches-IsSound ticks (("db", database) ∷ []) before after before-IsSound raced
