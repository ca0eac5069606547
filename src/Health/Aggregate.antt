-- ===== src/Health/Aggregate.antt =====
-- The overall status of health/health.go and health/checkers.go, against the worst of all statuses.
use mathlib.Core.List.{map-append}
use api_toolkit.Prelude.{
  ℕ, ◌≡◌, refl, sym, ap, ◌∙◌, Bool, true, false, ◌||◌, String, List, [], ◌∷◌, ◌++◌, map, append-nil,
  append_assoc, if◌then◌else◌, string_eq, any, any-append, arith, Bool-cases, inl, inr,
}
use api_toolkit.Health.Status.{
  HealthStatus, other, HealthResult, Tally, is_unhealthy, tally_one, tally, start,
}
use api_toolkit.Health.Manager.{Manager, perform_check, check_all, conclude, perform_checks}

abbrev pub is_degraded : HealthStatus → Bool
is_degraded HealthStatus.degraded = true
is_degraded _ = false

abbrev pub is_healthy : HealthStatus → Bool
is_healthy HealthStatus.healthy = true
is_healthy _ = false

-- Unhealthy before degraded before healthy; the empty string where none of the three occurs.
abbrev pub worst : List HealthStatus → HealthStatus
worst ss =
    if any is_unhealthy ss
    then HealthStatus.unhealthy
    else if any is_degraded ss
    then HealthStatus.degraded
    else if any is_healthy ss
    then HealthStatus.healthy
    else other ""

-- What the overall status says of some statuses. It is never `unknown`: where none of the statuses is
-- unhealthy, degraded or healthy, it is the empty string.
abbrev pub IsOverall : List HealthStatus → HealthStatus → Type 0
IsOverall ss HealthStatus.unhealthy = any is_unhealthy ss ≡ true
IsOverall ss HealthStatus.degraded = (any is_unhealthy ss ≡ false) × (any is_degraded ss ≡ true)
IsOverall ss HealthStatus.healthy =
    (any is_unhealthy ss ≡ false) × (any is_degraded ss ≡ false) × (any is_healthy ss ≡ true)
IsOverall ss HealthStatus.unknown = ⊥
IsOverall ss (other s) =
    (s ≡ "")
    × (any is_unhealthy ss ≡ false)
    × (any is_degraded ss ≡ false)
    × (any is_healthy ss ≡ false)

pub worst-IsOverall : (ss : List HealthStatus) → IsOverall ss (worst ss)
worst-IsOverall ss =
    by_bools (any is_unhealthy ss) (any is_degraded ss) (any is_healthy ss) refl refl refl
  where
    by_bools :
        (a b c : Bool)
        → any is_unhealthy ss ≡ a
        → any is_degraded ss ≡ b
        → any is_healthy ss ≡ c
        → IsOverall ss (
            if a
            then HealthStatus.unhealthy
            else if b
            then HealthStatus.degraded
            else if c
            then HealthStatus.healthy
            else other "")
    by_bools true b c ha hb hc = ha
    by_bools false true c ha hb hc = (ha, hb)
    by_bools false false true ha hb hc = (ha, hb, hc)
    by_bools false false false ha hb hc = (refl, ha, hb, hc)

abbrev pub statuses : List HealthResult → List HealthStatus
statuses = map (λ r. r.status)

-- The values that `overallStatus` takes.
abbrev IsLevel : HealthStatus → Type 0
IsLevel HealthStatus.healthy = Unit
IsLevel HealthStatus.unhealthy = Unit
IsLevel HealthStatus.degraded = Unit
IsLevel HealthStatus.unknown = ⊥
IsLevel (other s) = s ≡ ""

tally_one-worst :
    (o s : HealthStatus) (m : String) (ms : List String) (ss : List HealthStatus)
    → IsLevel o
    → IsLevel (tally_one s m (record { overall = o; messages = ms })).overall
      × (worst ((tally_one s m (record { overall = o; messages = ms })).overall ∷ ss)
          ≡ worst (o ∷ s ∷ ss))
unfolding tally_one
tally_one-worst HealthStatus.healthy s m ms ss h = ground arith
tally_one-worst (other x) s m ms ss h = ground (arith, string_eq.beq_iff x "")
tally_one-worst _ s m ms ss h = ground arith

tally-worst :
    (rs : List HealthResult) (t : Tally)
    → IsLevel t.overall
    → (tally t rs).overall ≡ worst (t.overall ∷ statuses rs)
unfolding tally
tally-worst [] t h = level t.overall h
  where
    level : (o : HealthStatus) → IsLevel o → o ≡ worst (o ∷ [])
    level HealthStatus.healthy h' = refl
    level HealthStatus.unhealthy h' = refl
    level HealthStatus.degraded h' = refl
    level HealthStatus.unknown h' = elim h' [ ]
    level (other s) h' = ap other h'
tally-worst (r ∷ rs) t h =
    let (level, same) = tally_one-worst t.overall r.status r.message t.messages (statuses rs) h in
    tally-worst rs (tally_one r.status r.message t) level ∙ same

-- From the zero value of `overallStatus` on, the loop over the results ends with the worst status.
pub tally-start : (rs : List HealthResult) → (tally start rs).overall ≡ worst (statuses rs)
tally-start rs = tally-worst rs start refl

pub is_unhealthy-eq : (s : HealthStatus) → is_unhealthy s ≡ true → s ≡ HealthStatus.unhealthy
is_unhealthy-eq s h = ground arith

pub worst-append-unhealthy :
    (xs ys : List HealthStatus) → worst (xs ++ HealthStatus.unhealthy ∷ ys) ≡ HealthStatus.unhealthy
worst-append-unhealthy xs ys = ground (
  arith,
  any-append is_unhealthy xs (HealthStatus.unhealthy ∷ ys),
  any_true (any is_unhealthy xs),
)
  where
    any_true : (b : Bool) → (b || true) ≡ true
    any_true true = refl
    any_true false = refl

module _ (clock : ℕ → ℕ) where
  -- Every check performed in turn, none left out.
  abbrev pub all_statuses : Manager → List String → ℕ → List HealthStatus
  all_statuses m [] w = []
  all_statuses m (name ∷ names) w =
      let (r, m', w') = perform_check clock m name w in r.status ∷ all_statuses m' names w'

  check_all-worst :
      (m : Manager) (names : List String) (w : ℕ) (rs : List HealthResult)
      → (conclude clock (check_all clock m names w rs)).0.status
        ≡ worst (statuses rs ++ all_statuses m names w)
  unfolding check_all conclude
  check_all-worst m [] w rs = rw append-nil (tally-start rs)
  check_all-worst m (name ∷ names) w rs =
      let r = (perform_check clock m name w).0 in
      let m' = (perform_check clock m name w).1 in
      let w' = (perform_check clock m name w).2 in
      elim (Bool-cases (is_unhealthy r.status)) [
        | inl bad ↦
            let e = is_unhealthy-eq r.status bad in
            rw bad (
              e
              ∙ sym (worst-append-unhealthy (statuses rs) (all_statuses m' names w'))
              ∙ ap (λ (s : HealthStatus). worst (statuses rs ++ s ∷ all_statuses m' names w'))
                  (sym e))
        | inr fine ↦ rw fine (
            check_all-worst m' names w' (rs ++ r ∷ [])
            ∙ ap (λ (ss : List HealthStatus). worst (ss ++ all_statuses m' names w'))
                (map-append (λ (x : HealthResult). x.status) rs (r ∷ []))
            ∙ ap worst (append_assoc (statuses rs) (r.status ∷ []) (all_statuses m' names w')))
      ]

pub perform_checks-eq :
    (clock : ℕ → ℕ) (m : Manager) (name : String) (names : List String) (w : ℕ)
    → (perform_checks clock m (name ∷ names) w).0.status
      ≡ worst (all_statuses clock m (name ∷ names) w)
unfolding perform_checks
perform_checks-eq clock m name names w = check_all-worst clock m (name ∷ names) w []

-- The status that `performChecks` gives for at least one name is unhealthy if one of the checks is,
-- when all are performed one after the other, otherwise degraded if one is, otherwise healthy if one is,
-- although it returns at the first unhealthy one; and where no check gives one of these three, it is the
-- empty string and not unknown.
pub perform_checks-worst :
    (clock : ℕ → ℕ) (m : Manager) (name : String) (names : List String) (w : ℕ)
    → IsOverall
        (all_statuses clock m (name ∷ names) w)
        (perform_checks clock m (name ∷ names) w).0.status
perform_checks-worst clock m name names w =
    rw (perform_checks-eq clock m name names w)
      (worst-IsOverall (all_statuses clock m (name ∷ names) w))
