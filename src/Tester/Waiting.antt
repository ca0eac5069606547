-- ===== src/Tester/Waiting.antt =====
-- The end of the loop of waitForAPI in cmd/tester/main.go.
use api_toolkit.Prelude.{
  ℕ, zero, suc, ◌+◌, ◌-◌, ◌*◌, ◌≤◌, ◌<◌, ◌≡◌, refl, sym, ◌∙◌, ap, ◌⊎◌, inl, inr, Bool, true, false,
  not, Option, none, some, [], if◌then◌else◌, ltb, within, Text, arith, ◌==◌, list_eq,
}
use api_toolkit.Prelude.Int.{ℤ, pos, negsuc, ◌-ℤ◌}
use api_toolkit.Tester.{
  Server, Wait, ready, timed_out, context_done, panicked, health_url, second, initial_backoff,
  max_backoff, max_total_wait, clamp, backoff_of, time_to_next, is_ready, wait_loop, wait_for_api,
}

-- Every attempt takes some time.
abbrev pub IsTicking : Server → Type 0
IsTicking env = (i : ℕ) → 0 < env.delay i

-- The time from the start to an attempt.
pub elapsed_at : Server → ℕ → ℕ
elapsed_at env zero = 0
elapsed_at env (suc i) =
    elapsed_at env i + env.delay i + time_to_next (backoff_of (env.decayed i)) (elapsed_at env i)

-- The status of an answer that ends the wait.
abbrev succeeds : Option ℕ → Bool
succeeds none = false
succeeds (some status) = within 200 399 status

is_ready-succeeds : (o : Option ℕ) → is_ready o ≡ succeeds o
is_ready-succeeds none = refl
is_ready-succeeds (some status) = ground arith

-- What an attempt at a time decides, if it ends the loop.
abbrev decision : Server → Text → ℕ → ℕ → Option Wait
decision env url i elapsed =
    if ltb max_total_wait elapsed
    then some timed_out
    else if not (env.parses url)
    then some panicked
    else if succeeds (env.response i)
    then some ready
    else if env.cancelled i
    then some context_done
    else none

abbrev pub decided : Server → Text → ℕ → Option Wait
decided env url i = decision env url i (elapsed_at env i)

clamp-bounds : (z : ℤ) → (initial_backoff ≤ clamp z) × (clamp z ≤ max_backoff)
clamp-bounds (pos n) = ground arith
clamp-bounds (negsuc n) = (omega arith, omega arith)

-- A sleep lasts a second at least, or to the end of the time allowed.
sleep-bound :
    (backoff elapsed : ℕ)
    → second ≤ backoff
    → (elapsed + second ≤ elapsed + time_to_next backoff elapsed)
      ⊎ (max_total_wait ≤ elapsed + time_to_next backoff elapsed)
unfolding time_to_next
sleep-bound backoff elapsed h = by_bool (ltb max_total_wait (elapsed + backoff))
  where
    by_bool :
        (b : Bool)
        → (elapsed + second ≤ elapsed + (if b then max_total_wait - elapsed else backoff))
          ⊎ (max_total_wait ≤ elapsed + (if b then max_total_wait - elapsed else backoff))
    by_bool true = inr (omega arith)
    by_bool false = inl (omega arith)

elapsed_at-step :
    (env : Server) (i : ℕ)
    → (elapsed_at env i + env.delay i + second ≤ elapsed_at env (suc i))
      ⊎ (max_total_wait + env.delay i ≤ elapsed_at env (suc i))
unfolding elapsed_at backoff_of
elapsed_at-step env i =
    let (lo, hi) = clamp-bounds (pos max_backoff -ℤ env.decayed i) in
    elim (sleep-bound (backoff_of (env.decayed i)) (elapsed_at env i) lo) [
      | inl h ↦ inl (omega arith)
      | inr h ↦ inr (omega arith)
    ]

elapsed_at-bound : (env : Server) (i : ℕ) → i ≤ 20 → i * second ≤ elapsed_at env i
elapsed_at-bound env zero h = omega arith
elapsed_at-bound env (suc i) h =
    let k = elapsed_at-bound env i (omega arith) in
    elim (elapsed_at-step env i) [ inl g ↦ omega arith | inr g ↦ omega arith ]

-- The attempt of number 21 comes after the time allowed, whatever the backoff.
elapsed_at-late : (env : Server) → IsTicking env → max_total_wait < elapsed_at env 21
elapsed_at-late env tick =
    let k = elapsed_at-bound env 20 (omega arith) in
    let t = tick 20 in elim (elapsed_at-step env 20) [ inl g ↦ omega arith | inr g ↦ omega arith ]

decision-late :
    (env : Server) (url : Text) (i elapsed : ℕ)
    → max_total_wait < elapsed
    → decision env url i elapsed ≡ some timed_out
decision-late env url i elapsed h = ground arith

-- The first attempt that ends the loop, `steps` after attempt `i`.
abbrev First : Server → Text → ℕ → ℕ → Wait → Type 0
First env url i steps answer =
    (decided env url (steps + i) ≡ some answer)
    × ((j : ℕ) → j < steps → decided env url (j + i) ≡ none)

shift :
    (env : Server) (url : Text) (k i : ℕ)
    → decided env url (k + suc i) ≡ decided env url (suc k + i)
shift env url k i = ap (decided env url) (omega arith)

find :
    (env : Server) (url : Text) (last i : ℕ) (a : Wait)
    → decided env url (last + i) ≡ some a
    → (steps : ℕ) × (answer : Wait) × (steps ≤ last) × First env url i steps answer
find env url zero i a e = (zero, a, omega arith, (e, λ j h. ground arith))
find env url (suc last) i a e =
    let later = find env url last (suc i) a (shift env url last i ∙ e) in
    at_first (decided env url i) refl later
  where
    at_first :
        (o : Option Wait)
        → decided env url i ≡ o
        → (steps : ℕ) × (answer : Wait) × (steps ≤ last) × First env url (suc i) steps answer
        → (steps : ℕ) × (answer : Wait) × (steps ≤ suc last) × First env url i steps answer
    at_first (some b) e later =
        (zero, b, omega arith, (ap (decided env url) (omega arith) ∙ e, λ j h. ground arith))
    at_first none none_here (k, b, le, (found, before)) =
        (suc k, b, omega arith, (sym (shift env url k i) ∙ found, earlier))
      where
        earlier : (j : ℕ) → j < suc k → decided env url (j + i) ≡ none
        earlier zero h = ap (decided env url) (omega arith) ∙ none_here
        earlier (suc j) h = sym (shift env url j i) ∙ before j (omega arith)

abbrev or_later : Option Wait → Option Wait → Option Wait
or_later none rest = rest
or_later (some a) rest = some a

wait_loop-step :
    (env : Server) (url : Text) (fuel i : ℕ)
    → wait_loop env url (suc fuel) i (elapsed_at env i)
      ≡ or_later (decided env url i) (wait_loop env url fuel (suc i) (elapsed_at env (suc i)))
unfolding wait_loop elapsed_at
wait_loop-step env url fuel i =
    by_bools (ltb max_total_wait (elapsed_at env i)) (not (env.parses url))
      (is_ready (env.response i)) (succeeds (env.response i)) (is_ready-succeeds (env.response i))
      (env.cancelled i) _
  where
    by_bools :
        (a p b b' : Bool)
        → b ≡ b'
        → (c : Bool) (rest : Option Wait)
        → (if a
            then some timed_out
            else if p
            then some panicked
            else if b
            then some ready
            else if c
            then some context_done
            else rest)
          ≡ or_later
              (if a
                then some timed_out
                else if p
                then some panicked
                else if b'
                then some ready
                else if c
                then some context_done
                else none)
              rest
    by_bools true p b b' e c rest = refl
    by_bools false true b b' e c rest = refl
    by_bools false false true true e c rest = refl
    by_bools false false true false e c rest = ground arith
    by_bools false false false true e c rest = ground arith
    by_bools false false false false e true rest = refl
    by_bools false false false false e false rest = refl

wait_loop-first :
    (env : Server) (url : Text) (fuel i k : ℕ) (a : Wait)
    → k < fuel
    → First env url i k a
    → wait_loop env url fuel i (elapsed_at env i) ≡ some a
wait_loop-first env url zero i k a h f = ground arith
wait_loop-first env url (suc fuel) i zero a h (found, before) =
    wait_loop-step env url fuel i
    ∙ ap (λ o. or_later o (wait_loop env url fuel (suc i) (elapsed_at env (suc i))))
        (ap (decided env url) (omega arith) ∙ found)
wait_loop-first env url (suc fuel) i (suc k) a h (found, before) =
    let later =
      wait_loop-first env url fuel (suc i) k a (omega arith)
        (shift env url k i ∙ found, λ j l. shift env url j i ∙ before (suc j) (omega arith)) in
    wait_loop-step env url fuel i
    ∙ ap (λ o. or_later o (wait_loop env url fuel (suc i) (elapsed_at env (suc i))))
        (ap (decided env url) (omega arith) ∙ before 0 (omega arith))
    ∙ later

-- Where every attempt takes some time, the wait for a given API ends within 22 attempts, however the
-- backoffs come out: with any fuel from 22 on it does what the first attempt decides that is past the
-- time allowed, panics for a URL that does not parse, is answered by a status from 200 to 399, or sees
-- the context end, in this order.
pub wait_for_api-ends :
    (env : Server) (fuel : ℕ) (base_url : Text)
    → IsTicking env
    → 22 ≤ fuel
    → (base_url == []) ≡ false
    → (i : ℕ) × (answer : Wait) × (i ≤ 21)
      × (decided env (health_url base_url) i ≡ some answer)
      × ((j : ℕ) → j < i → decided env (health_url base_url) j ≡ none)
      × (wait_for_api env fuel base_url ≡ some answer)
unfolding wait_for_api elapsed_at
wait_for_api-ends env fuel base_url tick enough set =
    let url = health_url base_url in
    let late = decision-late env url 21 (elapsed_at env 21) (elapsed_at-late env tick) in
    let (i, a, le, (found, before)) = find env url 21 0 timed_out late in
    (
      i,
      a,
      le,
      ap (decided env url) (omega arith) ∙ found,
      λ j h. ap (decided env url) (omega arith) ∙ before j h,
      rw set (wait_loop-first env url fuel 0 i a (omega arith) (found, before)),
    )
