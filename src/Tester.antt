-- ===== src/Tester.antt =====
-- cmd/tester/main.go: the wait for the API server, the tests of one package with their cache, and the
-- run over all packages. Times are in nanoseconds.
pub mod Waiting
pub mod Running
pub mod Caching
pub mod Passing
mod Tests
use api_toolkit.Prelude.{
  ℕ, zero, suc, ◌+◌, ◌-◌, ◌*◌, ◌≡◌, refl, Bool, true, false, not, ◌&&◌, ◌||◌, List, [], ◌∷◌, ◌++◌,
  Option, none, some, if◌then◌else◌, eqb, leb, ltb, within, is_space, Text, codes, trim_space,
  split_on, lookup, insert, ◌==◌, list_eq, map,
}
use api_toolkit.Prelude.Int.{ℤ, pos, negsuc, ◌-ℤ◌, scale, ltb_ℤ}

abbrev pub second : ℕ
second = 1_000_000_000

-- What `waitForAPI` meets: whether a URL parses, and by the number of the attempt the answer to the
-- request, the time that passes besides the sleep, the truncated power of the decay, and whether the
-- context ends in the sleep.
pub record Server : Type 0 where
  pub parses : Text → Bool
  pub response : ℕ → Option ℕ
  pub delay : ℕ → ℕ
  pub decayed : ℕ → ℤ
  pub cancelled : ℕ → Bool

pub data Wait : Type 0 where
  ready timed_out context_done not_set panicked : Wait

abbrev pub initial_backoff : ℕ
initial_backoff = 1 * second

abbrev pub max_backoff : ℕ
max_backoff = 30 * second

abbrev pub max_total_wait : ℕ
max_total_wait = 20 * second

-- `maxBackoff - d`, between the two bounds.
abbrev pub clamp : ℤ → ℕ
clamp (negsuc n) = initial_backoff
clamp (pos n) =
    let backoff = if ltb n initial_backoff then initial_backoff else n in
    if ltb max_backoff backoff then max_backoff else backoff

unfoldable pub backoff_of : ℤ → ℕ
backoff_of d = clamp (pos max_backoff -ℤ d)

unfoldable pub time_to_next : (backoff elapsed : ℕ) → ℕ
time_to_next backoff elapsed =
    if ltb max_total_wait (elapsed + backoff) then max_total_wait - elapsed else backoff

abbrev pub is_ready : Option ℕ → Bool
is_ready none = false
is_ready (some status) = leb 200 status && ltb status 400

-- `strings.TrimRight` with "/".
unfoldable pub trim_right : Text → Text
trim_right [] = []
trim_right (c ∷ s) = let rest = trim_right s in if eqb c b'/' && (rest == []) then [] else c ∷ rest

unfoldable pub health_url : Text → Text
unfolding trim_right
health_url base_url = trim_right base_url ++ codes "/health"

-- The loop, from an attempt and the time since the start; the clock is read once for each attempt.
-- The error of `http.NewRequestWithContext` is not looked at: where the URL does not parse, the request
-- is nil and its header panics.
unfoldable pub wait_loop : Server → Text → (fuel attempt elapsed : ℕ) → Option Wait
unfolding time_to_next backoff_of
wait_loop env url zero i elapsed = none
wait_loop env url (suc fuel) i elapsed =
    let next = time_to_next (backoff_of (env.decayed i)) elapsed in
    let rest = wait_loop env url fuel (suc i) (elapsed + env.delay i + next) in
    if ltb max_total_wait elapsed
    then some timed_out
    else if not (env.parses url)
    then some panicked
    else if is_ready (env.response i)
    then some ready
    else if env.cancelled i
    then some context_done
    else rest

-- `API_HOST` is not set where the text is empty.
unfoldable pub wait_for_api : Server → (fuel : ℕ) → Text → Option Wait
unfolding wait_loop health_url
wait_for_api env fuel base_url =
    if base_url == [] then some not_set else wait_loop env (health_url base_url) fuel 0 0
