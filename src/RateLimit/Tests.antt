-- ===== src/RateLimit/Tests.antt =====
-- Runs of middleware/ratelimit/ratelimit.go, and its theorem at a concrete input.
use api_toolkit.Prelude.{
  ℕ, ◌*◌, ◌≡◌, refl, List, [], ◌∷◌, Option, none, some, Text, codes, list_eq, lookup, insert,
  split_on, trim_space,
}
use api_toolkit.Prelude.Int.{pos, ◌+ℤ◌, ◌-ℤ◌, scale}
use api_toolkit.Prelude.Float.{
  finite, add, multiply, less, seconds, round, rounded, bits_from, whole,
}
use api_toolkit.RateLimit.{
  nano, Options, Middleware, Verdict, new, or_default, client_ip, handle, handle_key, refill,
  bucket_at, run, verdicts, served, too_many_requests, retry_after_text,
}
use api_toolkit.Itoa.{itoa, write_digits}
use api_toolkit.RateLimit.Keys.{only, verdicts-only}

limiter_open : Unit {0}
unfolding itoa write_digits new or_default client_ip handle handle_key refill bucket_at run verdicts
    only lookup insert ◌+ℤ◌ ◌-ℤ◌ scale split_on trim_space retry_after_text add multiply less
    seconds round rounded bits_from
limiter_open = tt

abbrev no_host : Text → Option Text
no_host addr = none

-- The sum of 0.1 and 0.2 is not 0.3 but the number of 53 bits above it.
tenths :
    add (finite (pos 3602879701896397) 55) (finite (pos 3602879701896397) 54)
    ≡ finite (pos 5404319552844596) 54
unfolding limiter_open
tenths = refl

-- Two tokens, and one more each second.
abbrev small : Options
small = record { capacity = whole 2; refill_rate = whole 1; key = none; retry_after = pos 0 }

abbrev a : Text
a = codes "a"

abbrev burst : List (Text × ℕ)
burst = (a, 5) ∷ (a, 6) ∷ (codes "b", 6) ∷ (a, 7) ∷ (a, 2 * nano) ∷ []

abbrev refused : Verdict
refused = too_many_requests (some (codes "1"))

burst_answers : verdicts (new no_host small) a burst ≡ served ∷ served ∷ refused ∷ served ∷ []
unfolding limiter_open
burst_answers = refl

-- An empty bucket, and a token each second: the four refills of a second in all come to less than a
-- token in float64.
abbrev emptied : Middleware
emptied = record {
  capacity = whole 1;
  refill_rate = whole 1;
  key = λ r. r.remote_addr;
  retry_after = pos 0;
  buckets = (a, record { tokens = whole 0; last_seen = 0 }) ∷ [];
}

rounded_down :
    verdicts emptied a
      ((a, 700_000_000) ∷ (a, 800_000_000) ∷ (a, 900_000_000) ∷ (a, 1_000_000_000) ∷ [])
    ≡ refused ∷ refused ∷ refused ∷ refused ∷ []
unfolding limiter_open
rounded_down = refl

forwarded :
    client_ip no_host (record { forwarded_for = codes " 10.0.0.1 , 10.0.0.2"; remote_addr = [] })
    ≡ codes "10.0.0.1"
unfolding limiter_open
forwarded = refl

verdicts-only_example :
    (verdicts (new no_host small) a burst ≡ verdicts (new no_host small) a (only a burst))
    × (lookup a (run (new no_host small) burst).buckets
        ≡ lookup a (run (new no_host small) (only a burst)).buckets)
verdicts-only_example = verdicts-only (new no_host small) a burst
