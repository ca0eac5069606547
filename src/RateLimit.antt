-- ===== src/RateLimit.antt =====
-- middleware/ratelimit/ratelimit.go: a token bucket for each key. The numbers of tokens are those of
-- float64, computed without fused products. Times are nanoseconds.
pub mod Keys
mod Tests
use api_toolkit.Prelude.{
  ℕ, zero, suc, ◌+◌, ◌-◌, ◌*◌, ◌/◌, ◌^◌, ◌≡◌, refl, Bool, true, false, ◌&&◌, String, List, [], ◌∷◌,
  Option, none, some, Text, codes, if◌then◌else◌, ◌==◌, list_eq, lookup, insert, split_on,
  trim_space, ltb,
}
use api_toolkit.Prelude.Int.{ℤ, pos, negsuc, ◌-ℤ◌}
use api_toolkit.Prelude.Float.{
  Float, add, subtract, multiply, less, at_most, whole, seconds, truncate,
}
use api_toolkit.Itoa.{itoa}

-- One second.
abbrev pub nano : ℕ
nano = 1_000_000_000

pub record Request : Type 0 where
  pub forwarded_for : Text
  pub remote_addr : Text

-- `key` is `none` for nil.
pub record Options : Type 0 where
  pub capacity : Float
  pub refill_rate : Float
  pub key : Option (Request → Text)
  pub retry_after : ℤ

pub record Bucket : Type 0 where
  pub tokens : Float
  pub last_seen : ℕ

pub record Middleware : Type 0 where
  pub capacity : Float
  pub refill_rate : Float
  pub key : Request → Text
  pub retry_after : ℤ
  pub buckets : List (Text × Bucket)

abbrev first_part : List Text → Text
first_part [] = []
first_part (p ∷ ps) = p

abbrev host_or : Option Text → Text → Text
host_or none addr = addr
host_or (some host) addr = host

-- `split_host_port` stands for `net.SplitHostPort`: the host, or `none` for an error.
unfoldable pub client_ip : (split_host_port : Text → Option Text) → Request → Text
client_ip split_host_port r =
    if r.forwarded_for == []
    then host_or (split_host_port r.remote_addr) r.remote_addr
    else trim_space (first_part (split_on b',' r.forwarded_for))

-- `if x <= 0 { x = default }`, which keeps NaN.
unfoldable pub or_default : Float → Float → Float
unfolding less
or_default default x = if at_most x (whole 0) then default else x

abbrev key_or : (Request → Text) → Option (Request → Text) → Request → Text
key_or f none = f
key_or f (some g) = g

unfoldable pub new : (split_host_port : Text → Option Text) → Options → Middleware
unfolding or_default
new split_host_port opts = record {
  capacity = or_default (whole 20) opts.capacity;
  refill_rate = or_default (whole 10) opts.refill_rate;
  key = key_or (client_ip split_host_port) opts.key;
  retry_after = opts.retry_after;
  buckets = [];
}

-- `time.Time.Sub`, which stops at the bounds of an int64.
abbrev saturate : ℤ → ℤ
saturate (pos n) = pos (if ltb n (2 ^ 63) then n else 2 ^ 63 - 1)
saturate (negsuc n) = negsuc (if ltb n (2 ^ 63) then n else 2 ^ 63 - 1)

-- The bucket with what the time since `last_seen` adds, at most the capacity.
unfoldable pub refill : Middleware → Bucket → ℕ → Bucket
unfolding add multiply seconds less ◌-ℤ◌
refill m b now =
    let elapsed = seconds (saturate (pos now -ℤ pos b.last_seen)) in
    let tokens = add b.tokens (multiply elapsed m.refill_rate) in
    record { tokens = if less m.capacity tokens then m.capacity else tokens; last_seen = now }

abbrev found_or : Bucket → Option Bucket → Bucket
found_or b none = b
found_or b (some c) = c

unfoldable pub bucket_at : Middleware → Text → ℕ → Bucket
bucket_at m key now =
    found_or (record { tokens = m.capacity; last_seen = now }) (lookup key m.buckets)

abbrev or_second : ℤ → ℕ
or_second (pos zero) = nano
or_second (pos (suc n)) = suc n
or_second (negsuc n) = nano

-- The header Retry-After: the truncated seconds of `RetryAfter`, one where it is not positive.
unfoldable pub retry_after_text : ℤ → Option Text
unfolding seconds
retry_after_text ra = itoa (truncate (seconds (pos (or_second ra))))

-- What the handler answers: it calls `next`, or it sends 429 with the header Retry-After; `none`
-- there is the panic of `itoa`.
pub data Verdict : Type 0 where
  served : Verdict
  too_many_requests : Option Text → Verdict

-- The critical section of `Handler` and what follows it, for a request of one key. `now` is read
-- before the lock is taken, so the times of successive calls need not ascend.
unfoldable pub handle_key : Middleware → Text → ℕ → Middleware × Verdict
unfolding refill bucket_at less add
handle_key m key now =
    let b = refill m (bucket_at m key now) now in
    if less b.tokens (whole 1)
    then (
      record m { buckets = insert key b m.buckets },
      too_many_requests (retry_after_text m.retry_after),
    )
    else (
      record m {
        buckets = insert key (record b { tokens = subtract b.tokens (whole 1) }) m.buckets;
      },
      served,
    )

unfoldable pub handle : Middleware → Request → ℕ → Middleware × Verdict
handle m r now = handle_key m (m.key r) now

-- Requests in the order in which they take the lock.
unfoldable pub run : Middleware → List (Text × ℕ) → Middleware
run m [] = m
run m ((key, now) ∷ rest) = run (handle_key m key now).0 rest

-- What the requests of `key` are answered, in their order.
unfoldable pub verdicts : Middleware → Text → List (Text × ℕ) → List Verdict
verdicts m key [] = []
verdicts m key ((j, now) ∷ rest) =
    let (m', verdict) = handle_key m j now in
    let later = verdicts m' key rest in if j == key then verdict ∷ later else later
