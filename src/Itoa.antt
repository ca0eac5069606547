-- ===== src/Itoa.antt =====
-- The function `itoa` of middleware/ratelimit/ratelimit.go, which middleware/metrics/metrics.go
-- repeats: decimal print into an array of 12 bytes. An index below 0 is a run-time panic: `none`.
pub mod Digits
mod Tests
use api_toolkit.Prelude.{
  ℕ, zero, suc, ◌+◌, ◌-◌, ◌*◌, ◌/◌, ◌%◌, ◌^◌, ◌≡◌, refl, Bool, true, false, [], ◌∷◌, Option, none,
  some, Text, codes, eqb, if◌then◌else◌,
}
use api_toolkit.Prelude.Int.{ℤ, pos, negsuc}

-- What the loop leaves: the index of the first byte written, and the bytes from there on.
abbrev pub Written : Type 0
Written = Option (ℕ × Text)

-- `for n > 0`: the index `i` falls by one in each round.
unfoldable pub write_digits : ℕ → ℕ → Text → Written
write_digits zero n out = if eqb n 0 then some (0, out) else none
write_digits (suc i) n out =
    let rest = write_digits i (n / 10) ((b'0' + n % 10) ∷ out) in
    if eqb n 0 then some (suc i, out) else rest

unfoldable pub write_sign : Bool → Written → Option Text
write_sign neg none = none
write_sign false (some (i, out)) = some out
write_sign true (some (zero, out)) = none
write_sign true (some (suc i, out)) = some (b'-' ∷ out)

-- `n = -n` in an int64: the least integer is its own negation, and the loop does not run on it.
unfoldable pub magnitude : ℤ → ℕ
magnitude (pos n) = n
magnitude (negsuc n) = if eqb (n + 1) (2 ^ 63) then 0 else n + 1

abbrev pub is_neg : ℤ → Bool
is_neg (pos n) = false
is_neg (negsuc n) = true

abbrev pub is_zero : ℤ → Bool
is_zero (pos n) = eqb n 0
is_zero (negsuc n) = false

unfoldable pub itoa : ℤ → Option Text
unfolding write_sign magnitude
itoa n =
    if is_zero n then some (codes "0") else write_sign (is_neg n) (write_digits 12 (magnitude n) [])

itoa_negative : itoa (negsuc 1203) ≡ some (codes "-1204")
unfolding itoa write_digits
itoa_negative = refl

itoa_overflow : itoa (pos (10 ^ 12)) ≡ none
unfolding itoa write_digits
itoa_overflow = refl

itoa_least : itoa (negsuc (2 ^ 63 - 1)) ≡ some (codes "-")
unfolding itoa write_digits
itoa_least = refl
