-- ===== src/Prelude/Float.antt =====
-- The type float64 of Go: finite numbers, infinities and NaN, with sums and products rounded to the
-- nearest number of 53 bits, the even one of two. The sign of zero is left out.
use Prim.Native.Nat.{ℕ, ◌+◌, ◌-◌, ◌*◌, ◌/◌, ◌%◌, ◌^◌, max}
use mathlib.Core.Bool.{Bool, true, false, not, ◌&&◌, ◌||◌}
use mathlib.Core.List.{List, [], ◌∷◌}
use api_toolkit.Prelude.Tests.{eqb, ltb, leb, if◌then◌else◌}
use api_toolkit.Prelude.Int.{ℤ, pos, negsuc, sub_ℕ, ◌+ℤ◌, scale, ltb_ℤ}

-- `finite n e` is n / 2ᵉ.
pub data Float : Type 0 where
  finite : ℤ → ℕ → Float
  infinite : (negative : Bool) → Float
  nan : Float

-- The number of bits, for a number below 2 ^ 4096: by halves of the widths.
unfoldable pub bits_from : List ℕ → ℕ → ℕ
bits_from [] n = if eqb n 0 then 0 else 1
bits_from (k ∷ ks) n =
    let wide = leb (2 ^ k) n in
    let rest = bits_from ks (if wide then n / 2 ^ k else n) in if wide then k + rest else rest

abbrev pub bits : ℕ → ℕ
bits = bits_from (2048 ∷ 1024 ∷ 512 ∷ 256 ∷ 128 ∷ 64 ∷ 32 ∷ 16 ∷ 8 ∷ 4 ∷ 2 ∷ 1 ∷ [])

-- n / 2ᵏ, rounded to the nearest number, the even one of two.
abbrev pub half_even : (n k : ℕ) → ℕ
half_even n k =
    let q = n / 2 ^ k in
    let r = n % 2 ^ k in
    let half = 2 ^ (k - 1) in if ltb half r || (eqb r half && eqb (q % 2) 1) then q + 1 else q

abbrev signed : Bool → ℕ → ℕ → Float
signed true m e = finite (sub_ℕ 0 m) e
signed false m e = finite (pos m) e

-- The number of 53 bits, none of them below 2⁻¹⁰⁷⁴, that is nearest to ± n / 2ᵉ.
unfoldable pub round : (negative : Bool) → (n e : ℕ) → Float
unfolding bits_from
round negative n e =
    let drop = max (bits n - 53) (e - 1074) in
    let q = half_even n drop in
    if leb drop e
    then signed negative q (e - drop)
    else if ltb (q * 2 ^ (drop - e)) (2 ^ 1024)
    then signed negative (q * 2 ^ (drop - e)) 0
    else infinite negative

unfoldable pub rounded : ℤ → ℕ → Float
unfolding round
rounded (pos n) e = round false n e
rounded (negsuc n) e = round true (n + 1) e

abbrev is_negative : ℤ → Bool
is_negative (pos n) = false
is_negative (negsuc n) = true

abbrev is_zero : ℤ → Bool
is_zero (pos n) = eqb n 0
is_zero (negsuc n) = false

abbrev differ : Bool → Bool → Bool
differ true b = not b
differ false b = b

unfoldable pub add : Float → Float → Float
unfolding rounded ◌+ℤ◌ scale
add (finite a e) (finite b f) = rounded (scale (2 ^ f) a +ℤ scale (2 ^ e) b) (e + f)
add (finite a e) (infinite n) = infinite n
add (finite a e) nan = nan
add (infinite n) (finite b f) = infinite n
add (infinite n) (infinite m) = if differ n m then nan else infinite n
add (infinite n) nan = nan
add nan y = nan

abbrev negated : Float → Float
negated (finite (pos n) e) = finite (sub_ℕ 0 n) e
negated (finite (negsuc n) e) = finite (pos (n + 1)) e
negated (infinite n) = infinite (not n)
negated nan = nan

abbrev pub subtract : Float → Float → Float
subtract x y = add x (negated y)

abbrev magnitude : ℤ → ℕ
magnitude (pos n) = n
magnitude (negsuc n) = n + 1

abbrev times_infinite : ℤ → Bool → Float
times_infinite a n = if is_zero a then nan else infinite (differ (is_negative a) n)

unfoldable pub multiply : Float → Float → Float
unfolding round
multiply (finite a e) (finite b f) =
    round (differ (is_negative a) (is_negative b)) (magnitude a * magnitude b) (e + f)
multiply (finite a e) (infinite n) = times_infinite a n
multiply (finite a e) nan = nan
multiply (infinite n) (finite b f) = times_infinite b n
multiply (infinite n) (infinite m) = infinite (differ n m)
multiply (infinite n) nan = nan
multiply nan y = nan

-- `x < y` and `x <= y`, false where one is NaN.
unfoldable pub less : Float → Float → Bool
unfolding scale
less (finite a e) (finite b f) = ltb_ℤ (scale (2 ^ f) a) (scale (2 ^ e) b)
less (finite a e) (infinite n) = not n
less (finite a e) nan = false
less (infinite n) (finite b f) = n
less (infinite n) (infinite m) = n && not m
less (infinite n) nan = false
less nan y = false

abbrev pub is_nan : Float → Bool
is_nan nan = true
is_nan _ = false

abbrev pub at_most : Float → Float → Bool
at_most x y = not (is_nan x || is_nan y || less y x)

abbrev pub whole : ℕ → Float
whole n = finite (pos n) 0

-- n / 10⁹ for n < 10⁹. The quotient has at least 61 bits, and a last one for what is left of the
-- division, so that rounding it rounds the exact quotient.
abbrev billionths : Bool → ℕ → Float
billionths negative n =
    let q = n * 2 ^ 90 / 1_000_000_000 in
    let last = if eqb (n * 2 ^ 90 % 1_000_000_000) 0 then 0 else 1 in
    round negative (2 * q + last) 91

-- `Duration.Seconds`, of a number of nanoseconds: `float64(sec) + float64(nsec)/1e9`.
unfoldable pub seconds : ℤ → Float
unfolding add round
seconds (pos n) = add (round false (n / 1_000_000_000) 0) (billionths false (n % 1_000_000_000))
seconds (negsuc n) =
    add (round true ((n + 1) / 1_000_000_000) 0) (billionths true ((n + 1) % 1_000_000_000))

-- The conversion to an integer, towards 0; what it gives for an infinity or NaN is not specified by
-- Go.
abbrev pub truncate : Float → ℤ
truncate (finite (pos n) e) = pos (n / 2 ^ e)
truncate (finite (negsuc n) e) = sub_ℕ 0 ((n + 1) / 2 ^ e)
truncate _ = pos 0
