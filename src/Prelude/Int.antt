-- ===== src/Prelude/Int.antt =====
-- Signed integers over the native numbers, with the order and the sums that the code uses, and
-- `strconv.ParseInt` at 64 bits.
use Prim.Native.Nat.{ℕ, zero, suc, ◌+◌, ◌-◌, ◌*◌, ◌^◌, ◌≤◌, ◌<◌}
use mathlib.Core.Path.{◌≡◌, refl}
use mathlib.Core.Bool.{Bool}
use mathlib.Core.List.{[], ◌∷◌}
use mathlib.Core.Option.{Option, none, some}
use native.Mathlib.Omega.{arith}
use api_toolkit.Prelude.Tests.{ltb, leb, eqb, if◌then◌else◌}
use api_toolkit.Prelude.Strings.{Text, codes, parse_nat, check_range}

-- `negsuc n` is -(n + 1).
pub data ℤ : Type 0 where
  pos : ℕ → ℤ
  negsuc : ℕ → ℤ

abbrev pub pos_part : ℤ → ℕ
pos_part (pos n) = n
pos_part (negsuc n) = 0

abbrev pub neg_part : ℤ → ℕ
neg_part (pos n) = 0
neg_part (negsuc n) = suc n

-- a - b, as an integer.
abbrev pub sub_ℕ : ℕ → ℕ → ℤ
sub_ℕ a b = if leb b a then pos (a - b) else negsuc (b - a - 1)

infixl 65 ◌+ℤ◌ ◌-ℤ◌
infix 50 ◌≤ℤ◌ ◌<ℤ◌
unfoldable pub ◌+ℤ◌ : ℤ → ℤ → ℤ
a +ℤ b = sub_ℕ (pos_part a + pos_part b) (neg_part a + neg_part b)

unfoldable pub ◌-ℤ◌ : ℤ → ℤ → ℤ
a -ℤ b = sub_ℕ (pos_part a + neg_part b) (neg_part a + pos_part b)

-- r · a for a natural number r.
unfoldable pub scale : ℕ → ℤ → ℤ
scale r a = sub_ℕ (r * pos_part a) (r * neg_part a)

abbrev pub ◌≤ℤ◌ : ℤ → ℤ → Type 0
a ≤ℤ b = pos_part a + neg_part b ≤ pos_part b + neg_part a

abbrev pub ◌<ℤ◌ : ℤ → ℤ → Type 0
a <ℤ b = pos_part a + neg_part b < pos_part b + neg_part a

abbrev pub ltb_ℤ : ℤ → ℤ → Bool
ltb_ℤ a b = ltb (pos_part a + neg_part b) (pos_part b + neg_part a)

pub +ℤ_parts :
    (a b : ℤ)
    → pos_part (a +ℤ b) + neg_part a + neg_part b ≡ neg_part (a +ℤ b) + pos_part a + pos_part b
unfolding ◌+ℤ◌
+ℤ_parts a b = ground arith

pub -ℤ_parts :
    (a b : ℤ)
    → pos_part (a -ℤ b) + neg_part a + pos_part b ≡ neg_part (a -ℤ b) + pos_part a + neg_part b
unfolding ◌-ℤ◌
-ℤ_parts a b = ground arith

pub scale_parts :
    (r : ℕ) (a : ℤ) → pos_part (scale r a) + r * neg_part a ≡ neg_part (scale r a) + r * pos_part a
unfolding scale
scale_parts r a = ground arith

-- `strconv.ParseInt(s, 10, 64)` and `strconv.Atoi`: an optional sign, digits, and the range.
abbrev pub negate : Option ℕ → Option ℤ
negate none = none
negate (some zero) = some (pos 0)
negate (some (suc n)) = some (negsuc n)

abbrev pub positive : Option ℕ → Option ℤ
positive none = none
positive (some n) = some (pos n)

unfoldable pub parse_int64 : Text → Option ℤ
unfolding parse_nat
parse_int64 [] = none
parse_int64 (c ∷ s) =
    if eqb c b'-'
    then negate (check_range (2 ^ 63) (parse_nat s))
    else if eqb c b'+'
    then positive (check_range (2 ^ 63 - 1) (parse_nat s))
    else positive (check_range (2 ^ 63 - 1) (parse_nat (c ∷ s)))

min_int64 : parse_int64 (codes "-9223372036854775808") ≡ some (negsuc (2 ^ 63 - 1))
unfolding parse_int64
min_int64 = refl

out_of_range : parse_int64 (codes "9223372036854775808") ≡ none
unfolding parse_int64
out_of_range = refl

not_a_number : (parse_int64 (codes " 5") ≡ none) × (parse_int64 (codes "-") ≡ none)
unfolding parse_int64
not_a_number = (refl, refl)
