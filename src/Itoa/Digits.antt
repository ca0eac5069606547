-- ===== src/Itoa/Digits.antt =====
-- `itoa` of middleware/ratelimit/ratelimit.go and middleware/metrics/metrics.go is read back by
-- `strconv.Atoi`, as long as its 12 bytes suffice.
use native.Mathlib.Nat.{pow-suc}
use api_toolkit.Prelude.{
  ℕ, zero, suc, ◌+◌, ◌-◌, ◌/◌, ◌%◌, ◌^◌, ◌≤◌, ◌<◌, ◌≡◌, ◌↔◌, inl, inr, refl, [], ◌∷◌, none, some,
  Text, codes, arith, digits_value, parse_nat, Option-cases, ◌≢◌,
}
use api_toolkit.Prelude.Int.{ℤ, pos, negsuc, parse_int64}
use api_toolkit.Itoa.{write_digits, itoa}

-- Reading what the loop wrote gives back what reading from `n` on would.
digits_value-write_digits :
    (i n j : ℕ) (out text : Text)
    → write_digits i n out ≡ some (j, text)
    → digits_value 0 text ≡ digits_value n out
unfolding write_digits digits_value
digits_value-write_digits zero n j out text h = ground arith
digits_value-write_digits (suc i) n j out text h =
    ground (arith, digits_value-write_digits i (n / 10) j ((b'0' + n % 10) ∷ out) text)

pow10_pos : (i : ℕ) → 1 ≤ 10 ^ i
pow10_pos zero = omega arith
pow10_pos (suc i) = rw pow-suc (omega (arith, pow10_pos i))

-- The loop leaves the array exactly when the number has more digits than there are bytes.
write_digits-eq-none_iff : (i n : ℕ) (out : Text) → (write_digits i n out ≡ none) ↔ (10 ^ i ≤ n)
unfolding write_digits
write_digits-eq-none_iff zero n out = ground arith
write_digits-eq-none_iff (suc i) n out =
    rw pow-suc
      (ground (arith, pow10_pos i, write_digits-eq-none_iff i (n / 10) ((b'0' + n % 10) ∷ out)))

-- A byte is left in front exactly when a number of one digit less was written.
write_digits-room :
    (i n j : ℕ) (out text : Text)
    → write_digits (suc i) n out ≡ some (j, text)
    → (j ≡ 0) ↔ (10 ^ i ≤ n)
unfolding write_digits
write_digits-room zero n j out text h = ground arith
write_digits-room (suc i) n j out text h =
    rw pow-suc
      (ground (arith, pow10_pos i, write_digits-room i (n / 10) j ((b'0' + n % 10) ∷ out) text))

-- The first byte written is a digit, so the text has no sign.
parse_unsigned :
    (text : Text) (n : ℕ)
    → text ≢ []
    → digits_value 0 text ≡ some n
    → n < 2 ^ 63
    → parse_int64 text ≡ some (pos n)
unfolding parse_int64 parse_nat digits_value
parse_unsigned [] n ne h fits = absurd (ne refl)
parse_unsigned (c ∷ text) n ne h fits = ground arith

parse_minus :
    (text : Text) (n : ℕ)
    → text ≢ []
    → digits_value 0 text ≡ some (suc n)
    → n < 2 ^ 63
    → parse_int64 (b'-' ∷ text) ≡ some (negsuc n)
unfolding parse_int64 parse_nat
parse_minus [] n ne h fits = absurd (ne refl)
parse_minus (c ∷ text) n ne h fits = ground arith

text-ne-nil : (n : ℕ) (text : Text) → n ≢ 0 → digits_value 0 text ≡ digits_value n [] → text ≢ []
unfolding digits_value
text-ne-nil n [] ne h = ground arith
text-ne-nil n (c ∷ text) ne h = cc

-- The integers whose decimal print, sign included, has at most 12 bytes.
abbrev pub Fits : ℤ → Type 0
Fits (pos n) = n < 10 ^ 12
Fits (negsuc n) = n + 1 < 10 ^ 11

-- A print of a number that is not 0 and fits: the loop succeeds, and its text reads back.
written :
    (i n : ℕ)
    → n ≢ 0
    → n < 10 ^ i
    → (j : ℕ) × (text : Text) × (write_digits i n [] ≡ some (j, text))
      × (digits_value 0 text ≡ some n)
      × (text ≢ [])
unfolding digits_value
written i n ne h = elim (Option-cases (write_digits i n [])) [
  | inl bad ↦ absurd (ground (arith, write_digits-eq-none_iff i n []))
  | inr ((j, text), e) ↦
      let v = digits_value-write_digits i n j [] text e in (j, text, e, v, text-ne-nil n text ne v)
]

-- Every integer whose decimal print has at most 12 bytes is printed, and `strconv.Atoi` reads the
-- print back as that integer.
pub parse_int64-itoa :
    (z : ℤ) → Fits z → (text : Text) × (itoa z ≡ some text) × (parse_int64 text ≡ some z)
unfolding itoa
parse_int64-itoa (pos zero) h = (codes "0", refl, unfold parse_int64 in refl)
parse_int64-itoa (pos (suc n)) h =
    let (j, text, e, v, ne) = written 12 (suc n) (omega arith) h in
    (text, ground (arith, e), parse_unsigned text (suc n) ne v (omega arith))
parse_int64-itoa (negsuc n) h =
    let (j, text, e, v, ne) = written 12 (suc n) (omega arith) (omega arith) in
    let room = write_digits-room 11 (suc n) j [] text e in
    (b'-' ∷ text, ground (arith, e, room), parse_minus text n ne v (omega arith))

-- Printing any other integer but the least int64 overruns the array: a run-time panic.
pub itoa-eq-none : (z : ℤ) → ¬ Fits z → z ≢ negsuc (2 ^ 63 - 1) → itoa z ≡ none
unfolding itoa
itoa-eq-none (pos n) big other = ground (arith, write_digits-eq-none_iff 12 n [])
itoa-eq-none (negsuc n) big other = elim (Option-cases (write_digits 12 (n + 1) [])) [
  | inl bad ↦ ground (arith, bad)
  | inr ((j, text), e) ↦ ground (arith, e, write_digits-room 11 (n + 1) j [] text e)
]
