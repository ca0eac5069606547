-- ===== src/Migrator/Naming.antt =====
-- The names of migration files that migrator/migrator.go accepts: `parseFileName` and `fileRe`.
use api_toolkit.Prelude.{
  ℕ, zero, suc, ◌+◌, ◌-◌, ◌*◌, ◌^◌, ◌≤◌, ◌<◌, ◌≡◌, ◌≢◌, refl, Bool, true, false, [], ◌∷◌, ◌++◌,
  some, any, any-append, all, length, eqb, Text, codes, within, is_digit, digits_value, parse_nat,
  check_range, strip_prefix, list_eq, arith,
}
use api_toolkit.Migrator.{
  Direction, down, up, Migration, span, strip_slashes, after_slash, is_name_char, direction_of,
  parse_rest, migration_of, parse_file_name,
}

-- The end of a file's name.
abbrev pub suffix : Direction → Text
suffix up = codes ".up.sql"
suffix down = codes ".down.sql"

abbrev pub file_name : Text → Text → Direction → Text
file_name digits name dir = digits ++ (b'_' ∷ (name ++ suffix dir))

span-append :
    (p : ℕ → Bool) (xs : Text) (c : ℕ) (rest : Text)
    → all p xs ≡ true
    → p c ≡ false
    → span p (xs ++ c ∷ rest) ≡ (xs, c ∷ rest)
unfolding span
span-append p [] c rest h stop = rw stop refl
span-append p (x ∷ xs) c rest h stop =
    let hx : p x ≡ true = ground arith in
    let hxs : all p xs ≡ true = ground arith in rw (hx, span-append p xs c rest hxs stop) refl

no_slash-strip : (s : Text) → any (eqb b'/') s ≡ false → strip_slashes s ≡ s
unfolding strip_slashes
no_slash-strip [] h = refl
no_slash-strip (c ∷ s) h = ground (arith, no_slash-strip s)

no_slash-after : (s : Text) → any (eqb b'/') s ≡ false → after_slash s ≡ s
unfolding after_slash
no_slash-after [] h = refl
no_slash-after (c ∷ s) h = rw h refl

digits-no_slash : (s : Text) → all is_digit s ≡ true → any (eqb b'/') s ≡ false
digits-no_slash [] h = refl
digits-no_slash (c ∷ s) h = ground (arith, digits-no_slash s)

name-no_slash : (s : Text) → all is_name_char s ≡ true → any (eqb b'/') s ≡ false
name-no_slash [] h = refl
name-no_slash (c ∷ s) h = ground (arith, name-no_slash s)

suffix-no_slash : (d : Direction) → any (eqb b'/') (suffix d) ≡ false
suffix-no_slash up = refl
suffix-no_slash down = refl

file_name-no_slash :
    (digits name : Text) (d : Direction)
    → all is_digit digits ≡ true
    → all is_name_char name ≡ true
    → any (eqb b'/') (file_name digits name d) ≡ false
file_name-no_slash digits name d hd hn = ground (
  arith,
  any-append (eqb b'/') digits (b'_' ∷ (name ++ suffix d)),
  any-append (eqb b'/') name (suffix d),
  digits-no_slash digits hd,
  name-no_slash name hn,
  suffix-no_slash d,
)

abbrev raised : ℕ → ℕ → ℕ
raised b zero = b
raised b (suc k) = raised (10 * b) k

raised-ge : (b k : ℕ) → b ≤ raised b k
raised-ge b zero = omega arith
raised-ge b (suc k) = omega (arith, raised-ge (10 * b) k)

-- At most `k` digits behind a number below `b`.
digits_value-bound :
    (s : Text) (n b k : ℕ)
    → n < b
    → length s ≤ k
    → all is_digit s ≡ true
    → (v : ℕ) × (digits_value n s ≡ some v) × (v < raised b k)
unfolding digits_value
digits_value-bound [] n b k h hk hs = (n, refl, omega (arith, raised-ge b k))
digits_value-bound (c ∷ s) n b zero h hk hs = ground arith
digits_value-bound (c ∷ s) n b (suc k) h hk hs =
    let hc : is_digit c ≡ true = ground arith in
    let small : n * 10 + (c - b'0') < 10 * b = ground arith in
    let (v, e, bound) =
      digits_value-bound s (n * 10 + (c - b'0')) (10 * b) k small (omega arith) (ground arith) in
    (v, rw hc e, bound)

version_of :
    (digits : Text)
    → 8 ≤ length digits
    → length digits ≤ 14
    → all is_digit digits ≡ true
    → (v : ℕ) × (check_range (2 ^ 63 - 1) (parse_nat digits) ≡ some v)
      × (parse_nat digits ≡ some v)
      × (v < 10 ^ 14)
unfolding parse_nat
version_of [] h8 h14 hd = ground arith
version_of (c ∷ s) h8 h14 hd =
    let (v, e, bound) = digits_value-bound (c ∷ s) 0 1 14 (omega arith) h14 hd in
    (v, rw e (ground arith), e, bound)

direction_of-suffix : (d : Direction) → direction_of (suffix d) ≡ some d
unfolding direction_of
direction_of-suffix up = refl
direction_of-suffix down = refl

span_name :
    (name : Text) (d : Direction)
    → all is_name_char name ≡ true
    → span is_name_char (name ++ suffix d) ≡ (name, suffix d)
span_name name up h = span-append is_name_char name b'.' (codes "up.sql") h refl
span_name name down h = span-append is_name_char name b'.' (codes "down.sql") h refl

parse_rest-name :
    (file digits name : Text) (d : Direction) (v : ℕ)
    → name ≢ []
    → all is_name_char name ≡ true
    → check_range (2 ^ 63 - 1) (parse_nat digits) ≡ some v
    → parse_rest file digits (strip_prefix (codes "_") (b'_' ∷ (name ++ suffix d)))
      ≡ some (record { version = v; name = name; dir = d; file = file; sql = []; checksum = [] })
unfolding parse_rest migration_of strip_prefix
parse_rest-name file digits [] d v nonempty hn ranged = elim (nonempty refl) [ ]
parse_rest-name file digits (c ∷ cs) d v nonempty hn ranged =
    rw (span_name (c ∷ cs) d hn) (rw (ranged, direction_of-suffix d) refl)

-- From eight to fourteen digits, `_`, a name of letters, digits, `_` and `-`, not empty, and the
-- suffix of a direction: the file is a migration with the number that the digits spell, that name and
-- that direction, and its version is below 10¹⁴.
pub parse_file_name-file_name :
    (digits name : Text) (d : Direction)
    → 8 ≤ length digits
    → length digits ≤ 14
    → all is_digit digits ≡ true
    → all is_name_char name ≡ true
    → name ≢ []
    → (m : Migration) × (parse_file_name (file_name digits name d) ≡ some m)
      × (parse_nat digits ≡ some m.version)
      × (m.version < 10 ^ 14)
      × (m.name ≡ name)
      × (m.dir ≡ d)
unfolding parse_file_name parse_rest migration_of
parse_file_name-file_name digits name d h8 h14 hd hn nonempty =
    let s = file_name digits name d in
    let (v, ranged, e, bound) = version_of digits h8 h14 hd in
    let plain = file_name-no_slash digits name d hd hn in
    let counted : within 8 14 (length digits) ≡ true = ground arith in
    let split_digits : span is_digit s ≡ (digits, b'_' ∷ (name ++ suffix d)) =
      span-append is_digit digits b'_' (name ++ suffix d) hd refl in
    let found : Migration = record {
      version = v;
      name = name;
      dir = d;
      file = s;
      sql = [];
      checksum = [];
    } in
    (
      found,
      rw (no_slash-strip s plain, no_slash-after s plain)
          (rw (split_digits) (rw counted (parse_rest-name s digits name d v nonempty hn ranged))),
      e,
      bound,
      refl,
      refl,
    )
