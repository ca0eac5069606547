-- ===== src/Envvar/Redaction.antt =====
-- What DumpRedacted of envvar/envvar.go shows.
use mathlib.Core.List.{reverse, reverse-append}
use api_toolkit.Prelude.{
  ◌≡◌, refl, sym, ap, ◌∙◌, ◌⊎◌, inl, inr, Bool, true, false, List, [], ◌∷◌, ◌++◌, map, ◌||◌, Option,
  none, some, if◌then◌else◌, Text, codes, has_prefix, contains, has_suffix, arith, lookup,
  lookup-insert, lookup-nil, text_eq_iff, ◌==◌, list_eq,
}
use api_toolkit.Envvar.{Entries, cut, upper, is_secret, shown, add_entry, dump, dump_redacted}

-- The value of the last entry of that name.
abbrev valued : Text → Option (Text × Text) → Option Text → Option Text
valued k none before = before
valued k (some (j, v)) before = if j == k then some v else before

pub last_value : Text → List Text → Option Text → Option Text
last_value k [] before = before
last_value k (kv ∷ rest) before = last_value k rest (valued k (cut kv) before)

abbrev pub redacted : Text → Option Text → Option Text
redacted k none = none
redacted k (some v) = some (shown k v)

lookup-add_entry :
    (k : Text) (e : Option (Text × Text)) (out : Entries) (before : Option Text)
    → lookup k out ≡ redacted k before
    → lookup k (add_entry e out) ≡ redacted k (valued k e before)
lookup-add_entry k none out before h = h
lookup-add_entry k (some (j, v)) out before h =
    lookup-insert j k (shown j v) out ∙ by_bool (j == k) refl
  where
    by_bool :
        (b : Bool)
        → (j == k) ≡ b
        → (if b then some (shown j v) else lookup k out) ≡ redacted k (if b then some v else before)
    by_bool true e = ap (λ x. some (shown x v)) ((text_eq_iff j k).0 e)
    by_bool false e = h

lookup-dump :
    (k : Text) (environ : List Text) (out : Entries) (before : Option Text)
    → lookup k out ≡ redacted k before
    → lookup k (dump environ out) ≡ redacted k (last_value k environ before)
unfolding dump last_value
lookup-dump k [] out before h = h
lookup-dump k (kv ∷ rest) out before h =
    lookup-dump k rest (add_entry (cut kv) out) (valued k (cut kv) before)
      (lookup-add_entry k (cut kv) out before h)

-- For every name, the dump has "***" where the name is one of a secret, and otherwise the value of the
-- last entry of that name; it has nothing for a name that no entry with "=" has.
pub lookup-dump_redacted :
    (k : Text) (environ : List Text)
    → lookup k (dump_redacted environ) ≡ redacted k (last_value k environ none)
unfolding dump_redacted
lookup-dump_redacted k environ = lookup-dump k environ [] none (lookup-nil k)

-- What a word has in front of it and behind it.
abbrev Holds : (word text : Text) → Type 0
Holds word text = (pre : Text) × (post : Text) × (text ≡ pre ++ word ++ post)

-- The name of a secret: in any case of its letters, it has one of three words in it, or "_KEY" at its
-- end.
abbrev pub IsSecretName : Text → Type 0
IsSecretName k =
    Holds (codes "SECRET") (map upper k)
    ⊎ Holds (codes "TOKEN") (map upper k)
    ⊎ Holds (codes "PASSWORD") (map upper k)
    ⊎ ((pre : Text) × (map upper k ≡ pre ++ codes "_KEY"))

has_prefix-append : (p s : Text) → has_prefix p (p ++ s) ≡ true
unfolding has_prefix
has_prefix-append [] s = refl
has_prefix-append (c ∷ p) s = ground (arith, has_prefix-append p s)

contains-here : (word text : Text) → has_prefix word text ≡ true → contains word text ≡ true
unfolding contains
contains-here word [] h = h
contains-here word (c ∷ text) h = rw h refl

contains-append : (word pre post : Text) → contains word (pre ++ word ++ post) ≡ true
unfolding contains
contains-append word [] post = contains-here word (word ++ post) (has_prefix-append word post)
contains-append word (c ∷ pre) post =
    rw (contains-append word pre post) (or-true (has_prefix word (c ∷ pre ++ word ++ post)))
  where
    or-true : (b : Bool) → (b || true) ≡ true
    or-true true = refl
    or-true false = refl

has_suffix-append : (suffix pre : Text) → has_suffix suffix (pre ++ suffix) ≡ true
unfolding has_suffix
has_suffix-append suffix pre =
    rw (reverse-append pre suffix) (has_prefix-append (reverse suffix) (reverse pre))

some_of :
    (a b c d : Bool) → (a ≡ true) ⊎ (b ≡ true) ⊎ (c ≡ true) ⊎ (d ≡ true) → (a || b || c || d) ≡ true
some_of a b c d h = ground arith

is_secret_lem : (k : Text) → IsSecretName k → is_secret k ≡ true
unfolding is_secret
is_secret_lem k h =
    some_of (contains (codes "SECRET") (map upper k)) (contains (codes "TOKEN") (map upper k))
      (contains (codes "PASSWORD") (map upper k)) (has_suffix (codes "_KEY") (map upper k))
      (elim h [
        | inl (pre, post, e) ↦ inl (rw e (contains-append (codes "SECRET") pre post))
        | inr (inl (pre, post, e)) ↦ inr (inl (rw e (contains-append (codes "TOKEN") pre post)))
        | inr (inr (inl (pre, post, e))) ↦
            inr (inr (inl (rw e (contains-append (codes "PASSWORD") pre post))))
        | inr (inr (inr (pre, e))) ↦ inr (inr (inr (rw e (has_suffix-append (codes "_KEY") pre))))
      ])

-- Entries that differ at most in the value of a secret.
abbrev pub Alike : Option (Text × Text) → Option (Text × Text) → Type 0
Alike none none = Unit
Alike (some (j, v)) (some (k, u)) = (j ≡ k) × (IsSecretName j ⊎ (v ≡ u))
Alike _ _ = ⊥

abbrev pub AllAlike : List Text → List Text → Type 0
AllAlike [] [] = Unit
AllAlike (e ∷ es) (d ∷ ds) = Alike (cut e) (cut d) × AllAlike es ds
AllAlike _ _ = ⊥

shown_blind : (j k v u : Text) → j ≡ k → IsSecretName j ⊎ (v ≡ u) → shown j v ≡ shown k u
shown_blind j k v u e (inl secret) = rw (sym e, is_secret_lem j secret) refl
shown_blind j k v u e (inr same) = rw (e, same) refl

add_entry_blind :
    (e d : Option (Text × Text)) (out : Entries) → Alike e d → add_entry e out ≡ add_entry d out
add_entry_blind none none out h = refl
add_entry_blind none (some d) out h = absurd h
add_entry_blind (some e) none out h = absurd h
add_entry_blind (some (j, v)) (some (k, u)) out (e, h) = rw (shown_blind j k v u e h, e) refl

dump_blind :
    (environ environ' : List Text) (out : Entries)
    → AllAlike environ environ'
    → dump environ out ≡ dump environ' out
unfolding dump
dump_blind [] [] out h = refl
dump_blind [] (d ∷ ds) out h = absurd h
dump_blind (e ∷ es) [] out h = absurd h
dump_blind (e ∷ es) (d ∷ ds) out (h, hs) =
    ap (dump es) (add_entry_blind (cut e) (cut d) out h)
    ∙ dump_blind es ds (add_entry (cut d) out) hs

-- The dump does not depend on the values of secrets, which are the entries whose names have "SECRET",
-- "TOKEN" or "PASSWORD" in them or "_KEY" at their end, in any case of the letters: two environments with
-- the same names in the same order and the same values of all others have the same dump.
pub dump_redacted_blind :
    (environ environ' : List Text)
    → AllAlike environ environ'
    → dump_redacted environ ≡ dump_redacted environ'
unfolding dump_redacted
dump_redacted_blind environ environ' h = dump_blind environ environ' [] h
