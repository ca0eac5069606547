-- ===== src/Migrator/Sorted.antt =====
-- The order of the migrations in migrator/migrator.go: sorting by version and direction.
use mathlib.Core.List.{Perm}
use mathlib.Core.List.Perm
use api_toolkit.Prelude.{
  ◌≡◌, ◌↔◌, ◌⊎◌, true, false, ◌&&◌, List, [], ◌∷◌, eqb, All, arith, Bool-cases, inl, inr,
}
use api_toolkit.Migrator.{Direction, Migration, Key, is_seen, same_dir, before, sort_by, insert_by}

-- By version, then direction, and no two alike.
abbrev pub Before : Migration → Migration → Type 0
Before m n = before m n ≡ true

abbrev pub Ascending : List Migration → Type 0
Ascending [] = Unit
Ascending (m ∷ ms) = All (Before m) ms × Ascending ms

abbrev Apart : Migration → Migration → Type 0
Apart m n = (Before m n) ⊎ (Before n m)

same_dir_iff : (a b : Direction) → (same_dir a b ≡ true) ↔ (a ≡ b)
same_dir_iff a b = ground arith

Before-trans : (m n k : Migration) → Before m n → Before n k → Before m k
Before-trans m n k h1 h2 = ground arith

distinct_key-Apart :
    (m n : Migration) → (eqb m.version n.version && same_dir m.dir n.dir) ≡ false → Apart m n
distinct_key-Apart m n h = ground (arith, same_dir_iff m.dir n.dir)

All-insert_by :
    (P : Migration → Type 0) (m : Migration) (ns : List Migration)
    → P m
    → All P ns
    → All P (insert_by before m ns)
unfolding insert_by
All-insert_by P m [] hm hns = (hm, tt)
All-insert_by P m (n ∷ ns) hm (hn, hns) = elim (Bool-cases (before n m)) [
  | inl e ↦ rw e (hn, All-insert_by P m ns hm hns)
  | inr e ↦ rw e (hm, (hn, hns))
]

All-Before :
    (m n : Migration) (ns : List Migration) → Before m n → All (Before n) ns → All (Before m) ns
All-Before m n [] h hs = tt
All-Before m n (k ∷ ks) h (hk, hks) = (Before-trans m n k h hk, All-Before m n ks h hks)

insert_by-Ascending :
    (m : Migration) (ns : List Migration)
    → All (Apart m) ns
    → Ascending ns
    → Ascending (insert_by before m ns)
unfolding insert_by
insert_by-Ascending m [] apart h = (tt, tt)
insert_by-Ascending m (n ∷ ns) (apart, aparts) (hn, hns) = elim (Bool-cases (before n m)) [
  | inl e ↦ rw e (All-insert_by (Before n) m ns e hn, insert_by-Ascending m ns aparts hns)
  | inr e ↦ let m_n = first_of apart e in rw e ((m_n, All-Before m n ns m_n hn), (hn, hns))
]
  where
    first_of : Apart m n → before n m ≡ false → Before m n
    first_of a e = ground arith

All-sort_by : (P : Migration → Type 0) (ms : List Migration) → All P ms → All P (sort_by before ms)
unfolding sort_by
All-sort_by P [] h = tt
All-sort_by P (m ∷ ms) (hm, hms) = All-insert_by P m (sort_by before ms) hm (All-sort_by P ms hms)

-- No migration's key is seen, nor that of a migration before it.
abbrev pub Unseen : List Key → List Migration → Type 0
Unseen seen [] = Unit
Unseen seen (m ∷ ms) = (is_seen m seen ≡ false) × Unseen ((m.version, m.dir) ∷ seen) ms

Unseen-Apart :
    (m : Migration) (seen : List Key) (ms : List Migration)
    → ((n : Migration) → is_seen n seen ≡ false → Apart m n)
    → Unseen seen ms
    → All (Apart m) ms
Unseen-Apart m seen [] holds h = tt
Unseen-Apart m seen (n ∷ ns) holds (hn, hns) = (
  holds n hn,
  Unseen-Apart m ((n.version, n.dir) ∷ seen) ns (λ k hk. holds k (is_seen-tail k hk)) hns,
)
  where
    is_seen-tail :
        (k : Migration) → is_seen k ((n.version, n.dir) ∷ seen) ≡ false → is_seen k seen ≡ false
    is_seen-tail k hk = ground arith

pub sort_by-Ascending :
    (seen : List Key) (ms : List Migration) → Unseen seen ms → Ascending (sort_by before ms)
unfolding sort_by
sort_by-Ascending seen [] h = tt
sort_by-Ascending seen (m ∷ ms) (hm, hms) =
    insert_by-Ascending m (sort_by before ms)
      (All-sort_by (Apart m) ms (
        Unseen-Apart m ((m.version, m.dir) ∷ seen) ms
          (λ n hn. distinct_key-Apart m n (key_unseen n hn)) hms))
      (sort_by-Ascending ((m.version, m.dir) ∷ seen) ms hms)
  where
    key_unseen :
        (n : Migration)
        → is_seen n ((m.version, m.dir) ∷ seen) ≡ false
        → (eqb m.version n.version && same_dir m.dir n.dir) ≡ false
    key_unseen n hn = ground arith

insert_by-perm : (m : Migration) (ns : List Migration) → Perm (insert_by before m ns) (m ∷ ns)
unfolding insert_by
insert_by-perm m [] = Perm.refl (m ∷ [])
insert_by-perm m (n ∷ ns) = elim (Bool-cases (before n m)) [
  | inl e ↦ rw e (Perm.trans (Perm.cons n (insert_by-perm m ns)) (Perm.swap m n ns))
  | inr e ↦ rw e (Perm.refl (m ∷ n ∷ ns))
]

pub sort_by-perm : (ms : List Migration) → Perm (sort_by before ms) ms
unfolding sort_by
sort_by-perm [] = Perm.refl []
sort_by-perm (m ∷ ms) =
    Perm.trans (insert_by-perm m (sort_by before ms)) (Perm.cons m (sort_by-perm ms))
