-- ===== src/Migrator/Pending.antt =====
-- `pendingUp` of migrator/migrator.go, against the migrations that have no successful row.
use mathlib.Core.List.{Perm}
use mathlib.Core.List.Perm
use api_toolkit.Prelude.{
  ℕ, ◌≤◌, ◌≡◌, refl, sym, ap, ◌∙◌, Bool, true, false, not, ◌&&◌, ◌||◌, List, [], ◌∷◌, Option, none,
  some, if◌then◌else◌, ltb, eqb, Text, All, any, lookup-insert, arith, select, Bool-cases, inl, inr,
  lookup, insert, nat_eq, list_eq, text_eq_iff, ◌==◌,
}
use api_toolkit.Migrator.{up, Migration, same_dir, insert_by, sort_by}

-- A row of the migrations table; its version is one that the runner wrote, and the time
-- is that of the database.
pub record AppliedRow : Type 0 where
  pub version : ℕ
  pub name : Text
  pub checksum : Text
  pub applied_at : Text
  pub exec_ms : ℕ
  pub success : Bool

-- `appliedSet`: the successful rows by version, a later one in the place of an earlier one.
unfoldable pub applied_set : List (ℕ × AppliedRow) → List AppliedRow → List (ℕ × AppliedRow)
applied_set rows [] = rows
applied_set rows (a ∷ as') =
    let with_a = applied_set (insert a.version a rows) as' in
    let without = applied_set rows as' in if a.success then with_a else without

-- The panic of `pendingUp`, with its version and checksums, or the pending migrations.
pub data Pending : Type 0 where
  mismatch : (version : ℕ) (have want : Text) → Pending
  pending : List Migration → Pending

abbrev pub add_pending : Migration → Pending → Pending
add_pending m (mismatch v have want) = mismatch v have want
add_pending m (pending ms) = pending (m ∷ ms)

-- What a migration up comes to, by its row, and the rest of the loop.
abbrev pub visit_up : Migration → Option AppliedRow → Pending → Pending
visit_up m none rest = add_pending m rest
visit_up m (some a) rest =
    if a.checksum == m.checksum then rest else mismatch m.version a.checksum m.checksum

-- The loop over `r.migrations`.
unfoldable pub collect_pending : List (ℕ × AppliedRow) → List Migration → Pending
collect_pending rows [] = pending []
collect_pending rows (m ∷ ms) =
    let rest = collect_pending rows ms in
    if same_dir m.dir up then visit_up m (lookup m.version rows) rest else rest

abbrev pub by_version : Migration → Migration → Bool
by_version m n = ltb m.version n.version

abbrev pub sorted_pending : Pending → Pending
sorted_pending (mismatch v have want) = mismatch v have want
sorted_pending (pending ms) = pending (sort_by by_version ms)

unfoldable pub pending_up : List Migration → List AppliedRow → Pending
pending_up migrations applied = sorted_pending (collect_pending (applied_set [] applied) migrations)

-- The row that stands for a version at the end: the last successful one.
abbrev pub last_success : ℕ → Option AppliedRow → List AppliedRow → Option AppliedRow
last_success v found [] = found
last_success v found (a ∷ rest) =
    last_success v (if a.success && eqb a.version v then some a else found) rest

applied_set-lookup :
    (v : ℕ) (rows : List (ℕ × AppliedRow)) (applied : List AppliedRow)
    → lookup v (applied_set rows applied) ≡ last_success v (lookup v rows) applied
unfolding applied_set
applied_set-lookup v rows [] = refl
applied_set-lookup v rows (a ∷ rest) =
    by_success a.success (applied_set-lookup v (insert a.version a rows) rest)
      (applied_set-lookup v rows rest)
  where
    inserted :
        lookup v (insert a.version a rows) ≡ (if eqb a.version v then some a else lookup v rows)
    inserted = lookup-insert a.version v a rows

    by_success :
        (b : Bool)
        → lookup v (applied_set (insert a.version a rows) rest)
          ≡ last_success v (lookup v (insert a.version a rows)) rest
        → lookup v (applied_set rows rest) ≡ last_success v (lookup v rows) rest
        → lookup v (if b then applied_set (insert a.version a rows) rest else applied_set rows rest)
          ≡ last_success v (if b && eqb a.version v then some a else lookup v rows) rest
    by_success true h1 h2 = h1 ∙ ap (λ (o : Option AppliedRow). last_success v o rest) inserted
    by_success false h1 h2 = h2

abbrev pub is_none : Option AppliedRow → Bool
is_none none = true
is_none (some a) = false

abbrev differs : Migration → Option AppliedRow → Bool
differs m none = false
differs m (some a) = not (a.checksum == m.checksum)

-- The migrations up that have no successful row.
abbrev pub no_row : List AppliedRow → Migration → Bool
no_row applied m = is_none (last_success m.version none applied)

abbrev pub unapplied : List AppliedRow → List Migration → List Migration
unapplied applied ms = select (λ m. same_dir m.dir up && no_row applied m) ms

-- A migration up whose successful row has another checksum.
abbrev pub changed : List AppliedRow → Migration → Bool
changed applied m = same_dir m.dir up && differs m (last_success m.version none applied)

abbrev pub is_mismatch : Pending → Bool
is_mismatch (mismatch v have want) = true
is_mismatch (pending ms) = false

abbrev IsPendingNow : Bool → List Migration → Pending → Type 0
IsPendingNow bad rest (mismatch v have want) = bad ≡ true
IsPendingNow bad rest (pending ps) = (bad ≡ false) × (ps ≡ rest)

abbrev IsPending : List AppliedRow → List Migration → Pending → Type 0
IsPending applied ms p = IsPendingNow (any (changed applied) ms) (unapplied applied ms) p

visit_up-IsPending :
    (applied : List AppliedRow) (m : Migration) (ms : List Migration) (row : Option AppliedRow)
    (p : Pending)
    → last_success m.version none applied ≡ row
    → IsPending applied ms p
    → IsPending applied (m ∷ ms) (if same_dir m.dir up then visit_up m row p else p)
visit_up-IsPending applied m ms none (mismatch v have want) e h = ground arith
visit_up-IsPending applied m ms none (pending ps) e (fine, same) = rw e (by_dir (same_dir m.dir up))
  where
    rest : List Migration
    rest = unapplied applied ms

    by_dir :
        (b : Bool)
        → IsPendingNow
            ((b && false) || any (changed applied) ms)
            (if b && true then m ∷ rest else rest)
            (if b then pending (m ∷ ps) else pending ps)
    by_dir true = (fine, ap (◌∷◌ m) same)
    by_dir false = (fine, same)
visit_up-IsPending applied m ms (some a) p e h = ground (arith, text_eq_iff a.checksum m.checksum)

collect_pending-IsPending :
    (applied : List AppliedRow) (ms : List Migration)
    → IsPending applied ms (collect_pending (applied_set [] applied) ms)
unfolding collect_pending lookup
collect_pending-IsPending applied [] = (refl, refl)
collect_pending-IsPending applied (m ∷ ms) =
    let row = lookup m.version (applied_set [] applied) in
    visit_up-IsPending applied m ms row (collect_pending (applied_set [] applied) ms)
      (sym (applied_set-lookup m.version [] applied)) (collect_pending-IsPending applied ms)

-- Sorting by a test: the library's permutations, and an order that the test gives.
insert_by-perm :
    (less : Migration → Migration → Bool) (m : Migration) (ns : List Migration)
    → Perm (insert_by less m ns) (m ∷ ns)
unfolding insert_by
insert_by-perm less m [] = Perm.refl (m ∷ [])
insert_by-perm less m (n ∷ ns) = elim (Bool-cases (less n m)) [
  | inl e ↦ rw e (Perm.trans (Perm.cons n (insert_by-perm less m ns)) (Perm.swap m n ns))
  | inr e ↦ rw e (Perm.refl (m ∷ n ∷ ns))
]

pub sort_by-perm :
    (less : Migration → Migration → Bool) (ms : List Migration) → Perm (sort_by less ms) ms
unfolding sort_by
sort_by-perm less [] = Perm.refl []
sort_by-perm less (m ∷ ms) =
    Perm.trans (insert_by-perm less m (sort_by less ms)) (Perm.cons m (sort_by-perm less ms))

abbrev pub ByVersion : List Migration → Type 0
ByVersion [] = Unit
ByVersion (m ∷ ms) = All (λ n. m.version ≤ n.version) ms × ByVersion ms

All-insert_by :
    (k : ℕ) (m : Migration) (ns : List Migration)
    → k ≤ m.version
    → All (λ n. k ≤ n.version) ns
    → All (λ n. k ≤ n.version) (insert_by by_version m ns)
unfolding insert_by
All-insert_by k m [] hm hns = (hm, tt)
All-insert_by k m (n ∷ ns) hm (hn, hns) = elim (Bool-cases (by_version n m)) [
  | inl e ↦ rw e (hn, All-insert_by k m ns hm hns)
  | inr e ↦ rw e (hm, (hn, hns))
]

All-at_most :
    (j k : ℕ) (ns : List Migration)
    → j ≤ k
    → All (λ n. k ≤ n.version) ns
    → All (λ n. j ≤ n.version) ns
All-at_most j k [] h hs = tt
All-at_most j k (n ∷ ns) h (hn, hns) = (omega arith, All-at_most j k ns h hns)

insert_by-ByVersion :
    (m : Migration) (ns : List Migration) → ByVersion ns → ByVersion (insert_by by_version m ns)
unfolding insert_by
insert_by-ByVersion m [] h = (tt, tt)
insert_by-ByVersion m (n ∷ ns) (hn, hns) = elim (Bool-cases (by_version n m)) [
  | inl e ↦
      let le : n.version ≤ m.version = ground arith in
      rw e (All-insert_by n.version m ns le hn, insert_by-ByVersion m ns hns)
  | inr e ↦
      let le : m.version ≤ n.version = ground arith in
      rw e ((le, All-at_most m.version n.version ns le hn), (hn, hns))
]

sort_by-ByVersion : (ms : List Migration) → ByVersion (sort_by by_version ms)
unfolding sort_by
sort_by-ByVersion [] = tt
sort_by-ByVersion (m ∷ ms) = insert_by-ByVersion m (sort_by by_version ms) (sort_by-ByVersion ms)

-- What `pendingUp` comes to: the panic where a migration up is changed, and otherwise the unapplied
-- migrations in the order of their versions.
abbrev pub IsPendingUp : List AppliedRow → List Migration → Pending → Type 0
IsPendingUp applied ms (mismatch v have want) = any (changed applied) ms ≡ true
IsPendingUp applied ms (pending ps) =
    (any (changed applied) ms ≡ false) × Perm ps (unapplied applied ms) × ByVersion ps

sorted_pending-IsPendingUp :
    (applied : List AppliedRow) (ms : List Migration) (p : Pending)
    → IsPending applied ms p
    → IsPendingUp applied ms (sorted_pending p)
sorted_pending-IsPendingUp applied ms (mismatch v have want) h = h
sorted_pending-IsPendingUp applied ms (pending ps) (fine, same) =
    (fine, rw⁻¹ same (sort_by-perm by_version ps), sort_by-ByVersion ps)

-- The panic comes exactly where some migration up has another checksum than the last successful row of
-- its version; otherwise the pending migrations are exactly the migrations up without a successful
-- row, in ascending order of their versions.
pub pending_up-IsPendingUp :
    (ms : List Migration) (applied : List AppliedRow)
    → IsPendingUp applied ms (pending_up ms applied)
unfolding pending_up
pending_up-IsPendingUp ms applied =
    sorted_pending-IsPendingUp applied ms (collect_pending (applied_set [] applied) ms)
      (collect_pending-IsPending applied ms)
