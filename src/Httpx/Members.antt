-- ===== src/Httpx/Members.antt =====
-- The members of the problem documents that httpx/httpx.go writes.
use api_toolkit.Prelude.{
  ℕ, ◌<◌, ◌≡◌, ◌⊎◌, refl, ap, ◌∙◌, Bool, true, false, not, ◌&&◌, ◌||◌, String, List, [], ◌∷◌,
  Option, none, some, if◌then◌else◌, lookup, insert, lookup-insert, lookup-nil, ◌==◌, string_eq,
  arith, Bool-cases, inl, inr, eqb, ltb,
}
use api_toolkit.Prelude.Int.{ℤ}
use api_toolkit.Httpx.{
  Value, text, number, extension, Problem, Response, is_standard, merge, set_unless_empty,
  standard_members, status_or_500, problem_members, answered, is_informational, is_bodiless,
  write_problem,
}

module _ {A : Type 0} where
  abbrev pub extended : Option A → Option (Value A)
  extended none = none
  extended (some v) = some (extension v)

  abbrev pub text_or_none : String → Option (Value A)
  text_or_none s = if s == "" then none else some (text s)

  abbrev else_none : Option (Value A) → Option (Value A) → Option (Value A)
  else_none none b = b
  else_none (some a) b = some a

  lookup-merge :
      (k : String) (out : List (String × Value A)) (ext : List (String × A))
      → lookup k (merge out ext) ≡ (
          if is_standard k
          then lookup k out
          else else_none (extended (lookup k ext)) (lookup k out))
  unfolding merge lookup
  lookup-merge k out [] = by_standard (is_standard k)
    where
      by_standard : (b : Bool) → lookup k out ≡ (if b then lookup k out else lookup k out)
      by_standard true = refl
      by_standard false = refl
  lookup-merge k out ((j, v) ∷ rest) =
      let standard : (j == k) ≡ true → is_standard j ≡ is_standard k =
        λ same. ap is_standard ((string_eq.beq_iff j k).0 same) in
      ground
        (arith, lookup-insert j k (extension v) (merge out rest), lookup-merge k out rest, standard)

  lookup-set_unless_empty :
      (k key value : String) (out : List (String × Value A))
      → lookup k (set_unless_empty key value out) ≡ (
          if value == ""
          then lookup k out
          else if key == k
          then some (text value)
          else lookup k out)
  unfolding set_unless_empty
  lookup-set_unless_empty k key value out = elim (Bool-cases (value == "")) [
    | inl empty ↦ rw empty refl
    | inr full ↦ rw full (lookup-insert key k (text value) out)
  ]

  -- One member over the others, as a lookup of `k` sees it.
  abbrev pick : String → String → String → Option (Value A) → Option (Value A)
  pick k key value rest = if value == "" then rest else if key == k then some (text value) else rest

  lookup-standard_members :
      (k : String) (p : Problem A)
      → eqb p.status 0 ≡ false
      → lookup k (standard_members p)
        ≡ pick k "instance" p.instance_uri (
            pick k "detail" p.detail (
              if "status" == k
              then some (number p.status)
              else pick k "title" p.title (pick k "type" p.type_uri (lookup k []))))
  unfolding standard_members
  lookup-standard_members k p nonzero =
      let out1 = set_unless_empty {A = A} "type" p.type_uri [] in
      let out2 = set_unless_empty "title" p.title out1 in
      let out3 = insert "status" (number p.status) out2 in
      let out4 = set_unless_empty "detail" p.detail out3 in
      rw nonzero (
        lookup-set_unless_empty k "instance" p.instance_uri out4
        ∙ ap (pick k "instance" p.instance_uri) (
            lookup-set_unless_empty k "detail" p.detail out3
            ∙ ap (pick k "detail" p.detail) (
                lookup-insert "status" k (number p.status) out2
                ∙ ap (λ (o : Option (Value A)). if "status" == k then some (number p.status) else o)
                    (lookup-set_unless_empty k "title" p.title out1
                      ∙ ap (pick k "title" p.title)
                          (lookup-set_unless_empty k "type" p.type_uri [])))))

  -- The members of a document with its standard members in place.
  abbrev pub HasMembers : Problem A → ℕ → List (String × Value A) → Type 0
  HasMembers p status members =
      (lookup "status" members ≡ some (number status))
      × (lookup "type" members ≡ text_or_none p.type_uri)
      × (lookup "title" members ≡ text_or_none p.title)
      × (lookup "detail" members ≡ text_or_none p.detail)
      × (lookup "instance" members ≡ text_or_none p.instance_uri)
      × ((k : String) → is_standard k ≡ false → lookup k members ≡ extended (lookup k p.ext))

  HasMembers-standard :
      (p : Problem A) (out : List (String × Value A))
      → eqb p.status 0 ≡ false
      → ((k : String)
          → lookup k out ≡ (
              if is_standard k
              then lookup k (standard_members p)
              else else_none (extended (lookup k p.ext)) (lookup k (standard_members p))))
      → HasMembers p p.status out
  unfolding is_standard
  HasMembers-standard p out nonzero h = (
    h "status"
        ∙ ground (
          arith,
          lookup-standard_members "status" p nonzero,
          lookup-nil {K = String} {V = Value A} "status",
        ),
    h "type"
        ∙ ground (
          arith,
          lookup-standard_members "type" p nonzero,
          lookup-nil {K = String} {V = Value A} "type",
        ),
    h "title"
        ∙ ground (
          arith,
          lookup-standard_members "title" p nonzero,
          lookup-nil {K = String} {V = Value A} "title",
        ),
    h "detail"
        ∙ ground (
          arith,
          lookup-standard_members "detail" p nonzero,
          lookup-nil {K = String} {V = Value A} "detail",
        ),
    h "instance"
        ∙ ground (
          arith,
          lookup-standard_members "instance" p nonzero,
          lookup-nil {K = String} {V = Value A} "instance",
        ),
    λ k other.
        h k
        ∙ ground (
          arith,
          other,
          lookup-standard_members k p nonzero,
          lookup-nil {K = String} {V = Value A} k,
          apart k "type",
          apart k "title",
          apart k "status",
          apart k "detail",
          apart k "instance",
        ),
  )
    where
      apart : (k name : String) → (k == name) ≡ (name == k)
      apart k name = ground (arith, string_eq.beq_iff k name, string_eq.beq_iff name k)

problem_members-HasMembers :
    {A : Type 0} (status : ℤ) (p : Problem A)
    → eqb (status_or_500 status) 0 ≡ false
    → HasMembers
        (record p { status = status_or_500 status })
        (status_or_500 status)
        (problem_members status p)
unfolding problem_members
problem_members-HasMembers status p nonzero =
    let q = record p { status = status_or_500 status } in
    HasMembers-standard q (merge (standard_members q) p.ext) nonzero
      (λ k. lookup-merge k (standard_members q) p.ext)

-- The response with a document for a code: where it is informational, behind it with the code 200; and
-- nowhere in a response that can have no body.
abbrev pub Carries : {A : Type 0} → ℕ → Option (List (String × Value A)) → Response A → Type 0
Carries c document r =
    (r.interim ≡ (if is_informational c then some c else none))
    × (r.status_code ≡ (if is_informational c then 200 else c))
    × (r.content_type ≡ "application/problem+json")
    × (r.document ≡ (if is_bodiless c && not (is_informational c) then none else document))

answered-Carries :
    {A : Type 0} (c : ℕ) (document : Option (List (String × Value A)))
    → Carries c document (answered c document)
answered-Carries c document = elim (Bool-cases (is_informational c)) [
  | inl e ↦ rw e (refl, refl, refl, ground arith)
  | inr e ↦ rw e (refl, refl, refl, ground arith)
]

-- On the writer of a server that nothing has been written to, for a method other than HEAD, whatever the
-- status, the problem and its extensions: `WriteHeader` panics on the code if it is above
-- 999 or from 1 to 99. Otherwise the document has the code as its status, each other standard member is
-- the problem's text or absent where that is empty, and every other member is the extension of that
-- name, so that no extension replaces a standard member and none is lost. It is the body of the
-- response, whose code is that of the status; but there is no body where the document cannot be
-- encoded, or for the codes 101, 204 and 304, and for any other code from 100 to 199 an informational
-- response comes first and the final one, with the document, has the code 200.
pub write_problem-HasMembers :
    {A : Type 0} (encodable : List (String × Value A) → Bool) (status : ℤ) (p : Problem A)
    → ((write_problem encodable status p ≡ none)
        × ((status_or_500 status < 100) ⊎ (999 < status_or_500 status)))
      ⊎ ((r : Response A) × (members : List (String × Value A)) × (write_problem encodable status p
            ≡ some r)
          × HasMembers (record p { status = status_or_500 status }) (status_or_500 status) members
          × Carries (status_or_500 status) (if encodable members then some members else none) r)
unfolding write_problem
write_problem-HasMembers encodable status p =
    let c = status_or_500 status in
    let out = problem_members status p in
    elim (Bool-cases (ltb c 100 || ltb 999 c)) [
      | inl bad ↦ inl (rw bad refl, ground arith)
      | inr good ↦ inr (
        answered c (if encodable out then some out else none),
        out,
        rw good refl,
        problem_members-HasMembers status p (ground arith),
        answered-Carries c (if encodable out then some out else none),
      )
    ]
