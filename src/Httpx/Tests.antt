-- ===== src/Httpx/Tests.antt =====
-- Problem documents of httpx/httpx.go, and the theorem about their members at a concrete input.
use api_toolkit.Prelude.{
  ℕ, ◌<◌, ◌≡◌, ◌⊎◌, refl, Bool, true, String, List, [], ◌∷◌, none, some, if◌then◌else◌, lookup,
  insert, string_eq,
}
use api_toolkit.Prelude.Int.{pos}
use api_toolkit.Httpx.{
  Problem, Response, Value, with_extension, write_problem, write_simple_problem, merge,
  problem_members, status_or_500, is_standard,
}
use api_toolkit.Httpx.Members.{HasMembers, Carries, write_problem-HasMembers}

httpx_open : Unit {0}
unfolding with_extension write_problem write_simple_problem problem_members merge lookup insert
    is_standard
httpx_open = tt

abbrev plain : Problem ℕ
plain = record {
  type_uri = "";
  title = "Gone";
  status = 0;
  detail = "";
  instance_uri = "";
  ext = [];
}

abbrev extended_problem : Problem ℕ
extended_problem = record plain { ext = ("status", 7) ∷ ("count", 3) ∷ [] }

extensions : with_extension (with_extension plain "status" 7) "count" 3 ≡ extended_problem
unfolding httpx_open
extensions = refl

-- Every document can be encoded.
abbrev all_encodable : List (String × Value ℕ) → Bool
all_encodable ms = true

abbrev members_410 : List (String × Value ℕ)
members_410 =
    ("title", Value.text "Gone") ∷ ("status", Value.number 410) ∷ ("count", Value.extension 3) ∷ []

written :
    write_problem all_encodable (pos 410) extended_problem
    ≡ some (record {
      interim = none;
      status_code = 410;
      content_type = "application/problem+json";
      document = some members_410;
    })
unfolding httpx_open
written = refl

-- A response with the code 204 has no document.
no_content :
    write_simple_problem all_encodable (pos 204) "Gone" ""
    ≡ some (record {
      interim = none;
      status_code = 204;
      content_type = "application/problem+json";
      document = none;
    })
unfolding httpx_open
no_content = refl

write_problem-HasMembers_example :
    ((write_problem all_encodable (pos 410) extended_problem ≡ none)
      × ((status_or_500 (pos 410) < 100) ⊎ (999 < status_or_500 (pos 410))))
    ⊎ ((r : Response ℕ) × (members : List (String × Value ℕ)) × (write_problem all_encodable
            (pos 410)
            extended_problem
          ≡ some r)
        × HasMembers
            (record extended_problem { status = status_or_500 (pos 410) })
            (status_or_500 (pos 410))
            members
        × Carries
            (status_or_500 (pos 410))
            (if all_encodable members then some members else none)
            r)
write_problem-HasMembers_example = write_problem-HasMembers all_encodable (pos 410) extended_problem
