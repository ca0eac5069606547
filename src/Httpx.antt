-- ===== src/Httpx.antt =====
-- httpx/httpx.go: problem documents. A map of extensions is an association list, visited from its last
-- entry on; the nil map is the empty one.
pub mod Members
mod Tests
use api_toolkit.Prelude.{
  ℕ, zero, suc, ◌≡◌, refl, Bool, true, false, not, ◌&&◌, ◌||◌, String, List, [], ◌∷◌, Option, none,
  some, if◌then◌else◌, eqb, ltb, within, lookup, insert, ◌==◌, string_eq,
}
use api_toolkit.Prelude.Int.{ℤ, pos, negsuc}

-- The values of the composed map: texts, the status, and the application's extensions.
pub data Value {ℓ} (A : Type ℓ) : Type ℓ where
  text : String → Value A
  number : ℕ → Value A
  extension : A → Value A

pub record Problem {ℓ} (A : Type ℓ) : Type ℓ where
  pub type_uri : String
  pub title : String
  pub status : ℕ
  pub detail : String
  pub instance_uri : String
  pub ext : List (String × A)

-- What a client gets: the code of an informational response before the final one, the code and the
-- content type of that, and the members of its document.
pub record Response {ℓ} (A : Type ℓ) : Type ℓ where
  pub interim : Option ℕ
  pub status_code : ℕ
  pub content_type : String
  pub document : Option (List (String × Value A))

-- The server of net/http sends an informational response at once; it is not the final one.
abbrev pub is_informational : ℕ → Bool
is_informational c = within 100 199 c && not (eqb c 101)

-- `bodyAllowedForStatus` of net/http: a write to a response with such a code is an error.
abbrev pub is_bodiless : ℕ → Bool
is_bodiless c = within 100 199 c || eqb c 204 || eqb c 304

-- `status <= 0` gives 500.
unfoldable pub status_or_500 : ℤ → ℕ
status_or_500 (pos zero) = 500
status_or_500 (pos (suc n)) = suc n
status_or_500 (negsuc n) = 500

unfoldable pub is_standard : String → Bool
is_standard k = k == "type" || k == "title" || k == "status" || k == "detail" || k == "instance"

module _ {ℓ} {A : Type ℓ} where
  -- The method `With`.
  unfoldable pub with_extension : Problem A → String → A → Problem A
  with_extension p key value = if key == "" then p else record p { ext = insert key value p.ext }

  unfoldable pub set_unless_empty :
      String → String → List (String × Value A) → List (String × Value A)
  set_unless_empty key value out = if value == "" then out else insert key (text value) out

  unfoldable pub standard_members : Problem A → List (String × Value A)
  unfolding set_unless_empty
  standard_members p =
      let out1 = set_unless_empty "type" p.type_uri [] in
      let out2 = set_unless_empty "title" p.title out1 in
      let out3 = if eqb p.status 0 then out2 else insert "status" (number p.status) out2 in
      let out4 = set_unless_empty "detail" p.detail out3 in
      set_unless_empty "instance" p.instance_uri out4

  unfoldable pub merge : List (String × Value A) → List (String × A) → List (String × Value A)
  merge out [] = out
  merge out ((k, v) ∷ rest) =
      let merged = merge out rest in if is_standard k then merged else insert k (extension v) merged

  -- The composed map.
  unfoldable pub problem_members : ℤ → Problem A → List (String × Value A)
  unfolding merge standard_members status_or_500
  problem_members status p =
      merge (standard_members (record p { status = status_or_500 status })) p.ext

  -- The response of a server after `WriteHeader` with a code that it takes and the write of a document:
  -- after an informational response the write sends the code 200, and where the code allows no body, it
  -- fails.
  abbrev pub answered : ℕ → Option (List (String × Value A)) → Response A
  answered c document =
      if is_informational c
      then record {
        interim = some c;
        status_code = 200;
        content_type = "application/problem+json";
        document = document;
      }
      else record {
        interim = none;
        status_code = c;
        content_type = "application/problem+json";
        document = if is_bodiless c then none else document;
      }

  -- On the writer of a server, before any other write, with no Content-Length and for a method other than
  -- HEAD. The encoder writes nothing where a value cannot
  -- be encoded; its error, as that of the write, is dropped. `WriteHeader` panics on a code that has not
  -- three digits: `none`.
  unfoldable pub write_problem :
      (encodable : List (String × Value A) → Bool) → ℤ → Problem A → Option (Response A)
  unfolding problem_members status_or_500
  write_problem encodable status p =
      let out = problem_members status p in
      if ltb (status_or_500 status) 100 || ltb 999 (status_or_500 status)
      then none
      else some (answered (status_or_500 status) (if encodable out then some out else none))

  unfoldable pub write_simple_problem :
      (encodable : List (String × Value A) → Bool) → ℤ → String → String → Option (Response A)
  unfolding write_problem
  write_simple_problem encodable status title detail = write_problem encodable status (record {
    type_uri = "";
    title = title;
    status = 0;
    detail = detail;
    instance_uri = "";
    ext = [];
  })
