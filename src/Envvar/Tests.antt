-- ===== src/Envvar/Tests.antt =====
-- Reads and dumps of envvar/envvar.go, and its theorems at concrete inputs.
use api_toolkit.Prelude.{
  ◌≡◌, inl, inr, refl, true, List, [], ◌∷◌, ◌++◌, none, some, Text, codes, lookup, insert,
  has_prefix, has_suffix, contains, parse_nat, digits_value, list_eq,
}
use api_toolkit.Envvar.{
  Package, get_uint_or, dump_redacted, dump, cut, is_secret, read_or, parse_uint,
}
use api_toolkit.Envvar.Redaction.{AllAlike, dump_redacted_blind}

envvar_open : Unit {0}
unfolding dump_redacted dump cut is_secret lookup insert has_prefix has_suffix contains
envvar_open = tt

abbrev environ : Text → List Text
environ key =
    codes "HOME=/root" ∷ (codes "Api_Token=" ++ key) ∷ codes "HOME=/home/a" ∷ codes "FLAGS" ∷ []

abbrev constant : Text → Package
constant v = record {
  get = λ key. v;
  get_or = λ key def. v;
  get_bool_or = λ key def. def;
  must_get = λ key. some v;
  must_get_bool = λ key. none;
  must_get_int = λ key. none;
  must_load = λ paths. true;
}

-- A value of 33 bits is no uint here.
uint_33 : get_uint_or (constant (codes "4294967296")) (codes "SIZE") 7 ≡ 7
unfolding get_uint_or read_or parse_uint parse_nat digits_value
uint_33 = refl

dump_environ :
    dump_redacted (environ (codes "abc"))
    ≡ (codes "HOME", codes "/home/a") ∷ (codes "Api_Token", codes "***") ∷ []
unfolding envvar_open
dump_environ = refl

abbrev credentials : Text → List Text
credentials v =
    codes "HOME=/root"
    ∷ (codes "Api_Token=" ++ v)
    ∷ (codes "db_password=" ++ v)
    ∷ (codes "Secrets=" ++ v)
    ∷ (codes "SSH_Key=" ++ v)
    ∷ codes "FLAGS"
    ∷ []

same_names : AllAlike (credentials (codes "abc")) (credentials (codes "x=y"))
unfolding envvar_open
same_names = (
  (refl, inr refl),
  (
    (refl, inl (inr (inl (codes "API_", [], refl)))),
    (
      (refl, inl (inr (inr (inl (codes "DB_", [], refl))))),
      (
        (refl, inl (inl ([], codes "S", refl))),
        ((refl, inl (inr (inr (inr (codes "SSH", refl))))), (tt, tt)),
      ),
    ),
  ),
)

dump_redacted_blind_example :
    dump_redacted (credentials (codes "abc")) ≡ dump_redacted (credentials (codes "x=y"))
dump_redacted_blind_example =
    dump_redacted_blind (credentials (codes "abc")) (credentials (codes "x=y")) same_names
