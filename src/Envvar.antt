-- ===== src/Envvar.antt =====
-- envvar/envvar.go: typed reads of environment variables, and the dump with secrets redacted; and the
-- configuration of config/config.go.
pub mod Redaction
mod Tests
use api_toolkit.Prelude.{
  ℕ, ◌+◌, ◌-◌, ◌^◌, ◌≡◌, refl, Bool, true, false, not, ◌&&◌, ◌||◌, List, [], ◌∷◌, Option, none,
  some, if◌then◌else◌, eqb, within, Text, codes, contains, has_suffix, parse_nat, check_range,
  insert, ◌==◌, list_eq, map,
}
use api_toolkit.Prelude.Int.{ℤ, pos, parse_int64}
use api_toolkit.Ports.Services.{EnvVar}

-- The package github.com/aatuh/envvar: an absent variable is read as the empty text; a result `none`
-- is a panic.
pub record Package : Type 0 where
  pub get : Text → Text
  pub get_or : Text → Text → Text
  pub get_bool_or : Text → Bool → Bool
  pub must_get : Text → Option Text
  pub must_get_bool : Text → Option Bool
  pub must_get_int : Text → Option ℤ
  pub must_load : List Text → Bool

module _ {ℓ} {A : Type ℓ} where
  abbrev pub parsed_or : A → Option A → A
  parsed_or def none = def
  parsed_or def (some a) = a

  -- The reads that parse a variable themselves.
  unfoldable pub read_or : Package → (parse : Text → Option A) → Text → A → A
  read_or lib parse key def = if lib.get key == [] then def else parsed_or def (parse (lib.get key))

  abbrev pub parsed_of : (parse : Text → Option A) → Option Text → Option A
  parsed_of parse none = none
  parsed_of parse (some v) = parse v

  unfoldable pub must_read : Package → (parse : Text → Option A) → Text → Option A
  must_read lib parse key = parsed_of parse (lib.must_get key)

-- `strconv.ParseUint(v, 10, bits)`.
unfoldable pub parse_uint : (bits : ℕ) → Text → Option ℕ
parse_uint bits v = check_range (2 ^ bits - 1) (parse_nat v)

module _ (lib : Package) where
  unfoldable pub get : Text → Text × Bool
  get key = let v = lib.get key in (v, not (v == []))

  unfoldable pub get_or : Text → Text → Text
  get_or key def = lib.get_or key def

  unfoldable pub get_bool_or : Text → Bool → Bool
  get_bool_or key def = lib.get_bool_or key def

  unfoldable pub get_int_or : Text → ℤ → ℤ
  unfolding read_or
  get_int_or key def = read_or lib parse_int64 key def

  unfoldable pub get_int64_or : Text → ℤ → ℤ
  unfolding read_or
  get_int64_or key def = read_or lib parse_int64 key def

  unfoldable pub must_get_int64 : Text → Option ℤ
  unfolding must_read
  must_get_int64 key = must_read lib parse_int64 key

  unfoldable pub get_uint_or : Text → ℕ → ℕ
  unfolding read_or parse_uint
  get_uint_or key def = read_or lib (parse_uint 32) key def

  unfoldable pub must_get_uint : Text → Option ℕ
  unfolding must_read parse_uint
  must_get_uint key = must_read lib (parse_uint 32) key

  unfoldable pub get_uint64_or : Text → ℕ → ℕ
  unfolding read_or parse_uint
  get_uint64_or key def = read_or lib (parse_uint 64) key def

  unfoldable pub must_get_uint64 : Text → Option ℕ
  unfolding must_read parse_uint
  must_get_uint64 key = must_read lib (parse_uint 64) key

  -- `parse_float` is `strconv.ParseFloat` at 64 bits.
  unfoldable pub get_float64_or {ℓ} : {F : Type ℓ} → (parse_float : Text → Option F) → Text → F → F
  unfolding read_or
  get_float64_or parse_float key def = read_or lib parse_float key def

  unfoldable pub must_get_float64 {ℓ} :
      {F : Type ℓ} → (parse_float : Text → Option F) → Text → Option F
  unfolding must_read
  must_get_float64 parse_float key = must_read lib parse_float key

  unfoldable pub get_duration_or : Text → ℤ → ℤ
  unfolding get_int64_or
  get_duration_or key def = get_int64_or key def

  unfoldable pub must_get_duration : Text → Option ℤ
  unfolding must_get_int64
  must_get_duration key = must_get_int64 key

module _ (lib : Package) where
  unfoldable pub must_get : Text → Option Text
  must_get key = lib.must_get key

  unfoldable pub must_get_bool : Text → Option Bool
  must_get_bool key = lib.must_get_bool key

  unfoldable pub must_get_int : Text → Option ℤ
  must_get_int key = lib.must_get_int key

  -- The error is nil unless the package panics.
  unfoldable pub load_env_files : List Text → Option (Option Text)
  load_env_files paths = if lib.must_load paths then some none else none

  -- The adapter as the interface of ports/ports.go.
  unfoldable pub adapter_port : {F : Type 0} → (parse_float : Text → Option F) → EnvVar F
  unfolding must_get must_get_bool must_get_int must_get_int64 must_get_uint must_get_uint64
      must_get_float64 must_get_duration
  adapter_port parse_float = record {
    must_get = must_get;
    must_get_bool = must_get_bool;
    must_get_int = must_get_int;
    must_get_int64 = must_get_int64 lib;
    must_get_uint = must_get_uint lib;
    must_get_uint64 = must_get_uint64 lib;
    must_get_float64 = must_get_float64 lib parse_float;
    must_get_duration = must_get_duration lib;
  }

-- The binders return nil and leave the structure as it is.
unfoldable pub bind {ℓ} : {A : Type ℓ} → A → Option Text × A
bind dst = (none, dst)

unfoldable pub bind_with_prefix {ℓ} : {A : Type ℓ} → A → Text → Option Text × A
bind_with_prefix dst prefix = (none, dst)

abbrev pub panic_on {ℓ} : {A : Type ℓ} → Option Text × A → Option A
panic_on (none, dst) = some dst
panic_on (some e, dst) = none

unfoldable pub must_bind {ℓ} : {A : Type ℓ} → A → Option A
unfolding bind
must_bind dst = panic_on (bind dst)

unfoldable pub must_bind_with_prefix {ℓ} : {A : Type ℓ} → A → Text → Option A
unfolding bind_with_prefix
must_bind_with_prefix dst prefix = panic_on (bind_with_prefix dst prefix)

-- config/config.go.
pub record Config : Type 0 where
  pub addr : Text
  pub database_url : Text
  pub log_level : Text
  pub migrate_on_start : Bool
  pub migrations_dir : Text
  pub env : Text

abbrev pub with_database : Package → Option Text → Option Config
with_database lib none = none
with_database lib (some database_url) = some (record {
  addr = lib.get_or (codes "API_ADDR") (codes ":8000");
  database_url = database_url;
  log_level = lib.get_or (codes "LOG_LEVEL") (codes "info");
  migrate_on_start = lib.get_bool_or (codes "MIGRATE_ON_START") false;
  migrations_dir = lib.get_or (codes "MIGRATIONS_DIR") (codes "-");
  env = lib.get_or (codes "ENV") (codes "development");
})

unfoldable pub must_load_from_env : Package → Option Config
must_load_from_env lib = with_database lib (lib.must_get (codes "DATABASE_URL"))

-- `strings.Cut(kv, "=")`, where there is one.
unfoldable pub cut : Text → Option (Text × Text)
cut [] = none
cut (c ∷ s) = let rest = cut s in if eqb c b'=' then some ([], s) else behind c rest
  where
    behind : ℕ → Option (Text × Text) → Option (Text × Text)
    behind c none = none
    behind c (some (k, v)) = some (c ∷ k, v)

-- `unicode.ToUpper` of the code points whose upper case is ASCII.
abbrev pub upper : ℕ → ℕ
upper c =
    if within b'a' b'z' c
    then c - 32
    else if eqb c 0x131
    then b'I'
    else if eqb c 0x17F
    then b'S'
    else c

unfoldable pub is_secret : Text → Bool
is_secret k =
    let name = map upper k in
    contains (codes "SECRET") name
    || contains (codes "TOKEN") name
    || contains (codes "PASSWORD") name
    || has_suffix (codes "_KEY") name

abbrev pub Entries : Type 0
Entries = List (Text × Text)

abbrev pub shown : Text → Text → Text
shown k v = if is_secret k then codes "***" else v

abbrev pub add_entry : Option (Text × Text) → Entries → Entries
add_entry none out = out
add_entry (some (k, v)) out = insert k (shown k v) out

unfoldable pub dump : List Text → Entries → Entries
unfolding cut
dump [] out = out
dump (kv ∷ rest) out = dump rest (add_entry (cut kv) out)

-- The argument is what `os.Environ` gives.
unfoldable pub dump_redacted : List Text → Entries
unfolding dump
dump_redacted environ = dump environ []
