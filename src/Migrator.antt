-- ===== src/Migrator.antt =====
-- migrator/migrator.go: the types, the names of migration files, and the loading of them. Directories
-- are lists of entries; the hash and what `os.DirFS` reads are arguments. A version has at most 14
-- digits, so it is a natural number here.
pub mod Naming
pub mod Sorted
pub mod Loading
pub mod Kept
pub mod Pending
pub mod Database
mod Tests
use api_toolkit.Prelude.{
  ℕ, zero, suc, ◌+◌, ◌-◌, ◌*◌, ◌^◌, ◌≡◌, refl, Bool, true, false, ◌&&◌, ◌||◌, List, [], ◌∷◌, ◌++◌,
  map, Option, none, some, if◌then◌else◌, ltb, leb, eqb, any, length, Text, codes, within, is_digit,
  strip_prefix, trim_space, parse_nat, check_range, ◌==◌, list_eq,
}
use api_toolkit.Prelude.Int.{ℤ, pos}

pub data Direction : Type 0 where
  down up : Direction

-- The logger, where there is one, gets the messages in the order of the calls.
pub record Options : Type 0 where
  pub migrations_dir : Text
  pub migrations_dirs : List Text
  pub table_name : Text
  pub lock_key : ℤ
  pub allow_dangerous_down : Bool
  pub has_logger : Bool

pub record Migration : Type 0 where
  pub version : ℕ
  pub name : Text
  pub dir : Direction
  pub file : Text
  pub sql : Text
  pub checksum : Text

pub record Runner : Type 0 where
  pub opts : Options
  pub migrations : List Migration
  pub loaded : Bool

abbrev pub default_table : Text
default_table = codes "schema_migrations"

abbrev pub default_lock : ℤ
default_lock = pos 913551337114213777

abbrev or_default_lock : ℤ → ℤ
or_default_lock (pos zero) = default_lock
or_default_lock key = key

-- `New`.
unfoldable pub new : Options → Runner
new opts = record {
  opts = record opts {
    table_name = if opts.table_name == [] then default_table else opts.table_name;
    lock_key = or_default_lock opts.lock_key;
  };
  migrations = [];
  loaded = false;
}

-- The longest prefix of code points with the property, and the rest.
unfoldable pub span : (ℕ → Bool) → Text → Text × Text
span p [] = ([], [])
span p (c ∷ s) = let (xs, rest) = span p s in if p c then (c ∷ xs, rest) else ([], c ∷ s)

-- `filepath.Base`, but for the empty path and paths of slashes, which give no migration either way.
unfoldable pub strip_slashes : Text → Text
strip_slashes [] = []
strip_slashes (c ∷ s) =
    let rest = strip_slashes s in if eqb c b'/' && rest == [] then [] else c ∷ rest

unfoldable pub after_slash : Text → Text
after_slash [] = []
after_slash (c ∷ s) = let rest = after_slash s in if any (eqb b'/') (c ∷ s) then rest else c ∷ s

abbrev pub is_name_char : ℕ → Bool
is_name_char c = within b'a' b'z' c || within b'A' b'Z' c || is_digit c || eqb c b'_' || eqb c b'-'

-- The end of `fileRe`: `\.(up|down)\.sql$`.
unfoldable pub direction_of : Text → Option Direction
direction_of s =
    if s == codes ".up.sql" then some up else if s == codes ".down.sql" then some down else none

unfoldable pub migration_of : Text → Text → Option ℕ → Option Direction → Option Migration
migration_of file name (some version) (some dir) =
    some
      (record { version = version; name = name; dir = dir; file = file; sql = []; checksum = [] })
migration_of file name _ _ = none

-- What follows the digits: `_([a-zA-Z0-9_\-]+)` and the end.
unfoldable pub parse_rest : Text → Text → Option Text → Option Migration
unfolding direction_of migration_of
parse_rest file digits none = none
parse_rest file digits (some s) =
    let (name, end) = span is_name_char s in
    if name == []
    then none
    else migration_of file name (check_range (2 ^ 63 - 1) (parse_nat digits)) (direction_of end)

-- The regular expression has one way to match: no digit is `_`, and no character of a name is a dot.
unfoldable pub parse_file_name : Text → Option Migration
unfolding parse_rest
parse_file_name name =
    let (digits, rest) = span is_digit (after_slash (strip_slashes name)) in
    if within 8 14 (length digits)
    then parse_rest name digits (strip_prefix (codes "_") rest)
    else none

-- A file of a directory: `content` is `none` where it cannot be read.
pub record DirEntry : Type 0 where
  pub name : Text
  pub is_dir : Bool
  pub content : Option Text

-- A directory that cannot be listed is `none`.
abbrev pub Root : Type 0
Root = Option (List DirEntry)

-- The errors of the runner. A `driver` error is one that the database gave.
pub data Error : Type 0 where
  no_source readdir read_file down_disabled : Error
  duplicate : ℕ → Direction → Error
  driver : ℕ → Error
  migration_failed : ℕ → ℕ → Error
  revert_failed : ℕ → ℕ → Error
  no_row_deleted : ℕ → Text → Error
  no_down_migration : ℕ → Text → Error

-- `seen`: the directories kept so far.
unfoldable pub dedupe : List Text → List Text → List Text
dedupe seen [] = []
dedupe seen (d ∷ ds) =
    let skip = dedupe seen ds in
    let keep = d ∷ dedupe (d ∷ seen) ds in if d == [] || any (λ s. s == d) seen then skip else keep

abbrev pub explicit_dirs : Options → List Text
explicit_dirs opts =
    (if opts.migrations_dir == [] then [] else opts.migrations_dir ∷ []) ++ opts.migrations_dirs

abbrev pub files_of : List DirEntry → List DirEntry
files_of [] = []
files_of (e ∷ es) = let rest = files_of es in if e.is_dir then rest else e ∷ rest

abbrev pub and_files : List DirEntry → Option (List DirEntry) → Option (List DirEntry)
and_files es none = none
and_files es (some rest) = some (files_of es ++ rest)

-- All files of all roots, or `none` where a root cannot be listed.
unfoldable pub aggregate : List Root → Option (List DirEntry)
aggregate [] = some []
aggregate (none ∷ roots) = none
aggregate (some es ∷ roots) = and_files es (aggregate roots)

abbrev pub same_dir : Direction → Direction → Bool
same_dir down down = true
same_dir up up = true
same_dir _ _ = false

-- The keys `version:dir` of `seenMig`.
abbrev pub Key : Type 0
Key = ℕ × Direction

abbrev pub is_seen : Migration → List Key → Bool
is_seen m [] = false
is_seen m ((v, d) ∷ seen) = (eqb v m.version && same_dir d m.dir) || is_seen m seen

-- By version, then by the name of the direction: "down" before "up".
abbrev pub before : Migration → Migration → Bool
before m n =
    if eqb m.version n.version
    then same_dir m.dir down && same_dir n.dir up
    else ltb m.version n.version

-- `sort.Slice`. No two migrations of a load have the same key, so the order is the only sorted one.
unfoldable pub insert_by :
    (Migration → Migration → Bool) → Migration → List Migration → List Migration
insert_by less m [] = m ∷ []
insert_by less m (n ∷ ns) =
    let rest = insert_by less m ns in if less n m then n ∷ rest else m ∷ n ∷ ns

unfoldable pub sort_by : (Migration → Migration → Bool) → List Migration → List Migration
sort_by less [] = []
sort_by less (m ∷ ms) = insert_by less m (sort_by less ms)
