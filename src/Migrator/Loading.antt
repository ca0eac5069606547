-- ===== src/Migrator/Loading.antt =====
-- `loadMigrations` of migrator/migrator.go, and what a load from nothing gives.
use mathlib.Core.List.{Perm}
use api_toolkit.Prelude.{
  ℕ, ◌+◌, ◌≤◌, ◌≡◌, ◌⊎◌, Bool, true, false, ◌&&◌, List, [], ◌∷◌, ◌++◌, map, Option, none, some,
  if◌then◌else◌, eqb, Text, trim_space,
}
use api_toolkit.Migrator.{
  Options, Migration, Runner, DirEntry, Root, Error, no_source, readdir, read_file, duplicate,
  parse_file_name, explicit_dirs, dedupe, aggregate, Key, is_seen, same_dir, before, sort_by,
}
use api_toolkit.Migrator.Sorted.{Ascending, Unseen}

module _ (sum256 : Text → Text) where
  abbrev pub filled : Migration → Text → Migration
  filled m content = record m { sql = trim_space content; checksum = sum256 (trim_space content) }

  -- The loop over the files: the error that ends it, and the runner's migrations then.
  unfoldable pub collect : List DirEntry → List Key → List Migration → Option Error × List Migration
  collect [] seen ms = (none, ms)
  collect (e ∷ es) seen ms = elim (parse_file_name e.name) [
    | none ↦ collect es seen ms
    | some m ↦ elim (is_seen m seen) [
      | true ↦ (some (duplicate m.version m.dir), ms)
      | false ↦ elim e.content [
        | none ↦ (some read_file, ms)
        | some content ↦ collect es ((m.version, m.dir) ∷ seen) (ms ++ filled m content ∷ [])
      ]
    ]
  ]

  -- The migrations stay with the runner when the loop fails, but `loaded` is not set.
  unfoldable pub finish : Runner → Option Error × List Migration → Option Error × Runner
  finish r (some e, ms) = (some e, record r { migrations = ms })
  finish r (none, ms) = (none, record r { migrations = sort_by before ms; loaded = true })

  unfoldable pub load_files : Runner → Option (List DirEntry) → Option Error × Runner
  unfolding finish
  load_files r none = (some readdir, r)
  load_files r (some files) = finish r (collect files [] r.migrations)

  unfoldable pub load_from : Runner → List Root → Option Error × Runner
  unfolding load_files
  load_from r [] = (some no_source, r)
  load_from r (root ∷ roots) = load_files r (aggregate (root ∷ roots))

  -- `os.DirFS`, and the embedded file systems; `fs.Sub` by "." gives a file system itself.
  module _ (dir_fs : Text → Root) (embedded : List Root) where
    abbrev pub roots_of : Options → List Root
    roots_of opts = map dir_fs (dedupe [] (explicit_dirs opts)) ++ embedded

    unfoldable pub load_migrations : Runner → Option Error × Runner
    unfolding load_from
    load_migrations r = if r.loaded then (none, r) else load_from r (roots_of r.opts)

  -- Each file that is a migration, with its text and its checksum, in the order of the files.
  abbrev and_filled : Option Migration → Option Text → List Migration → List Migration
  and_filled (some m) (some content) rest = filled m content ∷ rest
  and_filled _ _ rest = rest

  abbrev pub found : List DirEntry → List Migration
  found [] = []
  found (e ∷ es) = and_filled (parse_file_name e.name) e.content (found es)

-- A file that names a migration and cannot be read.
abbrev IsUnreadable : DirEntry → Type 0
IsUnreadable f = (m : Migration) × (parse_file_name f.name ≡ some m) × (f.content ≡ none)

abbrev pub AnyUnreadable : List DirEntry → Type 0
AnyUnreadable [] = ⊥
AnyUnreadable (f ∷ fs) = IsUnreadable f ⊎ AnyUnreadable fs

-- Every file names no migration or can be read.
abbrev pub AllReadable : List DirEntry → Type 0
AllReadable [] = Unit
AllReadable (f ∷ fs) =
    ((parse_file_name f.name ≡ none) ⊎ ((content : Text) × (f.content ≡ some content)))
    × AllReadable fs

abbrev as_one : Bool → ℕ
as_one true = 1
as_one false = 0

abbrev has_key : Migration → Option Migration → ℕ
has_key m none = 0
has_key m (some n) = as_one (eqb n.version m.version && same_dir n.dir m.dir)

-- The number of files that name the version and the direction of a migration.
abbrev pub copies : Migration → List DirEntry → ℕ
copies m [] = 0
copies m (f ∷ fs) = has_key m (parse_file_name f.name) + copies m fs

-- Why the loop ends: a file that cannot be read, or a key for the second time.
abbrev Cause : List Key → List DirEntry → Error → Type 0
Cause seen fs e =
    ((e ≡ read_file) × AnyUnreadable fs)
    ⊎ ((m : Migration) × (e ≡ duplicate m.version m.dir)
        × (2 ≤ as_one (is_seen m seen) + copies m fs))

abbrev Explained : List Key → List DirEntry → Option Error × List Migration → Type 0
Explained seen fs (none, out) = AllReadable fs
Explained seen fs (some e, out) = Cause seen fs e

-- What the loop leaves when it does not fail: the migrations of the files, behind those from before.
abbrev IsCorrect :
    List Key → List Migration → List Migration → Option Error × List Migration → Type 0
IsCorrect seen ms fs (some e, out) = Unit
IsCorrect seen ms fs (none, out) = (out ≡ ms ++ fs) × Unseen seen fs

module _ (sum256 : Text → Text) where
  -- What a load gives: without an error, the migrations of the files, none of them unreadable; with one,
  -- its reason.
  abbrev pub IsLoaded : List DirEntry → Option Error × Runner → Type 0
  IsLoaded files (some e, r) =
      (r.loaded ≡ false)
      × (((e ≡ read_file) × AnyUnreadable files)
          ⊎ ((m : Migration) × (e ≡ duplicate m.version m.dir) × (2 ≤ copies m files)))
  IsLoaded files (none, r) =
      (r.loaded ≡ true)
      × AllReadable files
      × Ascending r.migrations
      × Perm r.migrations (found sum256 files)
