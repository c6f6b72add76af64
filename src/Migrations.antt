-- ===== src/Migrations.antt =====
-- internal/repo/postgres/migrate.go. The directory, its order of names, the file names of paths and
-- what the database answers are arguments.
pub mod Again
use drone_management_system.Tables.{any_id}
use drone_management_system.Sorting.{sort_by}
use drone_management_system.Base.{
  ◌&&◌, ◌++◌, Bool, not, Option, if◌then◌else◌, List, String, none, some, [], ◌∷◌, true, false,
}

pub record Entry : Type 0 where
  pub name : String
  pub is_dir : Bool

-- What `os.ReadDir` answers.
pub data Listing : Type 0 where
  missing : Listing
  unreadable : Listing
  entries : List Entry → Listing

-- `has_suffix` is `strings.HasSuffix` with ".sql", `join` is `filepath.Join` with the directory,
-- `base` is `filepath.Base`; a file that cannot be read is none. The rest is whether a statement
-- succeeds: the creation of the table, a query, a script, and the insert of a version.
pub record Disk : Type 0 where
  pub read_dir : Listing
  pub has_suffix : String → Bool
  pub join : String → String
  pub base : String → String
  pub collate : String → String → Bool
  pub read_file : String → Option String
  pub creates : Bool
  pub queries : String → Bool
  pub runs : String → Bool
  pub inserts : String → Bool

-- The rows of `schema_migrations`, and the scripts that were run.
pub record Schema : Type 0 where
  pub versions : List String
  pub scripts : List String

pub data MigrationResult : Type 0 where
  migrated : MigrationResult
  migration_failed : MigrationResult

module _ (disk : Disk) where
  -- The paths of the scripts, in the order of the directory.
  unfoldable pub script_paths : List Entry → List String
  script_paths [] = []
  script_paths (entry ∷ rest) =
      let paths = script_paths rest in
      if not entry.is_dir && disk.has_suffix entry.name then disk.join entry.name ∷ paths else paths

  -- `INSERT INTO schema_migrations (version) VALUES ($1)`
  abbrev pub marked : String → Schema → Schema
  marked version s = record s { versions = version ∷ s.versions }

  abbrev pub executed : String → Schema → Schema
  executed content s = record s { scripts = s.scripts ++ (content ∷ []) }

  -- One script that is not applied.
  abbrev pub apply_script :
      String
      → Option String
      → Schema
      → (Schema → MigrationResult × Schema)
      → MigrationResult × Schema
  apply_script version none s next = (migration_failed, s)
  apply_script version (some content) s next =
      if not (disk.runs content)
      then (migration_failed, s)
      else if not (disk.inserts version)
      then (migration_failed, executed content s)
      else next (marked version (executed content s))

  -- One path, by whether the query for its version succeeds and whether that finds it.
  abbrev pub apply_path :
      (queried applied : Bool)
      → String
      → Schema
      → (Schema → MigrationResult × Schema)
      → MigrationResult × Schema
  apply_path false applied path s next = (migration_failed, s)
  apply_path true true path s next = next s
  apply_path true false path s next = apply_script (disk.base path) (disk.read_file path) s next

  unfoldable pub apply_paths : List String → Schema → MigrationResult × Schema
  apply_paths [] s = (migrated, s)
  apply_paths (path ∷ paths) s =
      let version = disk.base path in
      apply_path (disk.queries version) (any_id s.versions version) path s
        (λ t. apply_paths paths t)

  abbrev pub apply_listing : Listing → Schema → MigrationResult × Schema
  unfolding script_paths apply_paths sort_by
  apply_listing missing s = (migrated, s)
  apply_listing unreadable s = (migration_failed, s)
  apply_listing (entries found) s = apply_paths (sort_by disk.collate (script_paths found)) s

  unfoldable pub apply_migrations : Schema → MigrationResult × Schema
  unfolding apply_listing
  apply_migrations s =
      if not disk.creates then (migration_failed, s) else apply_listing disk.read_dir s
