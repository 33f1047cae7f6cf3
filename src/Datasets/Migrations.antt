-- ===== src/Datasets/Migrations.antt =====
-- apply_migrations of datasets/migrations.py. The hash of a script and whether PostgreSQL executes it
-- are arguments; a script that fails leaves nothing behind, since it stands in one transaction with
-- the record of its version. The part for the reader role is in Datasets/Roles.
pub mod Granted
pub mod Repeated
use atlas_sql.Common.{
  ℕ, String, Bool, true, false, not, ◌&&◌, ◌||◌, Option, none, some, List, [], ◌∷◌, ◌++◌, map, ◌==◌,
  string_eq, if◌then◌else◌, filter, lookup, sort, text_leb, before,
}
use atlas_sql.Datasets.Roles.{BusinessDatabase, RoleStatement, grant_reader}

pub data MigrationStatus : Type 0 where
  applied skipped : MigrationStatus

pub record MigrationResult : Type 0 where
  pub version : String
  pub status : MigrationStatus

-- A file of the directory of the migrations, with its text.
pub record MigrationFile : Type 0 where
  pub name : String
  pub text : String

-- path.name.split("_", 1)[0]
abbrev pub version_of : MigrationFile → String
version_of f = before 95 f.name

-- sorted(root.glob(...)), of the files that match
abbrev pub migration_files : List MigrationFile → List MigrationFile
migration_files fs = sort (λ (f g : MigrationFile). text_leb f.name g.name) fs

module _ (sha256 : String → String) (succeeds : List String → String → Bool) where
  -- What a script and the record of its version leave.
  abbrev pub with_migration : MigrationFile → BusinessDatabase → BusinessDatabase
  with_migration f db = record db {
    executed = db.executed ++ f.text ∷ [];
    versions = db.versions ++ (version_of f, sha256 f.text) ∷ [];
  }

  abbrev pub outcome : MigrationFile → MigrationStatus → MigrationResult
  outcome f s = record { version = version_of f; status = s }

  -- One file, with the checksum that is recorded for its version: none is an exception.
  unfoldable pub migrate :
      Option String → MigrationFile → BusinessDatabase → Option (BusinessDatabase × MigrationResult)
  migrate (some existing) f db =
      if existing == sha256 f.text then some (db, outcome f skipped) else none
  migrate none f db =
      if succeeds db.executed f.text then some (with_migration f db, outcome f applied) else none

  abbrev pub prepend :
      MigrationResult → Option (List MigrationResult) → Option (List MigrationResult)
  prepend r none = none
  prepend r (some rs) = some (r ∷ rs)

  abbrev pub followed :
      MigrationResult
      → BusinessDatabase × Option (List MigrationResult)
      → BusinessDatabase × Option (List MigrationResult)
  followed r later = (later.0, prepend r later.1)

  -- The files in their order. An exception ends the run; what was committed before it stays.
  unfoldable pub run_migrations :
      List MigrationFile → BusinessDatabase → BusinessDatabase × Option (List MigrationResult)
  unfolding migrate
  run_migrations [] db = (db, some [])
  run_migrations (f ∷ fs) db = elim (migrate (lookup (version_of f) db.versions) f db) [
    | none ↦ (db, none)
    | some step ↦ followed step.1 (run_migrations fs step.0)
  ]

  -- The grants come after the files, unless a file raised.
  unfoldable pub with_grants :
      (RoleStatement → Bool)
      → Option String
      → Option String
      → BusinessDatabase × Option (List MigrationResult)
      → BusinessDatabase × Option (List MigrationResult)
  unfolding grant_reader
  with_grants accepts reader_role reader_password (db, none) = (db, none)
  with_grants accepts reader_role reader_password (db, some rs) =
      let granted = grant_reader accepts reader_role reader_password db in
      (granted.0, if granted.1 then some rs else none)

  unfoldable pub apply_migrations :
      (RoleStatement → Bool)
      → List MigrationFile
      → Option String
      → Option String
      → BusinessDatabase
      → BusinessDatabase × Option (List MigrationResult)
  unfolding run_migrations with_grants
  apply_migrations accepts fs reader_role reader_password db =
      with_grants accepts reader_role reader_password (run_migrations (migration_files fs) db)
