-- ===== src/Datasets/Migrations/Repeated.antt =====
-- A second run of the migrations does nothing.
use atlas_sql.Common.{String, Bool, some, List, string_eq, lookup, All, ◌≡◌}
use atlas_sql.Datasets.Migrations.{MigrationFile, version_of}
use atlas_sql.Datasets.Roles.{BusinessDatabase}

module _ (sha256 : String → String) (succeeds : List String → String → Bool) where
  abbrev HasRecord : List (String × String) → MigrationFile → Type 0
  HasRecord versions f = lookup (version_of f) versions ≡ some (sha256 f.text)

  -- Every record of the first table stands in the second.
  abbrev IsKept : List (String × String) → List (String × String) → Type 0
  IsKept vs ws = (v c : String) → lookup v vs ≡ some c → lookup v ws ≡ some c

  -- What one step leaves: its record, and every record before it.
  record IsMigrated (f : MigrationFile) (db db' : BusinessDatabase) : Type 0 where
    has_record : HasRecord db'.versions f
    kept : IsKept db.versions db'.versions

  -- What a run that ends without an exception leaves.
  record AreMigrated (fs : List MigrationFile) (db db' : BusinessDatabase) : Type 0 where
    have_records : All (HasRecord db'.versions) fs
    kept : IsKept db.versions db'.versions
