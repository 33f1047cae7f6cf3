-- ===== src/Datasets/Roles.antt =====
-- What apply_migrations of datasets/migrations.py executes for the reader role, after the scripts.
-- Whether PostgreSQL executes a statement is an argument; each one is committed by itself.
use atlas_sql.Common.{
  String, Bool, true, false, Option, none, some, List, [], ◌∷◌, ◌++◌, string_eq, if◌then◌else◌,
  contains,
}
use atlas_sql.Datasets.Ddl.{Identifier, quote_identifier, escape}

pub data RoleStatement : Type 0 where
  create_login : Identifier → String → RoleStatement
  set_read_only create_nologin : Identifier → RoleStatement
  revoke_create : RoleStatement
  grant_connect grant_usage grant_select default_select : Identifier → RoleStatement

-- The table business_schema_migration (versions with their checksums), the scripts that were
-- executed, the roles of the server, and the statements on roles that were executed.
pub record BusinessDatabase : Type 0 where
  pub executed : List String
  pub versions : List (String × String)
  pub roles : List String
  pub statements : List RoleStatement

abbrev pub creates_role : RoleStatement → Bool
creates_role (create_login role password) = true
creates_role (create_nologin role) = true
creates_role _ = false

abbrev pub creation : Identifier → Option String → List RoleStatement
creation role (some password) = create_login role (escape password) ∷ set_read_only role ∷ []
creation role none = create_nologin role ∷ []

abbrev pub grants : Identifier → List RoleStatement
grants role =
    revoke_create
    ∷ grant_connect role
    ∷ grant_usage role
    ∷ grant_select role
    ∷ default_select role
    ∷ []

abbrev pub role_statements : Bool → Identifier → Option String → List RoleStatement
role_statements role_exists role password =
    if role_exists then grants role else creation role password ++ grants role

module _ (accepts : RoleStatement → Bool) where
  abbrev pub with_statement : String → RoleStatement → BusinessDatabase → BusinessDatabase
  with_statement reader_role s db = record db {
    statements = db.statements ++ s ∷ [];
    roles = if creates_role s then reader_role ∷ db.roles else db.roles;
  }

  -- The statements in their order, up to the first that raises: false.
  unfoldable pub execute_all :
      String → List RoleStatement → BusinessDatabase → BusinessDatabase × Bool
  execute_all reader_role [] db = (db, true)
  execute_all reader_role (s ∷ ss) db =
      let rest = execute_all reader_role ss (with_statement reader_role s db) in
      if accepts s then rest else (db, false)

  -- The part `if reader_role is not None`: false is an exception.
  unfoldable pub grant_reader :
      Option String → Option String → BusinessDatabase → BusinessDatabase × Bool
  unfolding execute_all quote_identifier
  grant_reader none password db = (db, true)
  grant_reader (some name) password db = elim (quote_identifier name) [
    | none ↦ (db, false)
    | some role ↦ execute_all name (role_statements (contains db.roles name) role password) db
  ]
