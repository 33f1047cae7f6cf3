-- ===== src/Datasets/Tests.antt =====
-- The catalog of the program, a small one and two migrations, and the theorems at them.
use atlas_sql.Common.{[], ◌≡◌, refl, string_eq, true, none, some, List, ◌∷◌, All, IsDistinct}
use atlas_sql.Datasets.Migrations.{MigrationFile}
use atlas_sql.Datasets.Catalog.{
  validate_catalog, table_names, IsWellFormed, validate_catalog-IsWellFormed,
}
use atlas_sql.Query.Scope.{is_allowed_column}
use atlas_sql.Datasets.Schema.{
  Table, Column, declare, columns, Domain, TableKind, column, reference,
}
use atlas_sql.Datasets.Ddl.{DdlStatement, render_schema, Identifier, quoted}
use atlas_sql.Datasets.Ddl.Ordered.{IsOrdered, render_schema-IsOrdered}
use atlas_sql.Datasets.Tables.{tables}
use atlas_sql.Datasets.Exposure.{column_of, is_plain, is_allowed_column-plain}
use atlas_sql.Datasets.Roles.{
  BusinessDatabase, RoleStatement, revoke_create, create_login, grant_connect, set_read_only,
  grant_usage, grant_select, default_select,
}

catalog_test : validate_catalog tables ≡ []
unfolding validate_catalog tables columns
catalog_test = refl

validate_catalog-IsWellFormed_example :
    IsDistinct (table_names tables) × All (IsWellFormed (table_names tables)) tables
validate_catalog-IsWellFormed_example = validate_catalog-IsWellFormed tables catalog_test

is_allowed_column-plain_example :
    (col : Column) × (column_of tables "fact_order" "order_amount" ≡ some col)
    × (is_plain col.sensitivity ≡ true)
unfolding is_allowed_column atlas_sql.Common.lookup atlas_sql.Query.Scope.allowed_columns
is_allowed_column-plain_example = is_allowed_column-plain "fact_order" "order_amount" refl

-- A table that refers to itself and to the other.
abbrev small : List Table
small =
    declare Domain.sales "orders" TableKind.fact "" "" "" "" [] (
      column "store_id" "bigint" "" (reference "stores.id" ∷ [])
      ∷ column "parent_id" "bigint" "" (reference "orders.id" ∷ [])
      ∷ [])
    ∷ declare Domain.store "stores" TableKind.dimension "" "" "" "" [] []
    ∷ []

small_test : validate_catalog small ≡ []
unfolding validate_catalog columns
small_test = refl

abbrev small_script : List DdlStatement
small_script = elim (render_schema small) [ none ↦ [] | some s ↦ s ]

rendered_test : render_schema small ≡ some small_script
unfolding render_schema columns atlas_sql.Common.find atlas_sql.Common.sort atlas_sql.Common.after
    atlas_sql.Common.before
rendered_test = refl

render_schema-IsOrdered_example : IsOrdered [] small_script
render_schema-IsOrdered_example =
    render_schema-IsOrdered small small_script small_test rendered_test

abbrev files : List MigrationFile
files =
    record { name = "002_seed.sql"; text = "INSERT" }
    ∷ record { name = "001_schema.sql"; text = "CREATE" }
    ∷ []

abbrev empty_database : BusinessDatabase
empty_database = record { executed = []; versions = []; roles = []; statements = [] }

abbrev reader : Identifier
reader = quoted "reader"

abbrev reader_grants : List RoleStatement
reader_grants =
    revoke_create
    ∷ grant_connect reader
    ∷ grant_usage reader
    ∷ grant_select reader
    ∷ default_select reader
    ∷ []

abbrev migrated : BusinessDatabase
migrated = record {
  executed = "CREATE" ∷ "INSERT" ∷ [];
  versions = ("001", "CREATE") ∷ ("002", "INSERT") ∷ [];
  roles = "reader" ∷ [];
  statements = create_login reader "it''s" ∷ set_read_only reader ∷ reader_grants;
}
