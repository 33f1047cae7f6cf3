-- ===== src/Query/Validation/Tests.antt =====
-- Two statements through the validator, and the theorems at them.
use atlas_sql.Common.{
  String, Bool, true, false, Option, none, some, List, [], ◌∷◌, ◌≡◌, ◌⊎◌, refl, string_eq, arith,
  any, inl, inr, ◌==◌, dedup,
}
use atlas_sql.Query.SqlTree.{
  Statement, Source, ColumnNode, ScopeNode, Parser, select, of_table, function, cte, named, table,
}
use atlas_sql.Query.Execution.{ValidatedSql, returned}
use atlas_sql.Query.Validation.{validate, resolve_column_table, derived}
use atlas_sql.Query.Validation.Resolution.{has_column, resolve_column_table-unambiguous}

abbrev sources : List (String × Source)
sources =
    ("o", of_table (record { name = "fact_order"; db = ""; catalog = ""; alias_or_name = "o" }))
    ∷ (
      "s",
      of_table (record { name = "dim_store"; db = "public"; catalog = ""; alias_or_name = "s" }),
    )
    ∷ []

abbrev amount : ColumnNode
amount = record { name = "order_amount"; table = ""; is_star = false }

abbrev joined : ScopeNode
joined = record {
  columns = record { name = "store_name"; table = "s"; is_star = false } ∷ amount ∷ [];
  sources = sources;
}

-- SELECT s.store_name, SUM(order_amount) FROM fact_order o JOIN dim_store s
abbrev statement : Statement
statement = record {
  is_query = true;
  nodes =
      select
      ∷ function (named "SUM")
      ∷ table (record { name = "fact_order"; db = ""; catalog = ""; alias_or_name = "o" })
      ∷ table (record { name = "dim_store"; db = "public"; catalog = ""; alias_or_name = "s" })
      ∷ [];
  scopes = some (joined ∷ []);
  text = "SELECT s.store_name, SUM(order_amount) FROM fact_order AS o, dim_store AS s";
}

abbrev parse : Parser
parse = λ sql. returned (some statement ∷ none ∷ [])

abbrev upper : String → String
upper = λ s. s

abbrev validated : ValidatedSql
validated = record {
  sql = statement.text;
  tables = "dim_store" ∷ "fact_order" ∷ [];
  columns = "dim_store.store_name" ∷ "fact_order.order_amount" ∷ [];
}

resolve_column_table-unambiguous_example :
    ((x : String) → any (has_column "order_amount" x) sources ≡ false) × ("fact_order" ≡ derived)
    ⊎ ((x : String) → any (has_column "order_amount" x) sources ≡ ("fact_order" == x))
unfolding resolve_column_table atlas_sql.Common.lookup atlas_sql.Query.Scope.allowed_columns
resolve_column_table-unambiguous_example =
    resolve_column_table-unambiguous [] sources amount "fact_order" refl refl

-- WITH pg_shadow AS (SELECT 1) SELECT * FROM pg_catalog.pg_shadow: the table has the name of a CTE.
abbrev shadowing : Statement
shadowing = record {
  is_query = true;
  nodes =
      select
      ∷ cte "pg_shadow"
      ∷ table (record {
        name = "pg_shadow";
        db = "pg_catalog";
        catalog = "";
        alias_or_name = "pg_shadow";
      })
      ∷ [];
  scopes = some (record { columns = []; sources = [] } ∷ []);
  text = "WITH pg_shadow AS (SELECT 1) SELECT * FROM pg_catalog.pg_shadow";
}

shadowing_test :
    validate upper (λ sql. returned (some shadowing ∷ [])) true "with"
    ≡ returned (record { sql = shadowing.text; tables = []; columns = [] })
unfolding validate atlas_sql.Common.sort
shadowing_test = refl
