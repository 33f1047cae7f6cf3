-- ===== src/Query/Validation.antt =====
-- server/validation/sql.py: SQLValidator. SQLGlot, which parses the text, is an argument; so is
-- `upper`, which stands for str.upper.
pub mod Tables
pub mod Columns
pub mod Resolution
pub mod Safety
mod Tests
use atlas_sql.Common.{
  String, Bool, true, false, not, ◌&&◌, ◌||◌, Option, none, some, List, [], ◌∷◌, ◌++◌, ◌==◌,
  string_eq, if◌then◌else◌, any, all, contains, dedup, sort, text_leb, is_blank, lookup, insert,
  map, has_key, filter,
}
use Prim.Native.String.{◌++◌ as append_text}
use atlas_sql.Query.Types.{QueryErrorCode}
use atlas_sql.Query.Scope.{allowed_columns}
use atlas_sql.Query.Execution.{
  ValidatedSql, Attempt, returned, refused, raised, ◌>>=◌, ◌>>◌, demand,
}
use atlas_sql.Query.SqlTree.{
  TableNode, ColumnNode, FunctionNode, anonymous, named, Node, is_select, is_forbidden, ctes_of,
  tables_of, functions_of, Source, of_table, of_scope, ScopeNode, Statement, statements_of, Parser,
}

-- ALLOWED_FUNCTIONS
unfoldable pub allowed_functions : List String
allowed_functions =
    "ABS" ∷ "AND" ∷ "AVG" ∷ "CASE" ∷ "CAST" ∷ "COALESCE" ∷ "COUNT" ∷ "CURRENT_DATE" ∷ "DATE"
    ∷ "EXISTS" ∷ "EXTRACT" ∷ "IF" ∷ "LAG" ∷ "LOWER" ∷ "MAX" ∷ "MIN" ∷ "NULLIF" ∷ "OR" ∷ "ROUND"
    ∷ "ROW_NUMBER" ∷ "SUM" ∷ "TIMESTAMP_TRUNC" ∷ "UPPER" ∷ []

-- The names of the tables that are read, and what each alias stands for.
pub record TableScope : Type 0 where
  pub names : List String
  pub aliases : List (String × String)

-- table.catalog or (table.db and table.db != "public") or name not in ALLOWED_COLUMNS
unfoldable pub is_out_of_scope : TableNode → Bool
is_out_of_scope t =
    not (is_blank t.catalog)
    || (not (is_blank t.db) && not (t.db == "public"))
    || not (has_key t.name allowed_columns)

abbrev pub with_table : TableNode → TableScope → TableScope
with_table t s = record {
  names = s.names ++ t.name ∷ [];
  aliases = insert t.name t.name (insert t.alias_or_name t.name s.aliases);
}

-- One table: the name of a CTE is passed over, whatever schema it is qualified with.
unfoldable pub validate_table :
    List String → TableNode → TableScope → Attempt QueryErrorCode TableScope
unfolding is_out_of_scope
validate_table ctes t s =
    if contains ctes t.name
    then returned s
    else if is_out_of_scope t
    then refused QueryErrorCode.sql_out_of_scope
    else returned (with_table t s)

-- _validate_tables
unfoldable pub validate_tables :
    List String → List TableNode → TableScope → Attempt QueryErrorCode TableScope
unfolding validate_table
validate_tables ctes [] s = returned s
validate_tables ctes (t ∷ ts) s = validate_table ctes t s >>= validate_tables ctes ts

abbrev pub no_tables : TableScope
no_tables = record { names = []; aliases = [] }

-- _scope_exports
abbrev pub scope_exports : List String → String → Bool
scope_exports names column_name = contains names column_name || contains names "*"

abbrev pub derived : String
derived = "<derived>"

-- A table of the allow list that has the column.
abbrev pub owns : String → Source → Bool
owns column_name (of_table t) = elim (lookup t.name allowed_columns) [
  | none ↦ false
  | some cs ↦ contains cs column_name
]
owns column_name (of_scope names) = false

abbrev pub exports : String → Source → Bool
exports column_name (of_table t) = false
exports column_name (of_scope names) = scope_exports names column_name

abbrev pub source_name : Source → String
source_name (of_table t) = t.name
source_name (of_scope names) = derived

-- The set of the tables among the sources that have the column.
unfoldable pub matches : String → List (String × Source) → List String
matches column_name sources =
    dedup (map (λ s. source_name s.1) (filter (λ s. owns column_name s.1) sources))

unfoldable pub only_match : List String → Bool → Option String
only_match [] true = some derived
only_match [] false = none
only_match (t ∷ []) derived_match = some t
only_match (t ∷ u ∷ ts) derived_match = none

-- A column with a qualifier, at what the scope has under that name.
unfoldable pub qualified_table : List (String × String) → ColumnNode → Option Source → Option String
qualified_table aliases c none = lookup c.table aliases
qualified_table aliases c (some (of_table t)) = some t.name
qualified_table aliases c (some (of_scope names)) =
    if scope_exports names c.name then some derived else none

-- _resolve_column_table
unfoldable pub resolve_column_table :
    List (String × String) → List (String × Source) → ColumnNode → Option String
unfolding matches only_match qualified_table
resolve_column_table aliases sources c =
    if is_blank c.table
    then only_match (matches c.name sources) (any (λ s. exports c.name s.1) sources)
    else qualified_table aliases c (lookup c.table sources)

-- f"{table_name}.{column.name}"
abbrev pub dotted : String → String → String
dotted table_name column_name = append_text table_name (append_text "." column_name)

-- A column of the table; a table that is not in the allow list is a KeyError.
unfoldable pub validate_owned : String → ColumnNode → Attempt QueryErrorCode (List String)
validate_owned table_name c = elim (lookup table_name allowed_columns) [
  | none ↦ raised
  | some cs ↦
      if contains cs c.name
      then returned (dotted table_name c.name ∷ [])
      else refused QueryErrorCode.sql_out_of_scope
]

unfoldable pub validate_resolved : ColumnNode → Option String → Attempt QueryErrorCode (List String)
unfolding validate_owned
validate_resolved c none = refused QueryErrorCode.sql_out_of_scope
validate_resolved c (some table_name) =
    if table_name == derived then returned [] else validate_owned table_name c

-- One column, with what it adds to `referenced`.
unfoldable pub validate_column :
    List (String × String)
    → List (String × Source)
    → ColumnNode
    → Attempt QueryErrorCode (List String)
unfolding validate_resolved
validate_column aliases sources c =
    if c.is_star then returned [] else validate_resolved c (resolve_column_table aliases sources c)

unfoldable pub validate_scope :
    List (String × String)
    → List (String × Source)
    → List ColumnNode
    → Attempt QueryErrorCode (List String)
unfolding validate_column
validate_scope aliases sources [] = returned []
validate_scope aliases sources (c ∷ cs) = do
  here ← validate_column aliases sources c
  rest ← validate_scope aliases sources cs
  returned (here ++ rest)

-- _validate_columns
unfoldable pub validate_columns :
    List (String × String) → List ScopeNode → Attempt QueryErrorCode (List String)
unfolding validate_scope
validate_columns aliases [] = returned []
validate_columns aliases (s ∷ ss) = do
  here ← validate_scope aliases s.sources s.columns
  rest ← validate_columns aliases ss
  returned (here ++ rest)

abbrev pub or_raise : {A : Type 0} → Option A → Attempt QueryErrorCode A
or_raise none = raised
or_raise (some x) = returned x

-- tuple(sorted(set))
abbrev pub sorted_set : List String → List String
sorted_set xs = sort text_leb (dedup xs)

-- What is reported of a statement: its tables and its columns.
pub record Reported : Type 0 where
  pub tables : List String
  pub columns : List String

-- strict_scope=True
unfoldable pub validate_strictly : Statement → Attempt QueryErrorCode Reported
unfolding validate_tables validate_columns
validate_strictly s = do
  tables ← validate_tables (ctes_of s.nodes) (tables_of s.nodes) no_tables
  scopes ← or_raise s.scopes
  columns ← validate_columns tables.aliases scopes
  returned (record { tables = tables.names; columns = columns })

-- strict_scope=False: the tables are collected, and nothing is checked.
abbrev pub collected : Statement → Reported
collected s = record {
  tables = filter (λ t. not (is_blank t)) (map (λ (t : TableNode). t.name) (tables_of s.nodes));
  columns = [];
}

unfoldable pub validate_range : Bool → Statement → Attempt QueryErrorCode Reported
unfolding validate_strictly
validate_range strict_scope s = if strict_scope then validate_strictly s else returned (collected s)

module _ (upper : String → String) where
  abbrev pub function_name : FunctionNode → String
  function_name (anonymous name) = upper name
  function_name (named name) = name

  abbrev pub is_allowed_function : FunctionNode → Bool
  is_allowed_function f = contains allowed_functions (function_name f)

  -- The single statement, after the parser.
  unfoldable pub validate_statement : Bool → Statement → Attempt QueryErrorCode ValidatedSql
  unfolding validate_range allowed_functions
  validate_statement strict_scope s = do
    demand (s.is_query && any is_select s.nodes) QueryErrorCode.sql_security_violation
    demand (not (any is_forbidden s.nodes)) QueryErrorCode.sql_security_violation
    found ← validate_range strict_scope s
    demand (all is_allowed_function (functions_of s.nodes)) QueryErrorCode.sql_security_violation
    returned (record {
      sql = s.text;
      tables = sorted_set found.tables;
      columns = sorted_set found.columns;
    })

  unfoldable pub validate_parsed : Bool → List Statement → Attempt QueryErrorCode ValidatedSql
  unfolding validate_statement
  validate_parsed strict_scope (s ∷ []) = validate_statement strict_scope s
  validate_parsed strict_scope _ = refused QueryErrorCode.sql_security_violation

  -- SQLValidator.validate
  unfoldable pub validate : Parser → Bool → String → Attempt QueryErrorCode ValidatedSql
  unfolding validate_parsed
  validate parse strict_scope sql = elim (parse sql) [
    | raised ↦ raised
    | refused e ↦ refused QueryErrorCode.sql_parse_error
    | returned found ↦ validate_parsed strict_scope (statements_of found)
  ]
