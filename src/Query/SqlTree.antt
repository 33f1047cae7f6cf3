-- ===== src/Query/SqlTree.antt =====
-- What server/validation/sql.py reads of the trees that SQLGlot makes: the nodes of the walk, in
-- its order, and the scopes. The parser itself is an argument of the validator.
use atlas_sql.Common.{String, Bool, true, false, Option, none, some, List, [], ◌∷◌, string_eq}
use atlas_sql.Query.Execution.{Attempt}

-- exp.Table
pub record TableNode : Type 0 where
  pub name : String
  pub db : String
  pub catalog : String
  pub alias_or_name : String

-- exp.Column; a column without a qualifier has the empty table.
pub record ColumnNode : Type 0 where
  pub name : String
  pub table : String
  pub is_star : Bool

-- exp.Func: exp.Anonymous with its name as written, any other with its sql_name().
pub data FunctionNode : Type 0 where
  anonymous named : String → FunctionNode

-- The classes of `forbidden`.
pub data WriteNode : Type 0 where
  alter command copy create delete drop insert_rows into merge transaction : WriteNode
  truncate_table update_rows : WriteNode

-- A node of the tree, by what isinstance tells of it.
pub data Node : Type 0 where
  select other : Node
  cte : String → Node
  table : TableNode → Node
  function : FunctionNode → Node
  write : WriteNode → Node

-- An entry of Scope.sources: a table, or a derived table with its named_selects.
pub data Source : Type 0 where
  of_table : TableNode → Source
  of_scope : List String → Source

pub record ScopeNode : Type 0 where
  pub columns : List ColumnNode
  pub sources : List (String × Source)

-- `scopes` is none where traverse_scope raises; `text` is statement.sql(dialect="postgres").
pub record Statement : Type 0 where
  pub is_query : Bool
  pub nodes : List Node
  pub scopes : Option (List ScopeNode)
  pub text : String

pub data ParseError : Type 0 where
  parse_error : ParseError

abbrev pub Parser : Type 0
Parser = String → Attempt ParseError (List (Option Statement))

abbrev pub is_select : Node → Bool
is_select select = true
is_select _ = false

abbrev pub is_forbidden : Node → Bool
is_forbidden (write k) = true
is_forbidden _ = false

-- statement.find_all of a class, with what is read of the nodes
abbrev pub ctes_of : List Node → List String
ctes_of [] = []
ctes_of (cte s ∷ ns) = s ∷ ctes_of ns
ctes_of (n ∷ ns) = ctes_of ns

abbrev pub tables_of : List Node → List TableNode
tables_of [] = []
tables_of (table t ∷ ns) = t ∷ tables_of ns
tables_of (n ∷ ns) = tables_of ns

abbrev pub functions_of : List Node → List FunctionNode
functions_of [] = []
functions_of (function f ∷ ns) = f ∷ functions_of ns
functions_of (n ∷ ns) = functions_of ns

-- [statement for statement in parse(sql) if statement]
abbrev pub statements_of : List (Option Statement) → List Statement
statements_of [] = []
statements_of (some s ∷ rest) = s ∷ statements_of rest
statements_of (none ∷ rest) = statements_of rest
