-- ===== src/Datasets/Ddl.antt =====
-- render_schema_sql of datasets/migrations.py. A statement of the script is data: one constructor
-- for each text, with what is put into it.
pub mod Ordered
use atlas_sql.Common.{
  ℕ, String, Bool, true, false, not, ◌&&◌, ◌||◌, Option, none, some, List, [], ◌∷◌, ◌++◌, map, ◌==◌,
  string_eq, if◌then◌else◌, filter, lookup, leb, sort, text_leb, before, after, find, traverse,
  flat_map, Key, nat_eq,
}
use Prim.Native.Char.{Char, code}
use Prim.Native.String.{[] as no_text, ◌∷◌ as then_text, ◌++◌ as append_text}
use atlas_sql.Datasets.Schema.{Column, Table, columns}
use atlas_sql.Datasets.Catalog.{dot}

abbrev is_lower : Char → Bool
is_lower ch = leb 97 (code ch) && leb (code ch) 122

abbrev is_digit : Char → Bool
is_digit ch = leb 48 (code ch) && leb (code ch) 57

abbrev is_name_rest : String → Bool
is_name_rest no_text = true
is_name_rest (then_text c s) = (is_lower c || is_digit c || code c == 95) && is_name_rest s

-- IDENTIFIER: ^[a-z][a-z0-9_]*$
abbrev pub is_identifier : String → Bool
is_identifier no_text = false
is_identifier (then_text c s) = is_lower c && is_name_rest s

-- A name between double quotes.
pub data Identifier : Type 0 where
  quoted : String → Identifier

unfoldable pub quote_identifier : String → Option Identifier
quote_identifier value = if is_identifier value then some (quoted value) else none

-- value.replace("'", "''")
abbrev pub escape : String → String
escape no_text = no_text
escape (then_text c s) =
    let rest = escape s in if code c == 39 then then_text c (then_text c rest) else then_text c rest

-- A line of CREATE TABLE: a column with its type, NOT NULL or not, the key, and an enumeration with
-- its escaped values.
pub data DdlLine : Type 0 where
  column_line : Identifier → String → Bool → DdlLine
  primary_key : Identifier → DdlLine
  check : Identifier → List String → DdlLine

-- add_foreign_key: the table, the constraint, the column, the target table and column.
-- create_index: the index, the table and the column.
pub data DdlStatement : Type 0 where
  set_lock_timeout set_statement_timeout : DdlStatement
  create_table : Identifier → List DdlLine → DdlStatement
  add_foreign_key : Identifier → Identifier → Identifier → Identifier → Identifier → DdlStatement
  create_index : Identifier → Identifier → Identifier → DdlStatement

abbrev column_ddl : Column → Option DdlLine
column_ddl item = elim (quote_identifier item.name) [
  | none ↦ none
  | some name ↦ some (column_line name item.data_type (not item.nullable))
]

abbrev check_ddl : (String × List String) → Option DdlLine
check_ddl e = elim (quote_identifier e.0) [
  | none ↦ none
  | some name ↦ some (check name (map escape e.1))
]

abbrev key_ddl : Option Column → Option DdlLine
key_ddl none = none
key_ddl (some item) = elim (quote_identifier item.name) [
  | none ↦ none
  | some name ↦ some (primary_key name)
]

-- The lines of a table; none is an exception.
abbrev pub table_lines : Table → Option (List DdlLine)
table_lines t = elim (traverse column_ddl (columns t)) [
  | none ↦ none
  | some cs ↦ elim (key_ddl (find (λ (c : Column). c.is_primary_key) (columns t))) [
    | none ↦ none
    | some key ↦ elim (traverse check_ddl (sort (λ a b. text_leb a.0 b.0) t.status_enums)) [
      | none ↦ none
      | some checks ↦ some (cs ++ key ∷ checks)
    ]
  ]
]

unfoldable pub create_ddl : Table → Option DdlStatement
unfolding quote_identifier
create_ddl t = elim (table_lines t) [
  | none ↦ none
  | some lines ↦ elim (quote_identifier t.name) [
    | none ↦ none
    | some name ↦ some (create_table name lines)
  ]
]

abbrev joined : String → String → String → String
joined prefix a b = append_text prefix (append_text a (append_text "_" b))

-- The statements of a reference, of the table and the column of those names.
abbrev pub reference_ddl :
    Option Identifier
    → Option Identifier
    → Option Identifier
    → Option Identifier
    → Option Identifier
    → Option Identifier
    → Option (List DdlStatement)
reference_ddl (some table) (some constraint) (some item) (some target) (some target_item)
      (some index) =
    some (
      add_foreign_key table constraint item target target_item ∷ create_index index table item ∷ [])
reference_ddl _ _ _ _ _ _ = none

unfoldable pub link_ddl : String → String → Option String → Option (List DdlStatement)
unfolding quote_identifier
link_ddl table_name item none = some []
link_ddl table_name item (some reference) = elim (after dot reference) [
  | none ↦ none
  | some target_column ↦
      reference_ddl (quote_identifier table_name) (quote_identifier (joined "fk_" table_name item))
        (quote_identifier item) (quote_identifier (before dot reference))
        (quote_identifier target_column) (quote_identifier (joined "idx_" table_name item))
]

-- Every reference of a table; none is an exception.
unfoldable pub table_links : Table → Option (List DdlStatement)
unfolding link_ddl
table_links t = elim (traverse (λ (c : Column). link_ddl t.name c.name c.reference) (columns t)) [
  | none ↦ none
  | some parts ↦ some (flat_map (λ xs. xs) parts)
]

-- render_schema_sql: all tables first, then the references.
unfoldable pub render_schema : List Table → Option (List DdlStatement)
unfolding create_ddl table_links
render_schema ts = elim (traverse create_ddl ts) [
  | none ↦ none
  | some creates ↦ elim (traverse table_links ts) [
    | none ↦ none
    | some links ↦
        some (set_lock_timeout ∷ set_statement_timeout ∷ (creates ++ flat_map (λ xs. xs) links))
  ]
]
