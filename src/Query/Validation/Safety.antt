-- ===== src/Query/Validation/Safety.antt =====
-- What a statement that the validator accepts cannot contain.
use atlas_sql.Common.{
  String, Bool, string_eq, true, false, Option, some, List, [], ◌∷◌, ◌≡◌, any, all, All, contains,
}
use atlas_sql.Query.Execution.{ValidatedSql, returned}
use atlas_sql.Query.SqlTree.{
  is_select, is_forbidden, ctes_of, tables_of, functions_of, ScopeNode, Statement, statements_of,
  Parser,
}
use atlas_sql.Query.Validation.{is_allowed_function}
use atlas_sql.Query.Validation.Tables.{IsReadable, AreNamed, adds}
use atlas_sql.Query.Validation.Columns.{AreChecked}

-- What the strict scope shows of a statement and of what is reported of it.
pub record IsConfined (s : Statement) (tables columns : List String) : Type 0 where
  pub readable : All (IsReadable (ctes_of s.nodes)) (tables_of s.nodes)
  pub reported :
      (x : String) → contains tables x ≡ any (adds (ctes_of s.nodes) x) (tables_of s.nodes)
  pub scopes : List ScopeNode
  pub known : s.scopes ≡ some scopes
  pub aliases : List (String × String)
  pub aliased : AreNamed tables aliases
  pub checked : All (AreChecked aliases columns) scopes

-- With strict_scope the statement is confined to the allow list; without, no column is reported.
abbrev pub IsInRange : Bool → Statement → ValidatedSql → Type 0
IsInRange true s v = IsConfined s v.tables v.columns
IsInRange false s v = v.columns ≡ []

module _ (upper : String → String) where
  -- A single statement that was accepted.
  pub record IsAccepted (strict_scope : Bool) (s : Statement) (v : ValidatedSql) : Type 0 where
    pub is_query : s.is_query ≡ true
    pub selects : any is_select s.nodes ≡ true
    pub writes_nothing : any is_forbidden s.nodes ≡ false
    pub functions : all (is_allowed_function upper) (functions_of s.nodes) ≡ true
    pub text : v.sql ≡ s.text
    pub range : IsInRange strict_scope s v

  -- What the text of a validated query was found to be: one statement that was accepted.
  pub record IsValidated (parse : Parser) (strict_scope : Bool) (sql : String) (v : ValidatedSql)
      : Type 0 where
    pub found : List (Option Statement)
    pub parsed : parse sql ≡ returned found
    pub statement : Statement
    pub single : statements_of found ≡ statement ∷ []
    pub accepted : IsAccepted strict_scope statement v
