-- ===== src/Query/Validation/Tables.antt =====
-- The tables of a statement that the validator accepts are in scope, and are reported.
use atlas_sql.Common.{
  String, Bool, true, false, not, ◌&&◌, ◌||◌, List, [], ◌∷◌, ◌==◌, string_eq, ◌≡◌, ◌⊎◌, inl, inr,
  arith, lookup, insert, lookup-insert, subst, eq_iff, any, All, contains, is_blank, has_key,
  Bool-cases, contains-append, some,
}
use atlas_sql.Query.Scope.{allowed_columns}
use atlas_sql.Query.Execution.{returned, bind_returned}
use atlas_sql.Query.SqlTree.{TableNode}
use atlas_sql.Query.Validation.{
  TableScope, is_out_of_scope, validate_table, validate_tables, with_table,
}

-- A table of the allow list, in the schema public and in no other database.
pub record IsInScope (t : TableNode) : Type 0 where
  pub catalog : is_blank t.catalog ≡ true
  pub schema : (is_blank t.db || t.db == "public") ≡ true
  pub listed : has_key t.name allowed_columns ≡ true

-- The name of a CTE of the statement, or a table in scope.
abbrev pub IsReadable : List String → TableNode → Type 0
IsReadable ctes t = (contains ctes t.name ≡ true) ⊎ IsInScope t

in_scope : (t : TableNode) → is_out_of_scope t ≡ false → IsInScope t
unfolding is_out_of_scope
in_scope t h = record { catalog = ground arith; schema = ground arith; listed = ground arith }

-- The table adds its name, unless it is a CTE's.
abbrev pub adds : List String → String → TableNode → Bool
adds ctes x t = not (contains ctes t.name) && t.name == x

-- Every alias stands for one of the names.
abbrev pub AreNamed : List String → List (String × String) → Type 0
AreNamed names aliases = (a t : String) → lookup a aliases ≡ some t → contains names t ≡ true

-- What the tables that were read leave behind.
pub record IsCollected (ctes : List String) (ts : List TableNode) (s s' : TableScope) : Type 0 where
  pub readable : All (IsReadable ctes) ts
  pub names : (x : String) → contains s'.names x ≡ (contains s.names x || any (adds ctes x) ts)
  pub aliased : AreNamed s.names s.aliases → AreNamed s'.names s'.aliases

with_table-AreNamed :
    (t : TableNode) (s : TableScope)
    → AreNamed s.names s.aliases
    → AreNamed (with_table t s).names (with_table t s).aliases
with_table-AreNamed t s h a u e = ground (
  arith,
  lookup-insert t.name a t.name (insert t.alias_or_name t.name s.aliases),
  lookup-insert t.alias_or_name a t.name s.aliases,
  contains-append s.names (t.name ∷ []) u,
  eq_iff t.name u,
  h a u,
)

validate_table-IsCollected :
    (ctes : List String) (t : TableNode) (s s' : TableScope)
    → validate_table ctes t s ≡ returned s'
    → IsCollected ctes (t ∷ []) s s'
unfolding validate_table
validate_table-IsCollected ctes t s s' h = elim (Bool-cases (contains ctes t.name)) [
  | inl e ↦
      let same : s ≡ s' = ground arith in
      subst (IsCollected ctes (t ∷ []) s) same
        (record { readable = (inl e, tt); names = λ x. ground arith; aliased = λ k. k })
  | inr e ↦ elim (Bool-cases (is_out_of_scope t)) [
    | inl o ↦ absurd (ground arith)
    | inr o ↦
        let same : with_table t s ≡ s' = ground arith in
        subst (IsCollected ctes (t ∷ []) s) same (record {
          readable = (inr (in_scope t o), tt);
          names = λ x. ground (arith, contains-append s.names (t.name ∷ []) x);
          aliased = with_table-AreNamed t s;
        })
  ]
]

pub validate_tables-IsCollected :
    (ctes : List String) (ts : List TableNode) (s s' : TableScope)
    → validate_tables ctes ts s ≡ returned s'
    → IsCollected ctes ts s s'
unfolding validate_tables
validate_tables-IsCollected ctes [] s s' h =
    let same : s ≡ s' = ground arith in
    subst (IsCollected ctes [] s) same
      (record { readable = tt; names = λ x. ground arith; aliased = λ k. k })
validate_tables-IsCollected ctes (t ∷ ts) s s' h =
    let (m, first, rest) = bind_returned _ _ s' h in
    let here = validate_table-IsCollected ctes t s m first in
    let later = validate_tables-IsCollected ctes ts m s' rest in
    record {
      readable = (here.readable.0, later.readable);
      names = λ x. ground (arith, here.names x, later.names x);
      aliased = λ k. later.aliased (here.aliased k);
    }
