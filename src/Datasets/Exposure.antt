-- ===== src/Datasets/Exposure.antt =====
-- The allow list of server/domain/sales_scope.py against the catalog of datasets/schema/catalog.py.
use atlas_sql.Common.{
  String, Bool, true, false, Option, none, some, List, [], ◌∷◌, ◌==◌, string_eq, all, lookup,
  contains, find, Bool-cases, Option-cases, ◌≡◌, inl, inr, refl, sym, ◌∙◌, arith, eq_iff, ap,
}
use atlas_sql.Query.Scope.{allowed_columns, is_allowed_column}
use atlas_sql.Datasets.Schema.{Table, Sensitivity, Column, columns}
use atlas_sql.Datasets.Tables.{tables}

-- The column of that name, of the table of that name.
unfoldable pub column_of : List Table → String → String → Option Column
column_of ts table_name column_name = elim (find (λ (t : Table). t.name == table_name) ts) [
  | none ↦ none
  | some t ↦ find (λ (c : Column). c.name == column_name) (columns t)
]

-- Neither confidential nor restricted.
abbrev pub is_plain : Sensitivity → Bool
is_plain Sensitivity.public = true
is_plain Sensitivity.internal = true
is_plain _ = false

abbrev pub is_plain_column : Option Column → Bool
is_plain_column none = false
is_plain_column (some c) = is_plain c.sensitivity

all_of_contained :
    (p : String → Bool) (xs : List String) (x : String)
    → all p xs ≡ true
    → contains xs x ≡ true
    → p x ≡ true
all_of_contained p [] x h k = absurd (ground arith)
all_of_contained p (y ∷ ys) x h k = elim (Bool-cases (y == x)) [
  | inl e ↦ let same : p y ≡ p x = ap p ((eq_iff y x).0 e) in sym same ∙ ground arith
  | inr e ↦ all_of_contained p ys x (ground arith) (ground arith)
]

-- What holds of all the columns of a dictionary holds of each that is looked up.
all_of_listed :
    (p : String → String → Bool) (d : List (String × List String)) (t c : String) (cs : List String)
    → all (λ e. all (p e.0) e.1) d ≡ true
    → lookup t d ≡ some cs
    → contains cs c ≡ true
    → p t c ≡ true
unfolding lookup
all_of_listed p [] t c cs h e k = absurd (ground arith)
all_of_listed p ((u, us) ∷ d) t c cs h e k = elim (Bool-cases (u == t)) [
  | inl same ↦
      let listed : us ≡ cs = ground arith in
      let name : u ≡ t = (eq_iff u t).0 same in
      let here : p u c ≡ true =
        all_of_contained (p u) us c (ground arith) (ap (λ l. contains l c) listed ∙ k) in
      sym (ap (λ v. p v c) name) ∙ here
  | inr other ↦ all_of_listed p d t c cs (ground arith) (ground arith) k
]

listed_columns_plain :
    all (λ a. all (λ c. is_plain_column (column_of tables a.0 c)) a.1) allowed_columns ≡ true
unfolding allowed_columns column_of tables columns find
listed_columns_plain = refl

-- Where is_allowed_column accepts a name of a column for a table, the catalog has that column in that
-- table, and marks it neither as confidential nor as restricted.
pub is_allowed_column-plain :
    (t c : String)
    → is_allowed_column t c ≡ true
    → (col : Column) × (column_of tables t c ≡ some col) × (is_plain col.sensitivity ≡ true)
unfolding is_allowed_column
is_allowed_column-plain t c h = elim (Option-cases (lookup t allowed_columns)) [
  | inl e ↦ absurd (ground arith)
  | inr (cs, e) ↦
      let plain =
        all_of_listed (λ u d. is_plain_column (column_of tables u d)) allowed_columns t c cs
          listed_columns_plain e (ground arith) in
      elim (Option-cases (column_of tables t c)) [
        | inl q ↦ absurd (ground arith)
        | inr (col, q) ↦ (col, q, ground arith)
      ]
]
