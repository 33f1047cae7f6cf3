-- ===== src/Datasets/Catalog.antt =====
-- validate_catalog of datasets/schema/catalog.py, and what a catalog without errors is like.
use atlas_sql.Common.{
  String, Bool, true, false, not, ◌&&◌, ◌||◌, Option, none, some, List, [], ◌∷◌, ◌++◌, map, ◌==◌,
  string_eq, nat_eq, if◌then◌else◌, filter, contains, dedup, length, is_blank, flat_map,
  flat_map_empty, append_empty, All, All-map, before, ◌≡◌, refl, arith, IsDistinct,
  length-dedup-IsDistinct, eq_iff, ℕ,
}
use atlas_sql.Datasets.Schema.{Table, Column, columns}

-- The texts of the errors, with what is put into them.
pub data CatalogError : Type 0 where
  duplicate_tables : CatalogError
  duplicate_columns no_single_key : String → CatalogError
  unknown_reference : String → String → String → CatalogError
  odd_cardinality unknown_enum : String → String → CatalogError

-- if b: errors.append(e)
abbrev pub when : Bool → CatalogError → List CatalogError
when b e = if b then e ∷ [] else []

-- len(set(xs)) != len(xs)
abbrev pub has_duplicates : List String → Bool
has_duplicates xs = not (length (dedup xs) == length xs)

abbrev pub table_names : List Table → List String
table_names ts = map (λ (t : Table). t.name) ts

abbrev pub column_names : Table → List String
column_names t = map (λ (c : Column). c.name) (columns t)

abbrev pub primary_keys : Table → List String
primary_keys t =
    map (λ (c : Column). c.name) (filter (λ (c : Column). c.is_primary_key) (columns t))

abbrev pub is_id : List String → Bool
is_id (k ∷ []) = k == "id"
is_id ks = false

-- A text or None, as a condition.
abbrev pub is_given : Option String → Bool
is_given none = false
is_given (some s) = not (is_blank s)

-- The code of ".".
abbrev pub dot : ℕ
dot = 46

abbrev pub is_unknown : List String → Option String → Bool
is_unknown names none = false
is_unknown names (some r) = not (is_blank r) && not (contains names (before dot r))

abbrev pub target_text : Option String → String
target_text none = ""
target_text (some r) = r

-- bool(item.reference) != bool(item.relationship_cardinality)
abbrev pub is_odd : Column → Bool
is_odd item =
    is_given item.reference && not (is_given item.relationship_cardinality)
    || not (is_given item.reference) && is_given item.relationship_cardinality

unfoldable pub column_errors : List String → String → Column → List CatalogError
unfolding before
column_errors names table_name item =
    when (is_unknown names item.reference)
      (unknown_reference table_name item.name (target_text item.reference))
    ++ when (is_odd item) (odd_cardinality table_name item.name)

abbrev enum_errors : Table → (String × List String) → List CatalogError
enum_errors t e = when (not (contains (column_names t) e.0)) (unknown_enum t.name e.0)

unfoldable pub content_errors : List String → Table → List CatalogError
unfolding column_errors
content_errors names t =
    flat_map (column_errors names t.name) (columns t) ++ flat_map (enum_errors t) t.status_enums

unfoldable pub table_errors : List String → Table → List CatalogError
unfolding content_errors
table_errors names t =
    when (has_duplicates (column_names t)) (duplicate_columns t.name)
    ++ (when (not (is_id (primary_keys t))) (no_single_key t.name) ++ content_errors names t)

-- validate_catalog, of any tables
unfoldable pub validate_catalog : List Table → List CatalogError
unfolding table_errors
validate_catalog ts =
    when (has_duplicates (table_names ts)) duplicate_tables
    ++ flat_map (table_errors (table_names ts)) ts

-- A reference names a table of the catalog, and has a cardinality.
pub record IsResolved (names : List String) (c : Column) : Type 0 where
  pub target : is_unknown names c.reference ≡ false
  pub cardinality : is_given c.reference ≡ is_given c.relationship_cardinality

pub record IsWellFormed (names : List String) (t : Table) : Type 0 where
  pub columns_distinct : IsDistinct (column_names t)
  pub key : primary_keys t ≡ "id" ∷ []
  pub references : All (IsResolved names) (columns t)
  pub enums : All (λ e. contains (column_names t) e.0 ≡ true) t.status_enums

-- The first of the errors did not come up, nor did the others.
when_then :
    (b : Bool) (e : CatalogError) (es : List CatalogError)
    → when b e ++ es ≡ []
    → (b ≡ false) × (es ≡ [])
when_then true e es h = absurd (ground arith)
when_then false e es h = (refl, h)

when_empty : (b : Bool) (e : CatalogError) → when b e ≡ [] → b ≡ false
when_empty true e h = absurd (ground arith)
when_empty false e h = refl

distinct : (xs : List String) → has_duplicates xs ≡ false → IsDistinct xs
distinct xs h = length-dedup-IsDistinct xs (ground arith)

is_id_only : (ks : List String) → not (is_id ks) ≡ false → ks ≡ "id" ∷ []
is_id_only [] h = absurd (ground arith)
is_id_only (k ∷ []) h = ground (arith, eq_iff k "id")
is_id_only (k ∷ j ∷ ks) h = absurd (ground arith)

column_errors-IsResolved :
    (names : List String) (n : String) (c : Column)
    → column_errors names n c ≡ []
    → IsResolved names c
unfolding column_errors
column_errors-IsResolved names n c h =
    let (target, odd) =
      when_then (is_unknown names c.reference)
        (unknown_reference n c.name (target_text c.reference)) _ h in
    let o = when_empty (is_odd c) (odd_cardinality n c.name) odd in
    record { target = target; cardinality = ground arith }

enum_known :
    (t : Table) (e : String × List String)
    → enum_errors t e ≡ []
    → contains (column_names t) e.0 ≡ true
enum_known t e h =
    let k = when_empty (not (contains (column_names t) e.0)) (unknown_enum t.name e.0) h in
    ground arith

table_errors-IsWellFormed :
    (names : List String) (t : Table) → table_errors names t ≡ [] → IsWellFormed names t
unfolding table_errors content_errors
table_errors-IsWellFormed names t h =
    let (duplicates, h1) =
      when_then (has_duplicates (column_names t)) (duplicate_columns t.name)
        (when (not (is_id (primary_keys t))) (no_single_key t.name) ++ content_errors names t) h in
    let (key, h2) =
      when_then (not (is_id (primary_keys t))) (no_single_key t.name) (content_errors names t) h1 in
    let (references, enums) =
      append_empty (flat_map (column_errors names t.name) (columns t))
        (flat_map (enum_errors t) t.status_enums) h2 in
    record {
      columns_distinct = distinct (column_names t) duplicates;
      key = is_id_only (primary_keys t) key;
      references =
          All-map _ _ (columns t) (column_errors-IsResolved names t.name)
            (flat_map_empty (column_errors names t.name) (columns t) references);
      enums =
          All-map _ _ t.status_enums (enum_known t)
            (flat_map_empty (enum_errors t) t.status_enums enums);
    }

-- If validate_catalog finds no error in a catalog, its tables have distinct names, and in each of
-- them the columns have distinct names, `id` is the only primary key, every reference names a table
-- of the catalog and stands with a cardinality, and every enumeration is of a column of the table.
pub validate_catalog-IsWellFormed :
    (ts : List Table)
    → validate_catalog ts ≡ []
    → IsDistinct (table_names ts) × All (IsWellFormed (table_names ts)) ts
unfolding validate_catalog
validate_catalog-IsWellFormed ts h =
    let (duplicates, errors) =
      when_then (has_duplicates (table_names ts)) duplicate_tables
        (flat_map (table_errors (table_names ts)) ts) h in
    (
      distinct (table_names ts) duplicates,
      All-map _ _ ts (table_errors-IsWellFormed (table_names ts))
          (flat_map_empty (table_errors (table_names ts)) ts errors),
    )
