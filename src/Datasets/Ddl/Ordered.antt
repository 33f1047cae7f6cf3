-- ===== src/Datasets/Ddl/Ordered.antt =====
-- The rendered script creates every table once, before anything refers to it.
use Prim.Native.String.{[] as no_text, ◌∷◌ as then_text}
use atlas_sql.Common.{
  String, true, false, Option, none, some, List, [], ◌∷◌, string_eq, contains, before, after, All,
  Option-cases, Bool-cases, ◌≡◌, inl, inr, refl, subst, arith, sym, IsDistinct, traverse, flat_map,
  All-flat, All-traverse, eq_iff, ◌||◌, ◌++◌, traverse_cons, All-both,
}
use atlas_sql.Datasets.Ddl.{
  DdlStatement, quote_identifier, create_ddl, link_ddl, create_table, Identifier, Table, quoted,
  DdlLine, add_foreign_key, is_identifier, table_lines, create_index, reference_ddl, joined,
  table_links, render_schema, columns, Column, set_lock_timeout, set_statement_timeout,
}
use atlas_sql.Datasets.Catalog.{
  is_unknown, dot, table_names, IsResolved, validate_catalog, validate_catalog-IsWellFormed,
  IsWellFormed,
}

-- The statement can be executed after those tables were created.
abbrev pub IsReady : List String → DdlStatement → Type 0
IsReady created (create_table (quoted name) lines) = contains created name ≡ false
IsReady created (add_foreign_key (quoted t) constraint item (quoted target) target_item) =
    (contains created t ≡ true) × (contains created target ≡ true)
IsReady created (create_index index (quoted t) item) = contains created t ≡ true
IsReady created _ = Unit

abbrev pub creating : DdlStatement → List String → List String
creating (create_table (quoted name) lines) created = name ∷ created
creating _ created = created

-- Each statement can be executed after those that stand before it.
abbrev pub IsOrdered : List String → List DdlStatement → Type 0
IsOrdered created [] = Unit
IsOrdered created (s ∷ script) = IsReady created s × IsOrdered (creating s created) script

-- The statement is ready and creates nothing.
abbrev pub IsLinked : List String → DdlStatement → Type 0
IsLinked created s = IsReady created s × (creating s created ≡ created)

quote_identifier_same : (s : String) (i : Identifier) → quote_identifier s ≡ some i → i ≡ quoted s
unfolding quote_identifier
quote_identifier_same s i h = elim (Bool-cases (is_identifier s)) [
  | inl e ↦ ground arith
  | inr e ↦ absurd (ground arith)
]

-- A table is created under its name.
create_ddl_named :
    (t : Table) (s : DdlStatement)
    → create_ddl t ≡ some s
    → (lines : List DdlLine) × (s ≡ create_table (quoted t.name) lines)
unfolding create_ddl
create_ddl_named t s h = elim (Option-cases (table_lines t)) [
  | inl e ↦ absurd (ground arith)
  | inr (lines, e) ↦ elim (Option-cases (quote_identifier t.name)) [
    | inl q ↦ absurd (ground arith)
    | inr (name, q) ↦ let same = quote_identifier_same t.name name q in (lines, ground arith)
  ]
]

IsQuoted : String → Option Identifier → Type 0
IsQuoted s o = (i : Identifier) → o ≡ some i → i ≡ quoted s

reference_ddl_ready :
    (created : List String) (n target : String) (ot oc oi og om ox : Option Identifier)
    (ss : List DdlStatement)
    → reference_ddl ot oc oi og om ox ≡ some ss
    → IsQuoted n ot
    → IsQuoted target og
    → contains created n ≡ true
    → contains created target ≡ true
    → All (IsLinked created) ss
unfolding IsQuoted
reference_ddl_ready created n target none oc oi og om ox ss h p q k l = absurd (ground arith)
reference_ddl_ready created n target (some a) none oi og om ox ss h p q k l = absurd (ground arith)
reference_ddl_ready created n target (some a) (some b) none og om ox ss h p q k l =
    absurd (ground arith)
reference_ddl_ready created n target (some a) (some b) (some c) none om ox ss h p q k l =
    absurd (ground arith)
reference_ddl_ready created n target (some a) (some b) (some c) (some d) none ox ss h p q k l =
    absurd (ground arith)
reference_ddl_ready created n target (some a) (some b) (some c) (some d) (some e) none ss h p q k
      l =
    absurd (ground arith)
reference_ddl_ready created n target (some a) (some b) (some c) (some d) (some e) (some f) ss h p q
      k l =
    let table = p a refl in
    let goal = q d refl in
    let same : add_foreign_key (quoted n) b c (quoted target) e ∷ create_index f (quoted n) c ∷ []
        ≡ ss =
      ground arith in
    subst (All (IsLinked created)) same (((k, l), refl), ((k, refl), tt))

-- The statements of one reference are ready once both tables are created.
link_ddl_ready :
    (created : List String) (n item : String) (r : Option String) (ss : List DdlStatement)
    → link_ddl n item r ≡ some ss
    → contains created n ≡ true
    → (is_unknown created r ≡ false)
    → All (IsLinked created) ss
unfolding link_ddl before after IsQuoted
link_ddl_ready created n item none ss h k u =
    let same : [] ≡ ss = ground arith in subst (All (IsLinked created)) same tt
link_ddl_ready created n item (some no_text) ss h k u = absurd (ground arith)
link_ddl_ready created n item (some (then_text c s)) ss h k u =
    elim (Option-cases (after dot (then_text c s))) [
      | inl e ↦ absurd (ground arith)
      | inr (target_column, e) ↦
          reference_ddl_ready created n (before dot (then_text c s)) (quote_identifier n)
            (quote_identifier (joined "fk_" n item)) (quote_identifier item)
            (quote_identifier (before dot (then_text c s))) (quote_identifier target_column)
            (quote_identifier (joined "idx_" n item)) ss (ground arith) (quote_identifier_same n)
            (quote_identifier_same (before dot (then_text c s))) k (ground arith)
    ]

is_unknown_more :
    (names created : List String) (r : Option String)
    → ((x : String) → contains names x ≡ true → contains created x ≡ true)
    → is_unknown names r ≡ false
    → is_unknown created r ≡ false
is_unknown_more names created none more h = refl
is_unknown_more names created (some r) more h = ground (arith, more (before dot r))

table_links_ready :
    (names created : List String) (t : Table) (ss : List DdlStatement)
    → ((x : String) → contains names x ≡ true → contains created x ≡ true)
    → contains created t.name ≡ true
    → All (IsResolved names) (columns t)
    → table_links t ≡ some ss
    → All (IsLinked created) ss
unfolding table_links
table_links_ready names created t ss more k resolved h =
    elim (Option-cases
      (traverse (λ (c : Column). link_ddl t.name c.name c.reference) (columns t))) [
        | inl e ↦ absurd (ground arith)
        | inr (parts, e) ↦
            let same : flat_map (λ xs. xs) parts ≡ ss = ground arith in
            subst (All (IsLinked created)) same (
              All-flat (IsLinked created) parts (
                All-traverse (λ (c : Column). link_ddl t.name c.name c.reference) (IsResolved names)
                  (All (IsLinked created)) (columns t) parts
                  (λ c s q r.
                    link_ddl_ready created t.name c.name c.reference s q k
                      (is_unknown_more names created c.reference more r.target))
                  resolved e))
      ]

-- The tables that stand in the database after those were created.
abbrev with_tables : List Table → List String → List String
with_tables [] created = created
with_tables (t ∷ ts) created = with_tables ts (t.name ∷ created)

contains-with_tables :
    (ts : List Table) (created : List String) (x : String)
    → contains (with_tables ts created) x ≡ (contains (table_names ts) x || contains created x)
contains-with_tables [] created x = refl
contains-with_tables (t ∷ ts) created x =
    ground (arith, contains-with_tables ts (t.name ∷ created) x)

IsOrdered-links :
    (created : List String) (ss : List DdlStatement)
    → All (IsLinked created) ss
    → IsOrdered created ss
IsOrdered-links created [] h = tt
IsOrdered-links created (s ∷ ss) h =
    (h.0.0, subst (λ c. IsOrdered c ss) (sym h.0.1) (IsOrdered-links created ss h.1))

IsOrdered-creates :
    (ts : List Table) (created : List String) (creates links : List DdlStatement)
    → IsDistinct (table_names ts)
    → ((x : String) → contains (table_names ts) x ≡ true → contains created x ≡ false)
    → traverse create_ddl ts ≡ some creates
    → IsOrdered (with_tables ts created) links
    → IsOrdered created (creates ++ links)
IsOrdered-creates [] created creates links d new h k =
    let same : [] ≡ creates = ground arith in subst (λ c. IsOrdered created (c ++ links)) same k
IsOrdered-creates (t ∷ ts) created creates links d new h k =
    let (s, rest, first, later, same) = traverse_cons create_ddl t ts creates h in
    let (lines, named) = create_ddl_named t s first in
    let tail =
      IsOrdered-creates ts (t.name ∷ created) rest links d.1
        (λ x e. ground (arith, new x, eq_iff t.name x)) later k in
    subst (λ c. IsOrdered created (c ++ links)) (sym same)
      (subst (λ q. IsOrdered created (q ∷ rest ++ links)) (sym named)
        (new t.name (ground (arith, eq_iff t.name t.name)), tail))

all_named :
    (ts : List Table) (names : List String)
    → ((x : String) → contains (table_names ts) x ≡ true → contains names x ≡ true)
    → All (λ (t : Table). contains names t.name ≡ true) ts
all_named [] names h = tt
all_named (t ∷ ts) names h = (
  h t.name (ground (arith, eq_iff t.name t.name)),
  all_named ts names (λ x k. h x (ground arith)),
)

links_ready :
    (ts : List Table) (created : List String) (links : List (List DdlStatement))
    → ((x : String) → contains (table_names ts) x ≡ true → contains created x ≡ true)
    → All (IsWellFormed (table_names ts)) ts
    → traverse table_links ts ≡ some links
    → All (All (IsLinked created)) links
links_ready ts created links known formed q =
    All-traverse table_links
      (λ t. IsWellFormed (table_names ts) t × (contains (table_names ts) t.name ≡ true))
      (All (IsLinked created)) ts links
      (λ t ss e p.
        table_links_ready (table_names ts) created t ss known (known t.name p.1) p.0.references e)
      (All-both (IsWellFormed (table_names ts))
        (λ (t : Table). contains (table_names ts) t.name ≡ true) ts formed
        (all_named ts (table_names ts) (λ x k. k)))
      q

-- If validate_catalog finds no error in a catalog and its script can be rendered, then every
-- statement of the script can be executed after those before it: no table is created twice, and
-- every foreign key and index refers to tables that have been created.
pub render_schema-IsOrdered :
    (ts : List Table) (script : List DdlStatement)
    → validate_catalog ts ≡ []
    → render_schema ts ≡ some script
    → IsOrdered [] script
unfolding render_schema
render_schema-IsOrdered ts script valid h =
    let (d, formed) = validate_catalog-IsWellFormed ts valid in
    elim (Option-cases (traverse create_ddl ts)) [
      | inl e ↦ absurd (ground arith)
      | inr (creates, e) ↦ elim (Option-cases (traverse table_links ts)) [
        | inl q ↦ absurd (ground arith)
        | inr (links, q) ↦
            let created = with_tables ts [] in
            let known : (x : String)
                → contains (table_names ts) x ≡ true
                → contains created x ≡ true =
              λ x k. ground (arith, contains-with_tables ts [] x) in
            let ready =
              All-flat (IsLinked created) links (links_ready ts created links known formed q) in
            let same : set_lock_timeout
                  ∷ set_statement_timeout
                  ∷ (creates ++ flat_map (λ xs. xs) links)
                ≡ script =
              ground arith in
            subst (IsOrdered []) same (
              tt,
              (
                tt,
                IsOrdered-creates ts [] creates (flat_map (λ xs. xs) links) d (λ x k. refl) e
                    (IsOrdered-links created (flat_map (λ xs. xs) links) ready),
              ),
            )
      ]
    ]
