-- ===== src/Query/Validation/Resolution.antt =====
-- Which table the validator takes a column to be of.
use atlas_sql.Common.{
  String, Bool, true, false, ◌&&◌, some, List, [], ◌∷◌, ◌==◌, string_eq, ◌≡◌, ◌⊎◌, inl, inr, refl,
  sym, ◌∙◌, ap, arith, any, contains, filter, map, is_blank, contains-dedup,
}
use atlas_sql.Query.SqlTree.{Source, ColumnNode}
use atlas_sql.Query.Validation.{
  matches, only_match, resolve_column_table, source_name, owns, derived, exports,
}

-- The distinct names of the sources that have the column.
contains-named :
    (p : (String × Source) → Bool) (sources : List (String × Source)) (x : String)
    → contains (map (λ s. source_name s.1) (filter p sources)) x
      ≡ any (λ s. p s && source_name s.1 == x) sources
contains-named p [] x = refl
contains-named p (s ∷ sources) x = ground (arith, contains-named p sources x)

-- The sources that have the column, by their names.
abbrev pub has_column : String → String → (String × Source) → Bool
has_column column_name x s = owns column_name s.1 && source_name s.1 == x

contains-matches :
    (column_name : String) (sources : List (String × Source)) (x : String)
    → contains (matches column_name sources) x ≡ any (has_column column_name x) sources
unfolding matches
contains-matches column_name sources x =
    contains-dedup (map (λ s. source_name s.1) (filter (λ s. owns column_name s.1) sources)) x
    ∙ contains-named (λ s. owns column_name s.1) sources x

only_match_sound :
    (found : List String) (derived_match : Bool) (t : String)
    → only_match found derived_match ≡ some t
    → ((t ≡ derived) × (found ≡ [])) ⊎ (found ≡ t ∷ [])
unfolding only_match
only_match_sound [] true t h = inl (ground arith, refl)
only_match_sound [] false t h = absurd (ground arith)
only_match_sound (u ∷ []) derived_match t h = inr (ground arith)
only_match_sound (u ∷ v ∷ found) derived_match t h = absurd (ground arith)

-- A column without a qualifier is taken to be of a derived table only if no table of the scope has
-- it, and to be of another table only if the tables of the scope that have it all have that name.
pub resolve_column_table-unambiguous :
    (aliases : List (String × String)) (sources : List (String × Source)) (c : ColumnNode)
    (t : String)
    → is_blank c.table ≡ true
    → resolve_column_table aliases sources c ≡ some t
    → ((x : String) → any (has_column c.name x) sources ≡ false) × (t ≡ derived)
      ⊎ ((x : String) → any (has_column c.name x) sources ≡ (t == x))
unfolding resolve_column_table
resolve_column_table-unambiguous aliases sources c t blank h =
    elim (only_match_sound (matches c.name sources) (any (λ s. exports c.name s.1) sources) t
      (ground arith)) [
        | inl (d, e) ↦
            inl (λ x. sym (contains-matches c.name sources x) ∙ ap (λ l. contains l x) e, d)
        | inr e ↦
            inr
              λ x. sym (contains-matches c.name sources x) ∙ ap (λ l. contains l x) e ∙ ground arith
      ]
