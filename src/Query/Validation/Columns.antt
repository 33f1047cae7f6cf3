-- ===== src/Query/Validation/Columns.antt =====
-- The columns of a statement that the validator accepts are of the allow list, and are reported.
use atlas_sql.Common.{
  String, true, some, List, [], ◌∷◌, ◌++◌, ◌==◌, string_eq, ◌≡◌, ◌⊎◌, inl, inr, subst, ◌∙◌, ap,
  arith, eq_iff, All, All-map, contains, lookup, Bool-cases, Option-cases, contains-append,
}
use atlas_sql.Query.Scope.{allowed_columns, is_allowed_column}
use atlas_sql.Query.Execution.{returned, bind_returned}
use atlas_sql.Query.SqlTree.{ColumnNode, Source, ScopeNode}
use atlas_sql.Query.Validation.{
  derived, dotted, resolve_column_table, validate_owned, validate_resolved, validate_column,
  validate_scope, validate_columns,
}

module _ (aliases : List (String × String)) where
  -- A star, a column of a derived table, or a column of the allow list that is reported.
  abbrev pub IsChecked : List String → List (String × Source) → ColumnNode → Type 0
  IsChecked reported sources c =
      (c.is_star ≡ true)
      ⊎ (resolve_column_table aliases sources c ≡ some derived)
      ⊎ ((t : String) × (resolve_column_table aliases sources c ≡ some t)
          × (is_allowed_column t c.name ≡ true)
          × (contains reported (dotted t c.name) ≡ true))

  -- Every column of the scope.
  abbrev pub AreChecked : List String → ScopeNode → Type 0
  AreChecked reported s = All (IsChecked reported s.sources) s.columns

  pub IsChecked-more :
      (xs ys : List String) (sources : List (String × Source)) (c : ColumnNode)
      → ((x : String) → contains xs x ≡ true → contains ys x ≡ true)
      → IsChecked xs sources c
      → IsChecked ys sources c
  IsChecked-more xs ys sources c more (inl h) = inl h
  IsChecked-more xs ys sources c more (inr (inl h)) = inr (inl h)
  IsChecked-more xs ys sources c more (inr (inr (t, found, ok, h))) =
      inr (inr (t, found, ok, more _ h))

  validate_owned_sound :
      (t : String) (c : ColumnNode) (here : List String)
      → validate_owned t c ≡ returned here
      → (is_allowed_column t c.name ≡ true) × (contains here (dotted t c.name) ≡ true)
  unfolding validate_owned is_allowed_column
  validate_owned_sound t c here h = elim (Option-cases (lookup t allowed_columns)) [
    | inl e ↦ absurd (ground arith)
    | inr (cs, e) ↦ elim (Bool-cases (contains cs c.name)) [
      | inl k ↦ (ground arith, ground (arith, eq_iff (dotted t c.name) (dotted t c.name)))
      | inr k ↦ absurd (ground arith)
    ]
  ]

  validate_column_sound :
      (sources : List (String × Source)) (c : ColumnNode) (here : List String)
      → validate_column aliases sources c ≡ returned here
      → IsChecked here sources c
  unfolding validate_column validate_resolved
  validate_column_sound sources c here h = elim (Bool-cases c.is_star) [
    | inl e ↦ inl e
    | inr e ↦ elim (Option-cases (resolve_column_table aliases sources c)) [
      | inl k ↦ absurd (ground arith)
      | inr (t, k) ↦ elim (Bool-cases (t == derived)) [
        | inl d ↦ inr (inl (k ∙ ap some ((eq_iff t derived).0 d)))
        | inr d ↦
            let sound = validate_owned_sound t c here (ground arith) in
            inr (inr (t, k, sound.0, sound.1))
      ]
    ]
  ]

  more_left :
      (xs ys : List String) (x : String) → contains xs x ≡ true → contains (xs ++ ys) x ≡ true
  more_left xs ys x h = ground (arith, contains-append xs ys x)

  more_right :
      (xs ys : List String) (x : String) → contains ys x ≡ true → contains (xs ++ ys) x ≡ true
  more_right xs ys x h = ground (arith, contains-append xs ys x)

  validate_scope_sound :
      (sources : List (String × Source)) (cs : List ColumnNode) (here : List String)
      → validate_scope aliases sources cs ≡ returned here
      → All (IsChecked here sources) cs
  unfolding validate_scope
  validate_scope_sound sources [] here h = tt
  validate_scope_sound sources (c ∷ cs) here h =
      let (xs, first, next) = bind_returned _ _ here h in
      let (ys, later, same) = bind_returned _ _ here next in
      let e : xs ++ ys ≡ here = ground arith in
      subst (λ r. All (IsChecked r sources) (c ∷ cs)) e
        (
          IsChecked-more xs (xs ++ ys) sources c (more_left xs ys)
              (validate_column_sound sources c xs first),
          All-map _ _ cs (λ d. IsChecked-more ys (xs ++ ys) sources d (more_right xs ys))
              (validate_scope_sound sources cs ys later),
        )

  pub AreChecked-more :
      (xs ys : List String) (s : ScopeNode)
      → ((x : String) → contains xs x ≡ true → contains ys x ≡ true)
      → AreChecked xs s
      → AreChecked ys s
  AreChecked-more xs ys s more h =
      All-map _ _ s.columns (λ c. IsChecked-more xs ys s.sources c more) h

  pub validate_columns_sound :
      (ss : List ScopeNode) (here : List String)
      → validate_columns aliases ss ≡ returned here
      → All (AreChecked here) ss
  unfolding validate_columns
  validate_columns_sound [] here h = tt
  validate_columns_sound (s ∷ ss) here h =
      let (xs, first, next) = bind_returned _ _ here h in
      let (ys, later, same) = bind_returned _ _ here next in
      let e : xs ++ ys ≡ here = ground arith in
      subst (λ r. All (AreChecked r) (s ∷ ss)) e
        (
          AreChecked-more xs (xs ++ ys) s (more_left xs ys)
              (validate_scope_sound s.sources s.columns xs first),
          All-map _ _ ss (λ r. AreChecked-more ys (xs ++ ys) r (more_right xs ys))
              (validate_columns_sound ss ys later),
        )
