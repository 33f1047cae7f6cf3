-- ===== src/Query/Context/Trimming.antt =====
-- What the trimming of the columns and the examples leaves.
use atlas_sql.Common.{
  zero, ℕ, ◌+◌, ◌*◌, ◌-◌, ◌≤◌, Bool, true, false, not, ◌||◌, List, [], ◌∷◌, ◌++◌, filter, length,
  ltb, any, All, ◌≡◌, ◌⊎◌, inl, inr, refl, ◌∙◌, ap, arith, Bool-cases, length-append, filter-append,
  suc, sym, subst, List-cases,
}
use atlas_sql.Query.Context.{
  keep_ordinary, trim_columns, t_column, is_protected, VerifiedExample, drop_last, Fixed,
  trim_examples, estimate_tokens, fixed_tokens,
}
use atlas_sql.Search.Candidates.{Payload}

module _ {ℓ} {A : Type ℓ} (p : A → Bool) where
  pub All-filter : (xs : List A) → All (λ x. p x ≡ true) (filter p xs)
  All-filter [] = tt
  All-filter (x ∷ xs) = elim (Bool-cases (p x)) [
    | inl e ↦ rw e (e, All-filter xs)
    | inr e ↦ rw e (All-filter xs)
  ]

  filter-twice : (xs : List A) → filter p (filter p xs) ≡ filter p xs
  filter-twice [] = refl
  filter-twice (x ∷ xs) = elim (Bool-cases (p x)) [
    | inl e ↦ rw (e, e) (ap (λ ys. x ∷ ys) (filter-twice xs))
    | inr e ↦ rw e (filter-twice xs)
  ]

  length-filter-split :
      (xs : List A) → length (filter p xs) + length (filter (λ x. not (p x)) xs) ≡ length xs
  length-filter-split [] = refl
  length-filter-split (x ∷ xs) = ground (arith, length-filter-split xs)

  any-filter : (q : A → Bool) (xs : List A) → any q (filter p xs) ≡ true → any q xs ≡ true
  any-filter q [] h = h
  any-filter q (x ∷ xs) h = ground (arith, any-filter q xs)

  filter-none : (xs : List A) → All (λ x. p x ≡ false) xs → filter p xs ≡ []
  filter-none [] h = refl
  filter-none (x ∷ xs) h = rw h.0 (filter-none xs h.1)

-- The columns that are kept use no more than what remains, unless there are none.
keep_ordinary-within :
    (remaining used : ℕ) (cs : List Payload)
    → (keep_ordinary remaining used cs ≡ [])
      ⊎ (used + length (keep_ordinary remaining used cs) * t_column ≤ remaining)
unfolding keep_ordinary
keep_ordinary-within remaining used [] = inl refl
keep_ordinary-within remaining used (c ∷ cs) = elim (Bool-cases (ltb remaining (used + t_column))) [
  | inl e ↦ rw e (inl refl)
  | inr e ↦ rw e (elim (keep_ordinary-within remaining (used + t_column) cs) [
    | inl none_left ↦ rw none_left (inr (ground arith))
    | inr within ↦ inr (ground arith)
  ])
]

length-keep_ordinary-le :
    (remaining used : ℕ) (cs : List Payload) → length (keep_ordinary remaining used cs) ≤ length cs
unfolding keep_ordinary
length-keep_ordinary-le remaining used [] = omega arith
length-keep_ordinary-le remaining used (c ∷ cs) =
    ground (arith, length-keep_ordinary-le remaining (used + t_column) cs)

All-keep_ordinary {ℓ} :
    (P : Payload → Type ℓ) (remaining used : ℕ) (cs : List Payload)
    → All P cs
    → All P (keep_ordinary remaining used cs)
unfolding keep_ordinary
All-keep_ordinary P remaining used [] h = tt
All-keep_ordinary P remaining used (c ∷ cs) h =
    elim (Bool-cases (ltb remaining (used + t_column))) [
      | inl e ↦ rw e tt
      | inr e ↦ rw e (h.0, All-keep_ordinary P remaining (used + t_column) cs h.1)
    ]

any-keep_ordinary :
    (q : Payload → Bool) (remaining used : ℕ) (cs : List Payload)
    → any q (keep_ordinary remaining used cs) ≡ true
    → any q cs ≡ true
unfolding keep_ordinary
any-keep_ordinary q remaining used [] h = h
any-keep_ordinary q remaining used (c ∷ cs) h =
    ground (arith, any-keep_ordinary q remaining (used + t_column) cs)

pub append_nothing {ℓ} : {A : Type ℓ} (xs : List A) → xs ++ [] ≡ xs
append_nothing [] = refl
append_nothing (x ∷ xs) = ap (λ ys. x ∷ ys) (append_nothing xs)

-- What the trimming of columns leaves.
pub record AreKept (columns kept : List Payload) : Type 0 where
  pub protected_kept : filter is_protected kept ≡ filter is_protected columns
  pub shorter : length kept ≤ length columns
  pub taken : (q : Payload → Bool) → any q kept ≡ true → any q columns ≡ true

any-append_split :
    (q : Payload → Bool) (xs ys : List Payload)
    → any q (xs ++ ys) ≡ true
    → (any q xs || any q ys) ≡ true
any-append_split q [] ys h = h
any-append_split q (x ∷ xs) ys h = ground (arith, any-append_split q xs ys)

All-not_protected :
    (columns : List Payload)
    → All (λ c. is_protected c ≡ false) (filter (λ c. not (is_protected c)) columns)
All-not_protected [] = tt
All-not_protected (c ∷ columns) = elim (Bool-cases (is_protected c)) [
  | inl e ↦ rw e (All-not_protected columns)
  | inr e ↦ rw e (e, All-not_protected columns)
]

pub trim_columns-AreKept :
    (columns : List Payload) (col_budget : ℕ) → AreKept columns (trim_columns columns col_budget)
unfolding trim_columns
trim_columns-AreKept columns col_budget =
    let kept = filter is_protected columns in
    let ordinary = filter (λ (c : Payload). not (is_protected c)) columns in
    let remaining = col_budget - length kept * t_column in
    record {
      protected_kept =
          filter-append is_protected kept (keep_ordinary remaining 0 ordinary)
          ∙ rw
              (
                filter-twice is_protected columns,
                filter-none is_protected (keep_ordinary remaining 0 ordinary) (
                    All-keep_ordinary (λ c. is_protected c ≡ false) remaining 0 ordinary
                      (All-not_protected columns)),
              )
              (append_nothing kept);
      shorter = omega (
        arith,
        length-append kept (keep_ordinary remaining 0 ordinary),
        length-keep_ordinary-le remaining 0 ordinary,
        length-filter-split is_protected columns,
      );
      taken = λ q h. elim (Bool-cases (any q kept)) [
        | inl e ↦ any-filter is_protected q columns e
        | inr e ↦
            any-filter (λ c. not (is_protected c)) q columns
              (any-keep_ordinary q remaining 0 ordinary
                (ground (arith, any-append_split q kept (keep_ordinary remaining 0 ordinary))))
      ];
    }

-- Popping the last of the examples leaves the first ones.
abbrev pub IsPrefix : List VerifiedExample → List VerifiedExample → Type 0
IsPrefix xs ys = (rest : List VerifiedExample) × (ys ≡ xs ++ rest)

drop_last-IsPrefix : (es : List VerifiedExample) → IsPrefix (drop_last es) es
drop_last-IsPrefix [] = ([], refl)
drop_last-IsPrefix (e ∷ []) = (e ∷ [], refl)
drop_last-IsPrefix (e ∷ d ∷ es) =
    let (rest, same) = drop_last-IsPrefix (d ∷ es) in (rest, ap (λ l. e ∷ l) same)

pub append_twice {ℓ} : {A : Type ℓ} (xs ys zs : List A) → (xs ++ ys) ++ zs ≡ xs ++ (ys ++ zs)
append_twice [] ys zs = refl
append_twice (x ∷ xs) ys zs = ap (λ l. x ∷ l) (append_twice xs ys zs)

IsPrefix-trans :
    (xs ys zs : List VerifiedExample) → IsPrefix xs ys → IsPrefix ys zs → IsPrefix xs zs
IsPrefix-trans xs ys zs h k = (h.0 ++ k.0, k.1 ∙ ap (λ l. l ++ k.0) h.1 ∙ append_twice xs h.0 k.0)

length-drop_last :
    (e : VerifiedExample) (es : List VerifiedExample) → length (drop_last (e ∷ es)) ≡ length es
length-drop_last e [] = refl
length-drop_last e (d ∷ es) = ap suc (length-drop_last d es)

-- What the loop over the examples leaves.
pub record AreTrimmed (f : Fixed) (columns : List Payload) (budget : ℕ)
    (examples kept : List VerifiedExample) : Type 0 where
  pub first : IsPrefix kept examples
  pub enough : (kept ≡ []) ⊎ (estimate_tokens f columns kept ≤ budget)

pub trim_examples-AreTrimmed :
    (n : ℕ) (f : Fixed) (columns : List Payload) (budget : ℕ) (examples : List VerifiedExample)
    → length examples ≤ n
    → AreTrimmed f columns budget examples (trim_examples n f columns budget examples)
unfolding trim_examples
trim_examples-AreTrimmed zero f columns budget [] h = record {
  first = ([], refl);
  enough = inl refl;
}
trim_examples-AreTrimmed zero f columns budget (e ∷ es) h = absurd (omega arith)
trim_examples-AreTrimmed (suc n) f columns budget [] h = record {
  first = ([], refl);
  enough = inl refl;
}
trim_examples-AreTrimmed (suc n) f columns budget (e ∷ es) h =
    elim (Bool-cases (ltb budget (estimate_tokens f columns (e ∷ es)))) [
      | inl over ↦
          let later =
            trim_examples-AreTrimmed n f columns budget (drop_last (e ∷ es))
              (omega (arith, length-drop_last e es)) in
          rw over (record {
            first = IsPrefix-trans _ _ _ later.first (drop_last-IsPrefix (e ∷ es));
            enough = later.enough;
          })
      | inr fits ↦
          rw fits
            (record { first = ([], sym (append_nothing (e ∷ es))); enough = inr (ground arith) })
    ]

-- Without examples, the columns fit into what remains, or all of them are protected.
pub trim_columns-within :
    (f : Fixed) (columns : List Payload) (budget m : ℕ)
    → m ≤ budget - fixed_tokens f
    → (estimate_tokens f (trim_columns columns m) [] ≤ budget)
      ⊎ All (λ c. is_protected c ≡ true) (trim_columns columns m)
unfolding trim_columns
trim_columns-within f columns budget m h =
    let kept = filter is_protected columns in
    let ordinary = filter (λ (c : Payload). not (is_protected c)) columns in
    let remaining = m - length kept * t_column in
    let rest = keep_ordinary remaining 0 ordinary in
    let only_protected : rest ≡ [] → All (λ c. is_protected c ≡ true) (kept ++ rest) = λ e.
      subst (λ l. All (λ c. is_protected c ≡ true) (kept ++ l)) (sym e)
        (subst (All (λ c. is_protected c ≡ true)) (sym (append_nothing kept))
          (All-filter is_protected columns)) in
    elim (keep_ordinary-within remaining 0 ordinary) [
      | inl e ↦ inr (only_protected e)
      | inr within ↦ elim (List-cases rest) [
        | inl e ↦ inr (only_protected e)
        | inr (c, cs, e) ↦
            let many : length rest ≡ suc (length cs) = ap length e in
            inl (omega (arith, h, within, many, length-append kept rest))
      ]
    ]
