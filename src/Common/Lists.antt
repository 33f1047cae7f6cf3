-- ===== src/Common/Lists.antt =====
-- Lists measured and cut by native numbers, and the tests that Python makes of a list.
use Prim.Native.Nat.{ℕ, zero, suc, ◌+◌, ◌≤◌, min}
use mathlib.Core.Logic.{◌⊎◌, inl, inr}
use mathlib.Core.Path.{◌≡◌, refl, sym, ap, ◌∙◌, subst}
use mathlib.Core.Bool.{Bool, true, false, not, ◌&&◌, ◌||◌}
use mathlib.Core.List.{List, [], ◌∷◌, ◌++◌, map}
use mathlib.Core.Option.{Option, none, some}
use native.Mathlib.Omega.{arith}
use atlas_sql.Common.Tests.{Key, ◌==◌, if◌then◌else◌, Option-cases, Bool-cases}

module _ {ℓ} {A : Type ℓ} where
  abbrev pub length : List A → ℕ
  length [] = 0
  length (x ∷ xs) = suc (length xs)

  -- xs[:n]
  abbrev pub take : ℕ → List A → List A
  take zero xs = []
  take (suc n) [] = []
  take (suc n) (x ∷ xs) = x ∷ take n xs

  -- xs[n:]
  abbrev pub drop : ℕ → List A → List A
  drop zero xs = xs
  drop (suc n) [] = []
  drop (suc n) (x ∷ xs) = drop n xs

  abbrev pub head? : List A → Option A
  head? [] = none
  head? (x ∷ xs) = some x

  abbrev pub is_empty : List A → Bool
  is_empty [] = true
  is_empty (x ∷ xs) = false

  -- [x for x in xs if p(x)]
  abbrev pub filter : (A → Bool) → List A → List A
  filter p [] = []
  filter p (x ∷ xs) = let rest = filter p xs in if p x then x ∷ rest else rest

  -- any(p(x) for x in xs), all(p(x) for x in xs)
  abbrev pub any : (A → Bool) → List A → Bool
  any p [] = false
  any p (x ∷ xs) = p x || any p xs

  abbrev pub all : (A → Bool) → List A → Bool
  all p [] = true
  all p (x ∷ xs) = p x && all p xs

  -- for x in xs: out.extend(f(x))
  abbrev pub flat_map {κ} : {B : Type κ} → (A → List B) → List A → List B
  flat_map f [] = []
  flat_map f (x ∷ xs) = f x ++ flat_map f xs

  -- [f(x) for x in xs], where f may raise
  abbrev pub traverse {κ} : {B : Type κ} → (A → Option B) → List A → Option (List B)
  traverse f [] = some []
  traverse f (x ∷ xs) = elim (f x) [
    | none ↦ none
    | some y ↦ elim (traverse f xs) [ none ↦ none | some ys ↦ some (y ∷ ys) ]
  ]

  -- Every element satisfies P.
  abbrev pub All {κ} : (A → Type κ) → List A → Type κ
  All P [] = Unit
  All P (x ∷ xs) = P x × All P xs

module _ {ℓ} {A : Type ℓ} where
  pub List-cases : (xs : List A) → (xs ≡ []) ⊎ ((x : A) × (rest : List A) × (xs ≡ x ∷ rest))
  List-cases [] = inl refl
  List-cases (x ∷ xs) = inr (x, xs, refl)

  pub length-append : (xs ys : List A) → length (xs ++ ys) ≡ length xs + length ys
  length-append [] ys = omega arith
  length-append (x ∷ xs) ys = omega (arith, length-append xs ys)

  pub take-drop : (n : ℕ) (xs : List A) → take n xs ++ drop n xs ≡ xs
  take-drop zero xs = refl
  take-drop (suc n) [] = refl
  take-drop (suc n) (x ∷ xs) = ap (λ ys. x ∷ ys) (take-drop n xs)

  pub length-take : (n : ℕ) (xs : List A) → length (take n xs) ≡ min n (length xs)
  length-take zero xs = omega arith
  length-take (suc n) [] = omega arith
  length-take (suc n) (x ∷ xs) = omega (arith, length-take n xs)

  pub length-filter-le : (p : A → Bool) (xs : List A) → length (filter p xs) ≤ length xs
  length-filter-le p [] = omega arith
  length-filter-le p (x ∷ xs) = ground (arith, length-filter-le p xs)

  pub length-map {κ} : {B : Type κ} (f : A → B) (xs : List A) → length (map f xs) ≡ length xs
  length-map f [] = refl
  length-map f (x ∷ xs) = ap suc (length-map f xs)

  pub All-append {κ} : (P : A → Type κ) (xs ys : List A) → All P xs → All P ys → All P (xs ++ ys)
  All-append P [] ys h k = k
  All-append P (x ∷ xs) ys h k = (h.0, All-append P xs ys h.1 k)

  pub All-take {κ} : (P : A → Type κ) (n : ℕ) (xs : List A) → All P xs → All P (take n xs)
  All-take P zero xs h = tt
  All-take P (suc n) [] h = tt
  All-take P (suc n) (x ∷ xs) h = (h.0, All-take P n xs h.1)

  pub All-mapped {κ μ} :
      {B : Type κ} (f : A → B) (P : B → Type μ) (xs : List A)
      → All (λ x. P (f x)) xs
      → All P (map f xs)
  All-mapped f P [] h = tt
  All-mapped f P (x ∷ xs) h = (h.0, All-mapped f P xs h.1)

  pub All-both {κ μ} :
      (P : A → Type κ) (Q : A → Type μ) (xs : List A)
      → All P xs
      → All Q xs
      → All (λ x. P x × Q x) xs
  All-both P Q [] h k = tt
  All-both P Q (x ∷ xs) h k = ((h.0, k.0), All-both P Q xs h.1 k.1)

  pub All-map {κ μ} :
      (P : A → Type κ) (Q : A → Type μ) (xs : List A) → ((x : A) → P x → Q x) → All P xs → All Q xs
  All-map P Q [] f h = tt
  All-map P Q (x ∷ xs) f h = (f x h.0, All-map P Q xs f h.1)

module _ {ℓ} {A : Type ℓ} ⦃key : Key A⦄ where
  -- a in xs
  abbrev pub contains : List A → A → Bool
  contains [] a = false
  contains (x ∷ xs) a = x == a || contains xs a

module _ {ℓ} {A : Type ℓ} ⦃key : Key A⦄ where
  -- The distinct elements of xs, each at its first place (list(dict.fromkeys(xs)), or a set).
  abbrev pub dedup : List A → List A
  dedup [] = []
  dedup (x ∷ xs) = x ∷ filter (λ y. not (y == x)) (dedup xs)

  -- `a in xs`, as a search.
  pub contains-any : (xs : List A) (a : A) → contains xs a ≡ any (λ x. x == a) xs
  contains-any [] a = refl
  contains-any (x ∷ xs) a = ap (λ b. x == a || b) (contains-any xs a)

  pub contains-map-any {κ} :
      {B : Type κ} (f : B → A) (xs : List B) (a : A)
      → contains (map f xs) a ≡ any (λ x. f x == a) xs
  contains-map-any f [] a = refl
  contains-map-any f (x ∷ xs) a = ap (λ b. f x == a || b) (contains-map-any f xs a)

  pub contains-append :
      (xs ys : List A) (a : A) → contains (xs ++ ys) a ≡ (contains xs a || contains ys a)
  contains-append [] ys a = refl
  contains-append (x ∷ xs) ys a = ground (arith, contains-append xs ys a)

  contains-remove :
      (x a : A) (xs : List A)
      → contains (filter (λ y. not (y == x)) xs) a ≡ (contains xs a && not (a == x))
  contains-remove x a [] = refl
  contains-remove x a (y ∷ ys) =
      ground (arith, contains-remove x a ys, key.same_iff y x, key.same_iff y a, key.same_iff a x)

  pub contains-dedup : (xs : List A) (a : A) → contains (dedup xs) a ≡ contains xs a
  contains-dedup [] a = refl
  contains-dedup (x ∷ xs) a = ground (
    arith,
    contains-remove x a (dedup xs),
    contains-dedup xs a,
    key.same_iff x a,
    key.same_iff a x,
  )

  -- Each element stands at one place only.
  abbrev pub IsDistinct : List A → Type 0
  IsDistinct [] = Unit
  IsDistinct (x ∷ xs) = (contains xs x ≡ false) × IsDistinct xs

  contains-not-filtered :
      (x : A) (xs : List A)
      → length (filter (λ y. not (y == x)) xs) ≡ length xs
      → contains xs x ≡ false
  contains-not-filtered x [] h = refl
  contains-not-filtered x (y ∷ ys) h =
      ground (arith, contains-not-filtered x ys, length-filter-le (λ z. not (z == x)) ys)

  length-dedup-le : (xs : List A) → length (dedup xs) ≤ length xs
  length-dedup-le [] = omega arith
  length-dedup-le (x ∷ xs) =
      omega (arith, length-dedup-le xs, length-filter-le (λ y. not (y == x)) (dedup xs))

  -- len(set(xs)) == len(xs)
  pub length-dedup-IsDistinct : (xs : List A) → length (dedup xs) ≡ length xs → IsDistinct xs
  length-dedup-IsDistinct [] h = tt
  length-dedup-IsDistinct (x ∷ xs) h =
      let a = length-dedup-le xs in
      let b = length-filter-le (λ y. not (y == x)) (dedup xs) in
      let same : length (dedup xs) ≡ length xs = omega arith in
      let kept : length (filter (λ y. not (y == x)) (dedup xs)) ≡ length (dedup xs) = omega arith in
      (
        sym (contains-dedup xs x) ∙ contains-not-filtered x (dedup xs) kept,
        length-dedup-IsDistinct xs same,
      )

pub append_empty {ℓ} : {A : Type ℓ} (xs ys : List A) → xs ++ ys ≡ [] → (xs ≡ []) × (ys ≡ [])
append_empty [] ys h = (refl, h)
append_empty (x ∷ xs) ys h = absurd (ground arith)

pub flat_map_empty {ℓ κ} :
    {A : Type ℓ} {B : Type κ} (f : A → List B) (xs : List A)
    → flat_map f xs ≡ []
    → All (λ x. f x ≡ []) xs
flat_map_empty f [] h = tt
flat_map_empty f (x ∷ xs) h =
    let (a, b) = append_empty (f x) (flat_map f xs) h in (a, flat_map_empty f xs b)

pub traverse_cons {ℓ κ} :
    {A : Type ℓ} {B : Type κ} (f : A → Option B) (x : A) (xs : List A) (ys : List B)
    → traverse f (x ∷ xs) ≡ some ys
    → (z : B) × (zs : List B) × (f x ≡ some z) × (traverse f xs ≡ some zs) × (ys ≡ z ∷ zs)
traverse_cons f x xs ys h = elim (Option-cases (f x)) [
  | inl e ↦ absurd (ground arith)
  | inr (z, e) ↦ elim (Option-cases (traverse f xs)) [
    | inl q ↦ absurd (ground arith)
    | inr (zs, q) ↦ (z, zs, e, q, ground arith)
  ]
]

pub All-traverse {ℓ κ μ ν} :
    {A : Type ℓ} {B : Type κ} (f : A → Option B) (P : A → Type μ) (Q : B → Type ν) (xs : List A)
    (ys : List B)
    → ((x : A) (y : B) → f x ≡ some y → P x → Q y)
    → All P xs
    → traverse f xs ≡ some ys
    → All Q ys
All-traverse f P Q [] ys g h e = let same : [] ≡ ys = ground arith in subst (All Q) same tt
All-traverse f P Q (x ∷ xs) ys g h e =
    let (z, zs, first, rest, same) = traverse_cons f x xs ys e in
    subst (All Q) (sym same) (g x z first h.0, All-traverse f P Q xs zs g h.1 rest)

pub All-flat {ℓ κ} :
    {A : Type ℓ} (P : A → Type κ) (xss : List (List A))
    → All (All P) xss
    → All P (flat_map (λ xs. xs) xss)
All-flat P [] h = tt
All-flat P (xs ∷ xss) h = All-append P xs (flat_map (λ ys. ys) xss) h.0 (All-flat P xss h.1)

-- The element stands in the list, at a place.
abbrev pub Among : {A : Type 0} → A → List A → Type 0
Among x [] = ⊥
Among x (y ∷ ys) = (x ≡ y) ⊎ Among x ys

pub Among-append_left : {A : Type 0} (x : A) (xs ys : List A) → Among x xs → Among x (xs ++ ys)
Among-append_left x [] ys h = absurd h
Among-append_left x (z ∷ xs) ys (inl e) = inl e
Among-append_left x (z ∷ xs) ys (inr h) = inr (Among-append_left x xs ys h)

pub Among-append_right : {A : Type 0} (x : A) (xs ys : List A) → Among x ys → Among x (xs ++ ys)
Among-append_right x [] ys h = h
Among-append_right x (z ∷ xs) ys h = inr (Among-append_right x xs ys h)

pub any-find :
    {A : Type 0} (p : A → Bool) (xs : List A)
    → any p xs ≡ true
    → (x : A) × Among x xs × (p x ≡ true)
any-find p [] h = absurd (ground arith)
any-find p (x ∷ xs) h = elim (Bool-cases (p x)) [
  | inl e ↦ (x, inl refl, e)
  | inr e ↦ let (y, m, k) = any-find p xs (ground arith) in (y, inr m, k)
]

pub any-Among :
    {A : Type 0} (p : A → Bool) (xs : List A) (x : A) → Among x xs → p x ≡ true → any p xs ≡ true
any-Among p [] x m h = absurd m
any-Among p (y ∷ ys) x (inl e) h = ground (arith, ap p e)
any-Among p (y ∷ ys) x (inr m) h = ground (arith, any-Among p ys x m h)
