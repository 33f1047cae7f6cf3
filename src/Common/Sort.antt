-- ===== src/Common/Sort.antt =====
-- sorted(xs): a stable sort by a Boolean order (insertion sort; the standard library's is stable
-- too, so the two agree on every list).
use Prim.Native.Nat.{suc}
use Prim.Native.String.{String, compare}
use mathlib.Core.Path.{◌≡◌, refl, ap, ◌∙◌, sym}
use mathlib.Core.Logic.{inl, inr}
use mathlib.Core.Bool.{Bool, true, false, ◌||◌}
use mathlib.Core.List.{List, [], ◌∷◌, map}
use native.Mathlib.Omega.{arith}
use text.Mathlib.Text.{is_le}
use atlas_sql.Common.Tests.{Bool-cases, if◌then◌else◌, Key, ◌==◌}
use atlas_sql.Common.Lists.{length, any, All, All-map, contains, IsDistinct, contains-map-any}

-- s <= t on texts, by code points
abbrev pub text_leb : String → String → Bool
text_leb s t = is_le (compare s t)

module _ {ℓ} {A : Type ℓ} (le : A → A → Bool) where
  unfoldable pub insert_sorted : A → List A → List A
  insert_sorted x [] = x ∷ []
  insert_sorted x (y ∷ ys) =
      let rest = insert_sorted x ys in if le x y then x ∷ y ∷ ys else y ∷ rest

  unfoldable pub sort : List A → List A
  unfolding insert_sorted
  sort [] = []
  sort (x ∷ xs) = insert_sorted x (sort xs)

  -- Each element stands before none that it exceeds.
  abbrev pub IsSorted : List A → Type 0
  IsSorted [] = Unit
  IsSorted (x ∷ xs) = All (λ y. le x y ≡ true) xs × IsSorted xs

  length-insert_sorted : (x : A) (xs : List A) → length (insert_sorted x xs) ≡ suc (length xs)
  unfolding insert_sorted
  length-insert_sorted x [] = refl
  length-insert_sorted x (y ∷ ys) = ground (arith, length-insert_sorted x ys)

  pub length-sort : (xs : List A) → length (sort xs) ≡ length xs
  unfolding sort
  length-sort [] = refl
  length-sort (x ∷ xs) = length-insert_sorted x (sort xs) ∙ ap suc (length-sort xs)

  any-insert_sorted :
      (p : A → Bool) (x : A) (xs : List A) → any p (insert_sorted x xs) ≡ (p x || any p xs)
  unfolding insert_sorted
  any-insert_sorted p x [] = refl
  any-insert_sorted p x (y ∷ ys) = ground (arith, any-insert_sorted p x ys)

  -- Sorting loses and adds no element.
  pub any-sort : (p : A → Bool) (xs : List A) → any p (sort xs) ≡ any p xs
  unfolding sort
  any-sort p [] = refl
  any-sort p (x ∷ xs) = any-insert_sorted p x (sort xs) ∙ ap (λ b. p x || b) (any-sort p xs)

  All-insert_sorted {κ} :
      (P : A → Type κ) (x : A) (xs : List A) → P x → All P xs → All P (insert_sorted x xs)
  unfolding insert_sorted
  All-insert_sorted P x [] px h = (px, tt)
  All-insert_sorted P x (y ∷ ys) px h = elim (Bool-cases (le x y)) [
    | inl e ↦ rw e (px, h)
    | inr e ↦ rw e (h.0, All-insert_sorted P x ys px h.1)
  ]

  pub All-sort {κ} : (P : A → Type κ) (xs : List A) → All P xs → All P (sort xs)
  unfolding sort
  All-sort P [] h = tt
  All-sort P (x ∷ xs) h = All-insert_sorted P x (sort xs) h.0 (All-sort P xs h.1)

  module _ {κ} {B : Type κ} ⦃key : Key B⦄ (f : A → B) where
    insert_sorted-IsDistinct :
        (x : A) (xs : List A)
        → contains (map f xs) (f x) ≡ false
        → IsDistinct (map f xs)
        → IsDistinct (map f (insert_sorted x xs))
    unfolding insert_sorted
    insert_sorted-IsDistinct x [] new h = (refl, tt)
    insert_sorted-IsDistinct x (y ∷ ys) new h = elim (Bool-cases (le x y)) [
      | inl e ↦ rw e (new, h)
      | inr e ↦ rw e (
        contains-map-any f (insert_sorted x ys) (f y)
            ∙ any-insert_sorted (λ z. f z == f y) x ys
            ∙ ground (
              arith,
              contains-map-any f ys (f y),
              key.same_iff (f x) (f y),
              key.same_iff (f y) (f x),
            ),
        insert_sorted-IsDistinct x ys (ground arith) h.1,
      )
    ]

    -- Sorting keeps what is distinct distinct.
    pub sort-IsDistinct : (xs : List A) → IsDistinct (map f xs) → IsDistinct (map f (sort xs))
    unfolding sort
    sort-IsDistinct [] h = tt
    sort-IsDistinct (x ∷ xs) h =
        insert_sorted-IsDistinct x (sort xs)
          (contains-map-any f (sort xs) (f x)
            ∙ any-sort (λ z. f z == f x) xs
            ∙ sym (contains-map-any f xs (f x))
            ∙ h.0)
          (sort-IsDistinct xs h.1)

  module _ (total : (x y : A) → le x y ≡ false → le y x ≡ true)
      (trans : (x y z : A) → le x y ≡ true → le y z ≡ true → le x z ≡ true) where
    insert_sorted-IsSorted : (x : A) (xs : List A) → IsSorted xs → IsSorted (insert_sorted x xs)
    unfolding insert_sorted
    insert_sorted-IsSorted x [] h = (tt, tt)
    insert_sorted-IsSorted x (y ∷ ys) h = elim (Bool-cases (le x y)) [
      | inl e ↦ rw e ((e, All-map _ _ ys (λ z k. trans x y z e k) h.0), h)
      | inr e ↦ rw e (
        All-insert_sorted (λ z. le y z ≡ true) x ys (total x y e) h.0,
        insert_sorted-IsSorted x ys h.1,
      )
    ]

    pub sort-IsSorted : (xs : List A) → IsSorted (sort xs)
    unfolding sort
    sort-IsSorted [] = tt
    sort-IsSorted (x ∷ xs) = insert_sorted-IsSorted x (sort xs) (sort-IsSorted xs)
