-- ===== src/Common/Rows.antt =====
-- What an ORM session does with the rows of a table: select one, update where, select the largest.
use Prim.Native.Nat.{ℕ, ◌≤◌, max}
use mathlib.Core.Path.{◌≡◌, refl}
use mathlib.Core.Bool.{Bool, true, false}
use mathlib.Core.List.{List, [], ◌∷◌, ◌++◌}
use mathlib.Core.Option
use mathlib.Core.Option.{Option, none, some}
use native.Mathlib.Omega.{arith}
use atlas_sql.Common.Tests.{if◌then◌else◌}
use atlas_sql.Common.Lists.{any, All, filter}

module _ {ℓ} {A : Type ℓ} where
  -- scalar_one_or_none: the conditions of the program select on unique columns.
  unfoldable pub find : (A → Bool) → List A → Option A
  find p [] = none
  find p (x ∷ xs) = if p x then some x else find p xs

  -- update(...).where(p).values(f)
  unfoldable pub update_where : (A → Bool) → (A → A) → List A → List A
  update_where p f [] = []
  update_where p f (x ∷ xs) = (if p x then f x else x) ∷ update_where p f xs

  -- The largest measure among the rows that satisfy p; 0 if there is none.
  unfoldable pub max_where : (A → Bool) → (A → ℕ) → List A → ℕ
  max_where p m [] = 0
  max_where p m (x ∷ xs) = let rest = max_where p m xs in if p x then max (m x) rest else rest

  pub find_sound : (p : A → Bool) (xs : List A) (r : A) → find p xs ≡ some r → p r ≡ true
  unfolding find
  find_sound p [] r h = cc
  find_sound p (x ∷ xs) r h = ground (arith, find_sound p xs r)

  pub any-append : (p : A → Bool) (xs ys : List A) → any p xs ≡ true → any p (xs ++ ys) ≡ true
  any-append p [] ys h = cc
  any-append p (x ∷ xs) ys h = ground (arith, any-append p xs ys)

  pub any-append_right : (p : A → Bool) (xs ys : List A) → any p ys ≡ true → any p (xs ++ ys) ≡ true
  any-append_right p [] ys h = h
  any-append_right p (x ∷ xs) ys h = ground (arith, any-append_right p xs ys)

  pub any-append_last :
      (p : A → Bool) (xs : List A) (y : A) → p y ≡ true → any p (xs ++ y ∷ []) ≡ true
  any-append_last p [] y h = ground arith
  any-append_last p (x ∷ xs) y h = ground (arith, any-append_last p xs y)

  pub All-update_where {κ} :
      (P : A → Type κ) (p : A → Bool) (f : A → A) (xs : List A)
      → ((x : A) → p x ≡ true → P x → P (f x))
      → All P xs
      → All P (update_where p f xs)
  unfolding update_where
  All-update_where P p f [] k h = tt
  All-update_where P p f (x ∷ xs) k h = (head (p x) refl, All-update_where P p f xs k h.1)
    where
      head : (b : Bool) → p x ≡ b → P (if b then f x else x)
      head true e = k x e h.0
      head false e = h.0

  -- A row that p and a further test q select has at most the largest measure.
  pub le-max_where :
      (p q : A → Bool) (m : A → ℕ) (n : ℕ) (xs : List A)
      → ((x : A) → q x ≡ true → (p x ≡ true) × (m x ≡ n))
      → any q xs ≡ true
      → n ≤ max_where p m xs
  unfolding max_where
  le-max_where p q m n [] k h = cc
  le-max_where p q m n (x ∷ xs) k h = ground (arith, k x, le-max_where p q m n xs k)

  -- An update that keeps the key of a row is seen by a select on that key.
  pub find-update_where :
      (p q : A → Bool) (f : A → A) (xs : List A)
      → ((x : A) → p (f x) ≡ p x)
      → find p (update_where q f xs) ≡ Option.map (λ x. if q x then f x else x) (find p xs)
  unfolding find update_where
  find-update_where p q f [] keep = refl
  find-update_where p q f (x ∷ xs) keep = ground (arith, keep x, find-update_where p q f xs keep)

  -- An update that touches no row selected by p keeps that selection.
  pub filter-update_where_other :
      (p q : A → Bool) (f : A → A) (xs : List A)
      → ((x : A) → q x ≡ true → (p x ≡ false) × (p (f x) ≡ false))
      → filter p (update_where q f xs) ≡ filter p xs
  unfolding update_where
  filter-update_where_other p q f [] other = refl
  filter-update_where_other p q f (x ∷ xs) other =
      ground (arith, other x, filter-update_where_other p q f xs other)

  -- After an update that takes rows out of the selection, the selection is empty.
  pub filter-update_where_self :
      (p : A → Bool) (f : A → A) (xs : List A)
      → ((x : A) → p x ≡ true → p (f x) ≡ false)
      → filter p (update_where p f xs) ≡ []
  unfolding update_where
  filter-update_where_self p f [] out = refl
  filter-update_where_self p f (x ∷ xs) out =
      ground (arith, out x, filter-update_where_self p f xs out)

  pub filter-append :
      (p : A → Bool) (xs ys : List A) → filter p (xs ++ ys) ≡ filter p xs ++ filter p ys
  filter-append p [] ys = refl
  filter-append p (x ∷ xs) ys = ground (arith, filter-append p xs ys)
