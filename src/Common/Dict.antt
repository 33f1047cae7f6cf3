-- ===== src/Common/Dict.antt =====
-- Python's dict with text keys, in the order of insertion, as an association list.
use mathlib.Core.Logic.{inl, inr}
use atlas_sql.Common.Lists.{contains, All, IsDistinct}
use Prim.Native.String.{String}
use mathlib.Core.Path.{◌≡◌, refl, subst, ◌∙◌}
use mathlib.Core.Bool.{Bool, true, false, ◌||◌}
use mathlib.Core.List.{List, [], ◌∷◌, map}
use mathlib.Core.Option.{Option, none, some}
use native.Mathlib.Omega.{arith}
use text.Mathlib.TextEquality.{eq_iff}
use atlas_sql.Common.Tests.{◌==◌, string_eq, if◌then◌else◌, Bool-cases}

module _ {ℓ} {V : Type ℓ} where
  -- d.get(k)
  unfoldable pub lookup : String → List (String × V) → Option V
  lookup k [] = none
  lookup k ((j, v) ∷ d) = if j == k then some v else lookup k d

  -- d[k] = v
  unfoldable pub insert : String → V → List (String × V) → List (String × V)
  insert k v [] = (k, v) ∷ []
  insert k v ((j, w) ∷ d) = if j == k then (k, v) ∷ d else (j, w) ∷ insert k v d

  pub lookup-insert :
      (k j : String) (v : V) (d : List (String × V))
      → lookup j (insert k v d) ≡ (if k == j then some v else lookup j d)
  unfolding lookup insert
  lookup-insert k j v [] = refl
  lookup-insert k j v ((i, w) ∷ d) =
      ground (arith, eq_iff k j, eq_iff i k, eq_iff i j, lookup-insert k j v d)

  -- k in d
  abbrev pub has_key : String → List (String × V) → Bool
  has_key k d = elim (lookup k d) [ none ↦ false | some v ↦ true ]

  abbrev pub keys : List (String × V) → List String
  keys d = map (λ e. e.0) d

  pub keys-insert :
      (k x : String) (v : V) (d : List (String × V))
      → contains (keys (insert k v d)) x ≡ (k == x || contains (keys d) x)
  unfolding insert
  keys-insert k x v [] = refl
  keys-insert k x v ((j, w) ∷ d) = ground (arith, keys-insert k x v d, eq_iff j k)

  -- A dict has every key once.
  pub keys-insert-IsDistinct :
      (k : String) (v : V) (d : List (String × V))
      → IsDistinct (keys d)
      → IsDistinct (keys (insert k v d))
  unfolding insert
  keys-insert-IsDistinct k v [] h = (refl, tt)
  keys-insert-IsDistinct k v ((j, w) ∷ d) h = elim (Bool-cases (j == k)) [
    | inl e ↦ rw e (subst (λ i. contains (keys d) i ≡ false) ((eq_iff j k).0 e) h.0, h.1)
    | inr e ↦ rw e (
      keys-insert k j v d ∙ ground (arith, eq_iff k j, eq_iff j k),
      keys-insert-IsDistinct k v d h.1,
    )
  ]

  pub All-insert {κ} :
      (P : String × V → Type κ) (k : String) (v : V) (d : List (String × V))
      → P (k, v)
      → All P d
      → All P (insert k v d)
  unfolding insert
  All-insert P k v [] p h = (p, tt)
  All-insert P k v ((j, w) ∷ d) p h = elim (Bool-cases (j == k)) [
    | inl e ↦ rw e (p, h.1)
    | inr e ↦ rw e (h.0, All-insert P k v d p h.1)
  ]

  pub has_key-keys : (k : String) (d : List (String × V)) → has_key k d ≡ contains (keys d) k
  unfolding lookup
  has_key-keys k [] = refl
  has_key-keys k ((j, w) ∷ d) = ground (arith, has_key-keys k d)
