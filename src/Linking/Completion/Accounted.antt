-- ===== src/Linking/Completion/Accounted.antt =====
-- How each pair of selected tables is accounted for: by a path, with its mark, or as missing.
use atlas_sql.Common.{
  Bool, false, true, if◌then◌else◌, leb, length, String, true, ◌&&◌, List, [], ◌∷◌, ◌++◌, map, ◌⊎◌,
  inl, inr, ◌≡◌, refl, ◌∙◌, arith, eq_iff, All, All-append, All-map, Among, Among-append_left,
  Among-append_right, ◌==◌, string_eq, Bool-cases, Option-cases,
}
use atlas_sql.Linking.Relations.{JoinPath}
use atlas_sql.Linking.JoinGraph.{JoinGraph}
use atlas_sql.Linking.Completion.{Completion, set_path, best_path, join_pair, join_row, join_all}

-- The pairs of tables of which the first stands before the second.
abbrev pub pairs_of : List String → List (String × String)
pairs_of [] = []
pairs_of (a ∷ rest) = map (λ b. (a, b)) rest ++ pairs_of rest

abbrev pub pairs : List ((String × String) × JoinPath) → List (String × String)
pairs ps = map (λ kp. kp.0) ps

abbrev pub IsAccounted : Completion → String × String → Type 0
IsAccounted c k = Among k (pairs c.paths) ⊎ Among k c.missing

same_pair_sound : (j k : String × String) → (j.0 == k.0 && j.1 == k.1) ≡ true → j ≡ k
same_pair_sound j k h = ground (arith, eq_iff j.0 k.0, eq_iff j.1 k.1)

set_path-has :
    (k : String × String) (p : JoinPath) (ps : List ((String × String) × JoinPath))
    → Among k (pairs (set_path k p ps))
unfolding set_path
set_path-has k p [] = inl refl
set_path-has k p ((j, q) ∷ ps) = elim (Bool-cases (j.0 == k.0 && j.1 == k.1)) [
  | inl same ↦ rw (same, set_path) (inl refl)
  | inr other ↦ rw (other, set_path) (inr (set_path-has k p ps))
]

set_path-keeps :
    (i k : String × String) (p : JoinPath) (ps : List ((String × String) × JoinPath))
    → Among i (pairs ps)
    → Among i (pairs (set_path k p ps))
unfolding set_path
set_path-keeps i k p [] h = absurd h
set_path-keeps i k p ((j, q) ∷ ps) h = elim (Bool-cases (j.0 == k.0 && j.1 == k.1)) [
  | inl same ↦ rw (same, set_path) (replaced (same_pair_sound j k same) h)
  | inr other ↦ rw (other, set_path) (kept (set_path-keeps i k p ps) h)
]
  where
    replaced : j ≡ k → Among i (j ∷ pairs ps) → Among i (k ∷ pairs ps)
    replaced e (inl f) = inl (f ∙ e)
    replaced e (inr m) = inr m

    kept :
        (Among i (pairs ps) → Among i (pairs (set_path k p ps)))
        → Among i (j ∷ pairs ps)
        → Among i (j ∷ pairs (set_path k p ps))
    kept later (inl f) = inl f
    kept later (inr m) = inr (later m)

pub pairs_of-few : (xs : List String) → leb (length xs) 1 ≡ true → pairs_of xs ≡ []
pairs_of-few [] h = refl
pairs_of-few (a ∷ []) h = refl
pairs_of-few (a ∷ b ∷ xs) h = absurd (ground arith)

pub set_path-All :
    (P : (String × String) × JoinPath → Type 0) (k : String × String) (p : JoinPath)
    (ps : List ((String × String) × JoinPath))
    → P (k, p)
    → All P ps
    → All P (set_path k p ps)
unfolding set_path
set_path-All P k p [] new h = (new, tt)
set_path-All P k p ((j, q) ∷ ps) new h = elim (Bool-cases (j.0 == k.0 && j.1 == k.1)) [
  | inl same ↦ rw (same, set_path) (new, h.1)
  | inr other ↦ rw (other, set_path) (h.0, set_path-All P k p ps new h.1)
]

-- A path that needs an aggregation before the join is reported for its pair.
abbrev pub IsMarked : List (String × String) → (String × String) × JoinPath → Type 0
IsMarked marks (k, p) = p.requires_pre_aggregation ≡ true → Among k marks

pub IsMarked-after :
    (k : String × String) (p : JoinPath) (ps : List ((String × String) × JoinPath))
    (marks : List (String × String))
    → All (IsMarked marks) ps
    → All
        (IsMarked (if p.requires_pre_aggregation then marks ++ k ∷ [] else marks))
        (set_path k p ps)
IsMarked-after k p ps marks h = marked_by p.requires_pre_aggregation refl
  where
    marked_by :
        (b : Bool)
        → p.requires_pre_aggregation ≡ b
        → All (IsMarked (if b then marks ++ k ∷ [] else marks)) (set_path k p ps)
    marked_by true on =
        set_path-All (IsMarked (marks ++ k ∷ [])) k p ps
          (λ e. Among-append_right k marks (k ∷ []) (inl refl))
          (All-map _ _ ps (λ kq m e. Among-append_left kq.0 marks (k ∷ []) (m e)) h)
    marked_by false off = set_path-All (IsMarked marks) k p ps (λ e. absurd (ground arith)) h

module _ (g : JoinGraph) (selected : List String) where
  join_pair-accounts :
      (a b : String) (c : Completion) → IsAccounted (join_pair g selected a b c) (a, b)
  unfolding join_pair
  join_pair-accounts a b c = elim (Option-cases (best_path g a b)) [
    | inl e ↦ rw (e, join_pair) (inr (Among-append_right (a, b) c.missing _ (inl refl)))
    | inr (p, e) ↦ rw (e, join_pair) (inl (set_path-has (a, b) p c.paths))
  ]

  join_pair-keeps :
      (a b : String) (c : Completion) (k : String × String)
      → IsAccounted c k
      → IsAccounted (join_pair g selected a b c) k
  unfolding join_pair
  join_pair-keeps a b c k (inl h) = elim (Option-cases (best_path g a b)) [
    | inl e ↦ rw (e, join_pair) (inl h)
    | inr (p, e) ↦ rw (e, join_pair) (inl (set_path-keeps k (a, b) p c.paths h))
  ]
  join_pair-keeps a b c k (inr h) = elim (Option-cases (best_path g a b)) [
    | inl e ↦ rw (e, join_pair) (inr (Among-append_left k c.missing _ h))
    | inr (p, e) ↦ rw (e, join_pair) (inr h)
  ]

  join_row-keeps :
      (a : String) (bs : List String) (c : Completion) (k : String × String)
      → IsAccounted c k
      → IsAccounted (join_row g selected a bs c) k
  unfolding join_row
  join_row-keeps a [] c k h = h
  join_row-keeps a (b ∷ bs) c k h = join_row-keeps a bs _ k (join_pair-keeps a b c k h)

  join_row-accounts :
      (a : String) (bs : List String) (c : Completion)
      → All (IsAccounted (join_row g selected a bs c)) (map (λ b. (a, b)) bs)
  unfolding join_row
  join_row-accounts a [] c = tt
  join_row-accounts a (b ∷ bs) c =
      (join_row-keeps a bs _ (a, b) (join_pair-accounts a b c), join_row-accounts a bs _)

  join_all-keeps :
      (srcs : List String) (c : Completion) (k : String × String)
      → IsAccounted c k
      → IsAccounted (join_all g selected srcs c) k
  unfolding join_all
  join_all-keeps [] c k h = h
  join_all-keeps (a ∷ rest) c k h = join_all-keeps rest _ k (join_row-keeps a rest c k h)

  pub join_all-accounts :
      (srcs : List String) (c : Completion)
      → All (IsAccounted (join_all g selected srcs c)) (pairs_of srcs)
  unfolding join_all
  join_all-accounts [] c = tt
  join_all-accounts (a ∷ rest) c =
      All-append _ (map (λ b. (a, b)) rest) (pairs_of rest)
        (All-map _ _ _ (λ k h. join_all-keeps rest _ k h) (join_row-accounts a rest c))
        (join_all-accounts rest _)
