-- ===== src/Linking/Completion/Covering.antt =====
-- What complete_schema promises of the paths and of the tables that it returns.
use atlas_sql.Common.{
  String, true, not, ◌&&◌, ◌||◌, none, some, List, [], ◌∷◌, ◌++◌, ◌⊎◌, inl, inr, ◌≡◌, refl, sym, ap,
  ◌∙◌, subst, arith, eq_iff, All, All-append, All-map, any-sort, length, head?, filter, contains,
  contains-any, contains-append, contains-dedup, dedup, sort, text_leb, leb, ◌==◌, string_eq,
  Bool-cases, Option-cases, Among,
}
use atlas_sql.Linking.Relations.{JoinPath}
use atlas_sql.Linking.JoinGraph.{JoinGraph, find_paths}
use atlas_sql.Linking.JoinGraph.Soundness.{IsJoinPath, find_paths_sound}
use atlas_sql.Linking.Completion.Accounted.{
  set_path-All, IsMarked, IsMarked-after, pairs, pairs_of, pairs_of-few, IsAccounted,
  join_all-accounts,
}
use atlas_sql.Linking.Completion.{
  Completion, JoinGraphResult, default_depth, best_path, bridges, join_pair, join_row, join_all,
  nothing_joined, complete_with, complete_schema,
}

-- The path joins the two tables, in one direction or in the other.
abbrev pub Joins : JoinGraph → (String × String) × JoinPath → Type 0
Joins g ((a, b), p) = IsJoinPath g a b default_depth p ⊎ IsJoinPath g b a default_depth p

-- No path joins the two tables.
abbrev pub Unjoined : JoinGraph → String × String → Type 0
Unjoined g (a, b) = (find_paths g a b default_depth ≡ []) × (find_paths g b a default_depth ≡ [])

abbrev pub Covers : List String → (String × String) × JoinPath → Type 0
Covers tables (k, p) = All (λ t. contains tables t ≡ true) p.tables

head?-All : {A : Type 0} (P : A → Type 0) (xs : List A) (x : A) → All P xs → head? xs ≡ some x → P x
head?-All P [] x h e = absurd (ground arith)
head?-All P (y ∷ xs) x h e = subst P (ground arith) h.0

head?-none : {A : Type 0} (xs : List A) → head? xs ≡ none → xs ≡ []
head?-none [] e = refl
head?-none (x ∷ xs) e = absurd (ground arith)

All-contains :
    (xs ys : List String)
    → ((t : String) → contains xs t ≡ true → contains ys t ≡ true)
    → All (λ t. contains ys t ≡ true) xs
All-contains [] ys h = tt
All-contains (x ∷ xs) ys h =
    (h x (ground (arith, eq_iff x x)), All-contains xs ys (λ t m. h t (ground arith)))

module _ (g : JoinGraph) (selected : List String) where
  abbrev covered : Completion → List String
  covered c = selected ++ c.bridge_tables

  record IsJoined (c : Completion) : Type 0 where
    joins : All (Joins g) c.paths
    covers : All (Covers (covered c)) c.paths
    unjoined : All (Unjoined g) c.missing
    marked : All (IsMarked c.pre_agg_required) c.paths

  best_path-Joins : (a b : String) (p : JoinPath) → best_path g a b ≡ some p → Joins g ((a, b), p)
  unfolding best_path
  best_path-Joins a b p e = elim (Option-cases (head? (find_paths g a b default_depth))) [
    | inr (q, f) ↦ inl (head?-All _ _ p (find_paths_sound g a b default_depth) (ground arith))
    | inl f ↦ inr (head?-All _ _ p (find_paths_sound g b a default_depth) (ground arith))
  ]

  best_path-Unjoined : (a b : String) → best_path g a b ≡ none → Unjoined g (a, b)
  unfolding best_path
  best_path-Unjoined a b e = (head?-none _ (ground arith), head?-none _ (ground arith))

  contains-bridges :
      (ts : List String) (t : String)
      → contains (filter (λ t. not (contains selected t)) ts) t
        ≡ (contains ts t && not (contains selected t))
  contains-bridges [] t = refl
  contains-bridges (u ∷ ts) t = ground (arith, contains-bridges ts t, eq_iff u t)

  Covers-more :
      (c : Completion) (p q : JoinPath) (k : String × String)
      → Covers (covered c) (k, q)
      → Covers (selected ++ (c.bridge_tables ++ bridges selected p)) (k, q)
  Covers-more c p q k h =
      All-map _ _ q.tables
        (λ t m. ground (
          arith,
          m,
          contains-append selected c.bridge_tables t,
          contains-append selected (c.bridge_tables ++ bridges selected p) t,
          contains-append c.bridge_tables (bridges selected p) t,
        ))
        h

  Covers-new :
      (c : Completion) (p : JoinPath) (k : String × String)
      → Covers (selected ++ (c.bridge_tables ++ bridges selected p)) (k, p)
  Covers-new c p k = All-contains p.tables _ (λ t m. ground (
    arith,
    contains-append selected (c.bridge_tables ++ bridges selected p) t,
    contains-append c.bridge_tables (bridges selected p) t,
    contains-bridges p.tables t,
  ))

  join_pair-IsJoined :
      (a b : String) (c : Completion) → IsJoined c → IsJoined (join_pair g selected a b c)
  unfolding join_pair
  join_pair-IsJoined a b c h = elim (Option-cases (best_path g a b)) [
    | inl e ↦
        rw (e, join_pair)
          (record {
            joins = h.joins;
            covers = h.covers;
            unjoined = All-append _ c.missing _ h.unjoined (best_path-Unjoined a b e, tt);
            marked = h.marked;
          })
    | inr (p, e) ↦
        rw (e, join_pair)
          (record {
            joins = set_path-All _ (a, b) p c.paths (best_path-Joins a b p e) h.joins;
            covers =
                set_path-All _ (a, b) p c.paths (Covers-new c p (a, b))
                  (All-map _ _ c.paths (λ kq m. Covers-more c p kq.1 kq.0 m) h.covers);
            unjoined = h.unjoined;
            marked = IsMarked-after (a, b) p c.paths c.pre_agg_required h.marked;
          })
  ]

  join_row-IsJoined :
      (a : String) (bs : List String) (c : Completion)
      → IsJoined c
      → IsJoined (join_row g selected a bs c)
  unfolding join_row
  join_row-IsJoined a [] c h = h
  join_row-IsJoined a (b ∷ bs) c h = join_row-IsJoined a bs _ (join_pair-IsJoined a b c h)

  join_all-IsJoined :
      (srcs : List String) (c : Completion) → IsJoined c → IsJoined (join_all g selected srcs c)
  unfolding join_all
  join_all-IsJoined [] c h = h
  join_all-IsJoined (a ∷ rest) c h = join_all-IsJoined rest _ (join_row-IsJoined a rest c h)

  pub record IsCompleted (r : JoinGraphResult) : Type 0 where
    pub keeps_selected : All (λ t. contains r.complete_tables t ≡ true) selected
    pub joins : All (Joins g) r.paths
    pub covers : All (Covers r.complete_tables) r.paths
    pub unjoined : All (Unjoined g) r.missing_paths
    pub accounted : All (λ k. Among k (pairs r.paths) ⊎ Among k r.missing_paths) (pairs_of selected)
    pub marked : All (IsMarked r.pre_aggregation_required) r.paths

  complete_tables-same :
      (bs : List String) (t : String)
      → contains (selected ++ sort text_leb (dedup bs)) t ≡ contains (selected ++ bs) t
  complete_tables-same bs t =
      contains-append selected (sort text_leb (dedup bs)) t
      ∙ ap (λ b. contains selected t || b)
          (contains-any (sort text_leb (dedup bs)) t
            ∙ any-sort text_leb (λ x. x == t) (dedup bs)
            ∙ sym (contains-any (dedup bs) t)
            ∙ contains-dedup bs t)
      ∙ sym (contains-append selected bs t)

  complete_with-IsCompleted :
      (c : Completion)
      → IsJoined c
      → All (IsAccounted c) (pairs_of selected)
      → IsCompleted (complete_with selected c)
  unfolding complete_with
  complete_with-IsCompleted c h accounted = record {
    keeps_selected =
        All-contains selected _ (λ t m.
          ground (arith, contains-append selected (sort text_leb (dedup c.bridge_tables)) t));
    joins = h.joins;
    covers =
        All-map _ _ c.paths
          (λ kp m. All-map _ _ kp.1.tables (λ t e. complete_tables-same c.bridge_tables t ∙ e) m)
          h.covers;
    unjoined = h.unjoined;
    accounted = accounted;
    marked = h.marked;
  }

  -- complete_schema keeps every table that was selected; each path that it returns joins the two
  -- tables of its pair, in one direction or in the other, by a path that find_paths promises, all of
  -- whose tables are among the completed ones; and for each pair that it reports as missing,
  -- find_paths returns nothing in both directions. Each pair of selected tables has a path or is
  -- reported as missing, and a path that needs an aggregation before the join is reported for its pair.
  pub complete_schema-IsCompleted : IsCompleted (complete_schema g selected)
  unfolding complete_schema
  complete_schema-IsCompleted = elim (Bool-cases (leb (length selected) 1)) [
    | inl few ↦
        rw (few, complete_schema)
          (record {
            keeps_selected = All-contains selected selected (λ t m. m);
            joins = tt;
            covers = tt;
            unjoined = tt;
            accounted = rw (pairs_of-few selected few) tt;
            marked = tt;
          })
    | inr many ↦
        rw (many, complete_schema)
          (complete_with-IsCompleted _
            (join_all-IsJoined selected nothing_joined
              (record { joins = tt; covers = tt; unjoined = tt; marked = tt }))
            (join_all-accounts g selected selected nothing_joined))
  ]
