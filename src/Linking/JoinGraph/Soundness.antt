-- ===== src/Linking/JoinGraph/Soundness.antt =====
-- Every path that find_paths returns is a walk of the graph from the source to the target.
use atlas_sql.Common.{
  ℕ, zero, suc, ◌+◌, ◌≤◌, String, List, [], ◌∷◌, ◌++◌, map, ◌≡◌, refl, sym, ap, subst, ◌∙◌, ◌⊎◌,
  arith, All, All-append, All-sort, any, length, length-map, ◌&&◌, inl, inr, Bool-cases, List-cases,
  eq_iff, ltb, ◌==◌, string_eq,
}
use mathlib.Core.List.{map-append}
use atlas_sql.Linking.Relations.{
  GraphEdge, JoinPath, build_path, is_many_to_many, requires_pre_aggregation,
}
use atlas_sql.Linking.JoinGraph.{
  JoinGraph, Item, Search, has_table, edges_from, was_seen, extended, visit, expand, is_too_long,
  shorter, process, search_loop, start, search, find_paths,
}

-- The edge is one of the list.
abbrev pub Among : List GraphEdge → GraphEdge → Type 0
Among [] e = ⊥
Among (f ∷ fs) e = (f ≡ e) ⊎ Among fs e

-- The edges lead from one table to another, each an edge of the graph.
abbrev pub Walk : JoinGraph → String → List GraphEdge → String → Type 0
Walk g a [] b = a ≡ b
Walk g a (e ∷ es) b = Among (edges_from g a) e × Walk g e.to_table es b

abbrev pub tables_of : String → List GraphEdge → List String
tables_of a es = a ∷ map (λ e. e.to_table) es

Walk-snoc :
    (g : JoinGraph) (a b : String) (es : List GraphEdge) (e : GraphEdge)
    → Walk g a es b
    → Among (edges_from g b) e
    → Walk g a (es ++ e ∷ []) e.to_table
Walk-snoc g a b [] e w m = (subst (λ t. Among (edges_from g t) e) (sym w) m, refl)
Walk-snoc g a b (f ∷ es) e w m = (w.0, Walk-snoc g f.to_table b es e w.1 m)

-- A path that find_paths promises: its tables are those of its edges, at most `max_depth` of them,
-- and its marks are those of its edges.
pub record IsJoinPath (g : JoinGraph) (source target : String) (max_depth : ℕ) (p : JoinPath)
    : Type 0 where
  pub walk : Walk g source p.edges target
  pub tables : p.tables ≡ tables_of source p.edges
  pub short : length p.edges ≤ max_depth
  pub fan_out : p.has_fan_out_risk ≡ any is_many_to_many p.edges
  pub pre_aggregation : p.requires_pre_aggregation ≡ any requires_pre_aggregation p.edges

module _ (g : JoinGraph) (source target : String) (max_depth : ℕ) where
  record IsWalked (item : Item) : Type 0 where
    walk : Walk g source item.edges item.current
    tables : item.path ≡ tables_of source item.edges

  record IsSound (s : Search) : Type 0 where
    queued : All IsWalked s.queue
    found : All (IsJoinPath g source target max_depth) s.found_paths

  extended-IsWalked :
      (item : Item) (e : GraphEdge)
      → IsWalked item
      → Among (edges_from g item.current) e
      → IsWalked (extended item e)
  extended-IsWalked item e w m = record {
    walk = Walk-snoc g source item.current item.edges e w.walk m;
    tables =
        ap (λ ts. ts ++ e.to_table ∷ []) w.tables
        ∙ ap (λ ts. source ∷ ts) (sym (map-append (λ e. e.to_table) item.edges (e ∷ [])));
  }

  visit-IsSound :
      (item : Item) (e : GraphEdge) (s : Search)
      → IsWalked item
      → Among (edges_from g item.current) e
      → IsSound s
      → IsSound (visit item e s)
  unfolding visit
  visit-IsSound item e s w m h =
      elim (Bool-cases (was_seen s.visited_at_depth e.to_table (length item.path))) [
        | inl q ↦ rw (q, visit) h
        | inr q ↦
            rw (q, visit)
              (record {
                queued = All-append IsWalked s.queue _ h.queued (extended-IsWalked item e w m, tt);
                found = h.found;
              })
      ]

  expand-IsSound :
      (item : Item) (es : List GraphEdge) (s : Search)
      → IsWalked item
      → ((e : GraphEdge) → Among es e → Among (edges_from g item.current) e)
      → IsSound s
      → IsSound (expand item es s)
  unfolding expand
  expand-IsSound item [] s w m h = h
  expand-IsSound item (e ∷ es) s w m h =
      expand-IsSound item es (visit item e s) w (λ f k. m f (inr k))
        (visit-IsSound item e s w (m e (inl refl)) h)

  -- A path of a popped item that ends at the target.
  build_path-IsJoinPath :
      (item : Item)
      → IsWalked item
      → length item.path ≤ max_depth + 1
      → item.current ≡ target
      → IsJoinPath g source target max_depth (build_path item.path item.edges)
  unfolding build_path
  build_path-IsJoinPath item w h e = record {
    walk = subst (λ t. Walk g source item.edges t) e w.walk;
    tables = w.tables;
    short =
        omega (arith, ap length w.tables, length-map (λ (e : GraphEdge). e.to_table) item.edges, h);
    fan_out = refl;
    pre_aggregation = refl;
  }

  process-IsSound :
      (item : Item) (s : Search)
      → IsWalked item
      → IsSound s
      → IsSound (process g target max_depth item s)
  unfolding process
  process-IsSound item s w h = elim (Bool-cases (ltb (max_depth + 1) (length item.path))) [
    | inl long ↦ rw (long, process) h
    | inr short ↦ elim (Bool-cases (item.current == target)) [
      | inl at ↦
          rw (short, at, process)
            (record {
              queued = h.queued;
              found = All-append _ s.found_paths _ h.found (
                build_path-IsJoinPath item w (ground arith) ((eq_iff item.current target).0 at),
                tt,
              );
            })
      | inr away ↦ elim (Bool-cases (is_too_long s.shortest_len item.path)) [
        | inl far ↦ rw (short, away, far, process) h
        | inr near ↦
            rw (short, away, near, process)
              (expand-IsSound item (edges_from g item.current) s w (λ e m. m) h)
      ]
    ]
  ]

  search_loop-IsSound :
      (n : ℕ) (s : Search) → IsSound s → IsSound (search_loop g target max_depth n s)
  unfolding search_loop
  search_loop-IsSound zero s h = h
  search_loop-IsSound (suc n) s h = elim (List-cases s.queue) [
    | inl e ↦ rw (e, search_loop) h
    | inr (item, rest, e) ↦
        let queued : All IsWalked (item ∷ rest) = subst (All IsWalked) e h.queued in
        rw (e, search_loop)
          (search_loop-IsSound n _ (
            process-IsSound item (record s { queue = rest }) queued.0
              (record { queued = queued.1; found = h.found })))
  ]

  -- Each path that find_paths returns is a walk along edges of the graph from the source to the
  -- target, of at most `max_depth` edges; its tables are the source and the ends of its edges, and
  -- its two marks tell whether an edge of it is many-to-many, or must be aggregated first.
  pub find_paths_sound :
      All (IsJoinPath g source target max_depth) (find_paths g source target max_depth)
  unfolding find_paths search
  find_paths_sound = elim (Bool-cases (source == target)) [
    | inl same ↦
        rw (same, find_paths)
          (
            record {
              walk = (eq_iff source target).0 same;
              tables = refl;
              short = omega arith;
              fan_out = refl;
              pre_aggregation = refl;
            },
            tt,
          )
    | inr apart ↦ elim (Bool-cases (has_table g source && has_table g target)) [
      | inr unknown ↦ rw (apart, unknown, find_paths) tt
      | inl known ↦
          rw (apart, known, find_paths)
            (All-sort shorter _ (search g source target max_depth).found_paths
              (search_loop-IsSound _ (start source) (record {
                queued = (record { walk = refl; tables = refl }, tt);
                found = tt;
              })).found)
    ]
  ]
