-- ===== src/Linking/JoinGraph/Shortest.antt =====
-- find_paths misses no target within its depth, and returns shortest paths alone.
use atlas_sql.Common.{
  ℕ, zero, suc, ◌+◌, ◌≤◌, ◌<◌, String, true, false, ◌&&◌, some, List, [], ◌∷◌, ◌≡◌, refl, sym, ap,
  subst, arith, eq_iff, All, All-both, All-map, All-sort, any, is_empty, length, length-map,
  length-sort, sort, List-cases, Bool-cases, inl, inr, lookup, ◌==◌, string_eq,
}
use atlas_sql.Linking.Relations.{GraphEdge, JoinPath}
use atlas_sql.Linking.JoinGraph.{
  JoinGraph, Item, Search, has_table, process, search_loop, start, search, find_paths, shorter,
}
use atlas_sql.Linking.JoinGraph.Termination.{search-ends}
use atlas_sql.Linking.JoinGraph.Soundness.{Walk, IsJoinPath, find_paths_sound}
use atlas_sql.Linking.JoinGraph.Growth.{is_at, Seen}
use atlas_sql.Linking.JoinGraph.Levels.{
  IsAtTarget, IsLevelled, with_item, process-IsLevelled, process-Seen, start-IsLevelled,
}
use atlas_sql.Linking.JoinGraph.Settling.{
  Settled, waiting, expanded, reached, too_deep, cut_off, IsSettled, process-IsSettled, Seen-unique,
}

is_empty-sort : (ps : List JoinPath) → is_empty ps ≡ false → is_empty (sort shorter ps) ≡ false
is_empty-sort ps h = ground (arith, length-sort shorter ps)

module _ (g : JoinGraph) (source target : String) (max_depth : ℕ) where
  record Progress (s : Search) : Type 0 where
    level : ℕ
    levelled : IsLevelled target level s
    settled : IsSettled g source target max_depth s
    origin : Seen s source 0

  -- A walk from a visited table is cut off, or shows that the target was found as near.
  data Reach (s : Search) (n : ℕ) : Type 0 where
    found_within : (m : ℕ) → s.shortest_len ≡ some m → m ≤ suc n → Reach s n
    beyond : max_depth < n → Reach s n

  Reach-le : (s : Search) (a b : ℕ) → a ≤ b → Reach s a → Reach s b
  Reach-le s a b le (found_within m r h) = found_within m r (omega (arith, le, h))
  Reach-le s a b le (beyond h) = beyond (omega (arith, le, h))

  -- What is known of the rest of a walk behind its first edge.
  abbrev Onward : Search → List GraphEdge → Type 0
  Onward s [] = Unit {0}
  Onward s (d ∷ fs) = (j : ℕ) → Seen s d.to_table j → Reach s (j + length fs)

  target-near :
      (s : Search) (t : String) (k m : ℕ)
      → Progress s
      → Seen s t k
      → t ≡ target
      → s.shortest_len ≡ some m
      → m ≤ suc k
  target-near s t k m p seen at r =
      let (j, at_j, same) = p.levelled.shortest m r in
      omega (arith, same, Seen-unique s target j k at_j (subst (λ u. Seen s u k) at seen))

  Settled-Reach :
      (s : Search) (es : List GraphEdge) (t : String) (k : ℕ)
      → Progress s
      → s.queue ≡ []
      → Seen s t k
      → Walk g t es target
      → Onward s es
      → Settled g source target max_depth s t k
      → Reach s (k + length es)
  Settled-Reach s es t k p e seen w on (waiting q) = absurd (ground (arith, ap (any (is_at t)) e))
  Settled-Reach s es t k p e seen w on (reached at m r) =
      found_within m r (omega (arith, target-near s t k m p seen at r))
  Settled-Reach s es t k p e seen w on (too_deep h) = beyond (omega (arith, h))
  Settled-Reach s es t k p e seen w on (cut_off m r le) = found_within m r (omega (arith, le))
  Settled-Reach s [] t k p e seen w on (expanded away f) = absurd (away w)
  Settled-Reach s (d ∷ fs) t k p e seen w on (expanded away f) =
      let (j, at, le) = f d w.0 in
      Reach-le s (j + length fs) (k + length (d ∷ fs)) (omega (arith, le)) (on j at)

  Walk-Reach :
      (s : Search)
      → Progress s
      → s.queue ≡ []
      → (es : List GraphEdge) (t : String) (k : ℕ) → Seen s t k
      → Walk g t es target
      → Reach s (k + length es)
  Walk-Reach s p e [] t k seen w = Settled-Reach s [] t k p e seen w tt (p.settled t k seen)
  Walk-Reach s p e (d ∷ fs) t k seen w =
      Settled-Reach s (d ∷ fs) t k p e seen w (λ j at. Walk-Reach s p e fs d.to_table j at w.1)
        (p.settled t k seen)

  process-Progress :
      (item : Item) (s : Search)
      → Progress (with_item target item s)
      → Progress (process g target max_depth item s)
  process-Progress item s p = record {
    level = length item.path;
    levelled = process-IsLevelled target g max_depth p.level item s p.levelled;
    settled = process-IsSettled g source target max_depth p.level item s p.levelled p.settled;
    origin = process-Seen target g max_depth p.level item s source 0 p.levelled p.origin;
  }

  search_loop-Progress :
      (n : ℕ) (s : Search) → Progress s → Progress (search_loop g target max_depth n s)
  unfolding search_loop
  search_loop-Progress zero s p = p
  search_loop-Progress (suc n) s p = elim (List-cases s.queue) [
    | inl e ↦ rw (e, search_loop) p
    | inr (item, rest, e) ↦
        let s' = record s { queue = rest } in
        rw (e, search_loop)
          (search_loop-Progress n _
            (process-Progress item s' (subst (λ q. Progress (record s { queue = q })) e p)))
  ]

  start-Progress : Progress (start source)
  unfolding lookup
  start-Progress = record {
    level = 0;
    levelled = start-IsLevelled target source;
    settled = λ t k seen. waiting (ground arith);
    origin = rw (eq_iff source source).1 refl;
  }

  abbrev ended : Search
  ended = search g source target max_depth

  search-Progress : Progress ended
  unfolding search
  search-Progress = search_loop-Progress _ (start source) start-Progress

  search-Reach : (es : List GraphEdge) → Walk g source es target → Reach ended (length es)
  search-Reach es w = Reach-le ended (0 + length es) (length es) (omega arith) (
      Walk-Reach ended search-Progress (search-ends g source target max_depth) es source 0
        search-Progress.origin w)

  -- If both tables are in the graph and some walk of at most `max_depth` edges leads from the source
  -- to the target, find_paths returns a path.
  pub find_paths_complete :
      (es : List GraphEdge)
      → has_table g source ≡ true
      → has_table g target ≡ true
      → Walk g source es target
      → length es ≤ max_depth
      → is_empty (find_paths g source target max_depth) ≡ false
  unfolding find_paths
  find_paths_complete es known_source known_target w short = elim (Bool-cases (source == target)) [
    | inl same ↦ rw (same, find_paths) refl
    | inr apart ↦
        rw (apart, known_source, known_target, find_paths)
          (is_empty-sort ended.found_paths (found (search-Reach es w)))
  ]
    where
      found : Reach ended (length es) → is_empty ended.found_paths ≡ false
      found (found_within m r le) = search-Progress.levelled.not_empty m r
      found (beyond far) = absurd (omega (arith, far, short))

  near_target :
      (p : JoinPath) (es : List GraphEdge)
      → IsAtTarget target ended p
      → IsJoinPath g source target max_depth p
      → Reach ended (length es)
      → length p.edges ≤ length es
  near_target p es (k, at, len) q (beyond far) = omega (arith, far, q.short)
  near_target p es (k, at, len) q (found_within m r le) =
      let (j, at_j, same) = search-Progress.levelled.shortest m r in
      omega (
        arith,
        len,
        le,
        same,
        Seen-unique ended target j k at_j at,
        ap length q.tables,
        length-map (λ (e : GraphEdge). e.to_table) p.edges,
      )

  -- No path that find_paths returns has more edges than any walk from the source to the target.
  pub find_paths-shortest :
      (es : List GraphEdge)
      → Walk g source es target
      → All (λ (p : JoinPath). length p.edges ≤ length es) (find_paths g source target max_depth)
  unfolding find_paths
  find_paths-shortest es w = elim (Bool-cases (source == target)) [
    | inl same ↦ rw (same, find_paths) (omega arith, tt)
    | inr apart ↦ elim (Bool-cases (has_table g source && has_table g target)) [
      | inr unknown ↦ rw (apart, unknown, find_paths) tt
      | inl known ↦
          let e : find_paths g source target max_depth ≡ sort shorter ended.found_paths =
            rw (apart, known, find_paths) refl in
          subst (All _) (sym e) (
            All-map _ _ _ (λ p h. near_target p es h.0 h.1 (search-Reach es w))
              (All-both _ _ _ (All-sort shorter _ ended.found_paths search-Progress.levelled.found)
                (subst (All _) e (find_paths_sound g source target max_depth))))
    ]
  ]
