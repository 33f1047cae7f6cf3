-- ===== src/Linking/JoinGraph/Termination.antt =====
-- The loop of find_paths ends: the fuel it is given empties the queue.
use atlas_sql.Common.{
  ℕ, zero, suc, ◌+◌, ◌-◌, ◌*◌, ◌≤◌, String, some, List, [], ◌∷◌, ◌++◌, ◌≡◌, refl, ap, subst, arith,
  length, length-append, lookup, inl, inr, List-cases, Option-cases, string_eq,
}
use atlas_sql.Linking.Relations.{GraphEdge}
use atlas_sql.Linking.JoinGraph.{
  JoinGraph, Item, Search, edges_from, edge_count, extended, visit, expand, process, search_loop,
  turns, start, search,
}

out_degree :
    (t : String) (adj : List (String × List GraphEdge)) (es : List GraphEdge)
    → lookup t adj ≡ some es
    → length es ≤ edge_count adj
unfolding lookup edge_count
out_degree t [] es h = cc
out_degree t ((u, fs) ∷ adj) es h = ground (arith, out_degree t adj es)

edges_from-le : (g : JoinGraph) (t : String) → length (edges_from g t) ≤ edge_count g.adj
unfolding edges_from
edges_from-le g t = elim (Option-cases (lookup t g.adj)) [
  | inl e ↦ rw (e, edges_from, length) (omega arith)
  | inr (es, e) ↦ rw (e, edges_from, length) (out_degree t g.adj es e)
]

mul_mono : (a b c : ℕ) → a ≤ b → a * c ≤ b * c
mul_mono a b zero h = omega arith
mul_mono a b (suc c) h = omega (arith, mul_mono a b c h)

module _ (g : JoinGraph) (target : String) (max_depth : ℕ) where
  abbrev degree : ℕ
  degree = edge_count g.adj

  -- The turns that an item can cause, and those of a queue.
  unfoldable item_turns : Item → ℕ
  item_turns item = turns degree (max_depth + 2 - length item.path)

  unfoldable pub queue_turns : List Item → ℕ
  unfolding item_turns
  queue_turns [] = 0
  queue_turns (item ∷ q) = item_turns item + queue_turns q

  queue_turns-append : (q r : List Item) → queue_turns (q ++ r) ≡ queue_turns q + queue_turns r
  unfolding queue_turns
  queue_turns-append [] r = omega arith
  queue_turns-append (i ∷ q) r = omega (arith, queue_turns-append q r)

  visit-turns :
      (item : Item) (e : GraphEdge) (s : Search)
      → queue_turns (visit item e s).queue ≤ queue_turns s.queue + item_turns (extended item e)
  unfolding visit queue_turns
  visit-turns item e s = ground (arith, queue_turns-append s.queue (extended item e ∷ []))

  extended-turns :
      (item : Item) (e : GraphEdge) (k : ℕ)
      → max_depth + 2 - length item.path ≡ suc k
      → item_turns (extended item e) ≡ turns degree k
  unfolding item_turns
  extended-turns item e k h =
      ap (turns degree) (omega (arith, h, length-append item.path (e.to_table ∷ [])))

  expand-turns :
      (item : Item) (k : ℕ) (es : List GraphEdge) (s : Search)
      → max_depth + 2 - length item.path ≡ suc k
      → queue_turns (expand item es s).queue ≤ queue_turns s.queue + length es * turns degree k
  unfolding expand
  expand-turns item k [] s h = omega arith
  expand-turns item k (e ∷ es) s h = omega (
    arith,
    visit-turns item e s,
    extended-turns item e k h,
    expand-turns item k es (visit item e s) h,
  )

  item_turns-short :
      (item : Item) (k : ℕ)
      → max_depth + 2 - length item.path ≡ suc k
      → item_turns item ≡ 1 + degree * turns degree k
  unfolding item_turns turns
  item_turns-short item k h = ap (turns degree) h

  item_turns-positive : (item : Item) → 1 ≤ item_turns item
  unfolding item_turns turns
  item_turns-positive item = positive (max_depth + 2 - length item.path)
    where
      positive : (n : ℕ) → 1 ≤ turns degree n
      positive zero = omega arith
      positive (suc n) = omega arith

  expand_all-turns :
      (item : Item) (s : Search)
      → length item.path ≤ max_depth + 1
      → queue_turns (expand item (edges_from g item.current) s).queue + 1
        ≤ item_turns item + queue_turns s.queue
  expand_all-turns item s h =
      let k = max_depth + 1 - length item.path in
      let e : max_depth + 2 - length item.path ≡ suc k = omega (arith, h) in
      omega (
        arith,
        expand-turns item k (edges_from g item.current) s e,
        item_turns-short item k e,
        mul_mono (length (edges_from g item.current)) degree (turns degree k)
            (edges_from-le g item.current),
      )

  -- One turn of the loop uses up at least one of the turns that its queue can cause.
  process-turns :
      (item : Item) (s : Search)
      → queue_turns (process g target max_depth item s).queue + 1
        ≤ item_turns item + queue_turns s.queue
  unfolding process
  process-turns item s = ground (arith, item_turns-positive item, expand_all-turns item s)

  abbrev loop : ℕ → Search → Search
  loop n s = search_loop g target max_depth n s

  no_turns : (q : List Item) → queue_turns q ≤ 0 → q ≡ []
  unfolding queue_turns
  no_turns [] h = refl
  no_turns (i ∷ q) h = absurd (omega (arith, h, item_turns-positive i))

  -- Enough fuel for the turns that the queue can cause empties it.
  pub search_loop-ends : (n : ℕ) (s : Search) → queue_turns s.queue ≤ n → (loop n s).queue ≡ []
  unfolding search_loop queue_turns
  search_loop-ends zero s h = no_turns s.queue h
  search_loop-ends (suc n) s h = elim (List-cases s.queue) [
    | inl e ↦ rw (e, search_loop) e
    | inr (item, rest, e) ↦
        let s' = record s { queue = rest } in
        let bound : item_turns item + queue_turns rest ≤ suc n =
          subst (λ q. queue_turns q ≤ suc n) e h in
        rw (e, search_loop)
          (search_loop-ends n (process g target max_depth item s')
            (omega (arith, bound, process-turns item s')))
  ]

-- The search of find_paths runs to its end: whatever the graph, the source, the target and the
-- depth, the fuel that it is given empties the queue.
pub search-ends :
    (g : JoinGraph) (source target : String) (max_depth : ℕ)
    → (search g source target max_depth).queue ≡ []
unfolding search queue_turns item_turns
search-ends g source target max_depth =
    search_loop-ends g target max_depth (turns (edge_count g.adj) (max_depth + 1)) (start source)
      (omega (arith, same))
  where
    same : turns (edge_count g.adj) (max_depth + 2 - 1) ≡ turns (edge_count g.adj) (max_depth + 1)
    same = ap (turns (edge_count g.adj)) (omega arith)
