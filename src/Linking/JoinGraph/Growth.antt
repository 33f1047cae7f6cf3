-- ===== src/Linking/JoinGraph/Growth.antt =====
-- What the expansion of one table does to the queue and to the table of visited depths.
use atlas_sql.Common.{
  ℕ, suc, ◌≤◌, String, Bool, true, false, ◌||◌, Option, none, some, List, [], ◌∷◌, ◌++◌, ◌⊎◌, inl,
  inr, ◌≡◌, refl, sym, ap, ◌∙◌, subst, arith, eq_iff, All, All-append, All-map, any, any-append,
  any-append_right, length, length-append, lookup, insert, lookup-insert, Bool-cases, ◌==◌,
  string_eq, beq_refl,
}
use mathlib.Core.List.{append-nil, append_assoc}
use atlas_sql.Linking.Relations.{GraphEdge}
use atlas_sql.Linking.JoinGraph.{Item, Search, was_seen, extended, visit, expand}
use atlas_sql.Linking.JoinGraph.Soundness.{Among}

abbrev pub is_at : String → Item → Bool
is_at t i = i.current == t

-- The table is visited at that depth.
abbrev pub Seen : Search → String → ℕ → Type 0
Seen s t k = lookup t s.visited_at_depth ≡ some k

abbrev pub IsBounded : Search → ℕ → Type 0
IsBounded s n = (t : String) (k : ℕ) → Seen s t k → k ≤ n

-- What `s'` has after neighbors of `item` were visited from `s`.
pub record Grown (item : Item) (s s' : Search) : Type 0 where
  pub added : List Item
  pub queue : s'.queue ≡ s.queue ++ added
  pub deeper :
      All
        (λ (i : Item).
          (length i.path ≡ suc (length item.path)) × Seen s' i.current (length item.path))
        added
  pub keeps : (t : String) (k : ℕ) → Seen s t k → Seen s' t k
  pub fresh :
      (t : String) (k : ℕ)
      → Seen s' t k
      → Seen s t k ⊎ (any (is_at t) added ≡ true) × (k ≤ length item.path)
  pub found : s'.found_paths ≡ s.found_paths
  pub shortest : s'.shortest_len ≡ s.shortest_len

Grown-refl : (item : Item) (s : Search) → Grown item s s
Grown-refl item s = record {
  added = [];
  queue = sym (append-nil s.queue);
  deeper = tt;
  keeps = λ t k h. h;
  fresh = λ t k h. inl h;
  found = refl;
  shortest = refl;
}

Grown-trans :
    (item : Item) (s s' s'' : Search) → Grown item s s' → Grown item s' s'' → Grown item s s''
Grown-trans item s s' s'' a b = record {
  added = a.added ++ b.added;
  queue = b.queue ∙ ap (λ q. q ++ b.added) a.queue ∙ append_assoc s.queue a.added b.added;
  deeper =
      All-append _ a.added b.added
        (All-map _ _ a.added (λ i h. (h.0, b.keeps i.current _ h.1)) a.deeper) b.deeper;
  keeps = λ t k h. b.keeps t k (a.keeps t k h);
  fresh = λ t k h. elim (b.fresh t k h) [
    | inr (new, le) ↦ inr (any-append_right (is_at t) a.added b.added new, le)
    | inl old ↦ elim (a.fresh t k old) [
      | inl older ↦ inl older
      | inr (new, le) ↦ inr (any-append (is_at t) a.added b.added new, le)
    ]
  ];
  found = b.found ∙ a.found;
  shortest = b.shortest ∙ a.shortest;
}

pub Grown-IsBounded :
    (item : Item) (s s' : Search)
    → Grown item s s'
    → IsBounded s (length item.path)
    → IsBounded s' (length item.path)
Grown-IsBounded item s s' g h t k seen = elim (g.fresh t k seen) [
  | inl old ↦ h t k old
  | inr new ↦ new.1
]

-- A table that is visited at most as deep keeps its depth when it is visited again.
insert-keeps :
    (v : List (String × ℕ)) (a t : String) (n k : ℕ)
    → was_seen v a n ≡ false
    → k ≤ n
    → lookup t v ≡ some k
    → lookup t (insert a n v) ≡ some k
insert-keeps v a t n k unseen le h = elim (Bool-cases (a == t)) [
  | inr q ↦ lookup-insert a t n v ∙ rw q h
  | inl q ↦
      let at_a : lookup a v ≡ some k = ap (λ x. lookup x v) ((eq_iff a t).0 q) ∙ h in
      let same : n ≡ k = deepest at_a in lookup-insert a t n v ∙ rw q (ap some same)
]
  where
    deepest : lookup a v ≡ some k → n ≡ k
    deepest e = ground arith

insert-fresh :
    (v : List (String × ℕ)) (a t : String) (n k : ℕ)
    → lookup t (insert a n v) ≡ some k
    → (lookup t v ≡ some k) ⊎ ((a == t || false) ≡ true) × (k ≤ n)
insert-fresh v a t n k h = elim (Bool-cases (a == t)) [
  | inr q ↦ inl (sym (lookup-insert a t n v ∙ rw q refl) ∙ h)
  | inl q ↦ inr (rw q refl, le (sym (lookup-insert a t n v ∙ rw q refl) ∙ h))
]
  where
    le : some n ≡ some k → k ≤ n
    le e = ground arith

visit-Grown :
    (item : Item) (e : GraphEdge) (s : Search)
    → IsBounded s (length item.path)
    → Grown item s (visit item e s)
unfolding visit
visit-Grown item e s h =
    elim (Bool-cases (was_seen s.visited_at_depth e.to_table (length item.path))) [
      | inl q ↦ rw (q, visit) (Grown-refl item s)
      | inr q ↦
          rw (q, visit)
            (record {
              added = extended item e ∷ [];
              queue = refl;
              deeper = (
                (
                  omega (arith, length-append item.path (e.to_table ∷ [])),
                  lookup-insert e.to_table e.to_table (length item.path) s.visited_at_depth
                      ∙ rw (beq_refl string_eq e.to_table),
                ),
                tt,
              );
              keeps = λ t k seen.
                  insert-keeps s.visited_at_depth e.to_table t (length item.path) k q (h t k seen)
                    seen;
              fresh = λ t k seen.
                  insert-fresh s.visited_at_depth e.to_table t (length item.path) k seen;
              found = refl;
              shortest = refl;
            })
    ]

-- After the loop over the edges, every neighbor is visited, at most one step deeper.
pub record Expanded (item : Item) (es : List GraphEdge) (s s' : Search) : Type 0 where
  pub grown : Grown item s s'
  pub seen : (e : GraphEdge) → Among es e → (k : ℕ) × Seen s' e.to_table k × (k ≤ length item.path)

visit-Seen :
    (item : Item) (e : GraphEdge) (s : Search)
    → (k : ℕ) × Seen (visit item e s) e.to_table k × (k ≤ length item.path)
unfolding visit
visit-Seen item e s =
    elim (Bool-cases (was_seen s.visited_at_depth e.to_table (length item.path))) [
      | inl q ↦ rw (q, visit) (seen_at (lookup e.to_table s.visited_at_depth) refl q)
      | inr q ↦
          rw (q, visit)
            (
              length item.path,
              lookup-insert e.to_table e.to_table (length item.path) s.visited_at_depth
                  ∙ rw (beq_refl string_eq e.to_table),
              omega arith,
            )
    ]
  where
    seen_at :
        (o : Option ℕ)
        → lookup e.to_table s.visited_at_depth ≡ o
        → was_seen s.visited_at_depth e.to_table (length item.path) ≡ true
        → (k : ℕ) × (lookup e.to_table s.visited_at_depth ≡ some k) × (k ≤ length item.path)
    seen_at none h q = absurd (ground arith)
    seen_at (some k) h q = (k, h, ground arith)

pub expand-Expanded :
    (item : Item) (es : List GraphEdge) (s : Search)
    → IsBounded s (length item.path)
    → Expanded item es s (expand item es s)
unfolding expand
expand-Expanded item [] s h = record { grown = Grown-refl item s; seen = λ e m. absurd m }
expand-Expanded item (e ∷ es) s h =
    let first = visit-Grown item e s h in
    let rest =
      expand-Expanded item es (visit item e s) (Grown-IsBounded item s (visit item e s) first h) in
    record {
      grown = Grown-trans item s (visit item e s) _ first rest.grown;
      seen = λ f m. elim m [
        | inr later ↦ rest.seen f later
        | inl same ↦
            let (k, at, le) = visit-Seen item e s in
            (
              k,
              subst (λ x. Seen (expand item es (visit item e s)) x.to_table k) same
                  (rest.grown.keeps e.to_table k at),
              le,
            )
      ];
    }
