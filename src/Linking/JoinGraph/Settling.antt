-- ===== src/Linking/JoinGraph/Settling.antt =====
-- What the search has done for each table that it visited.
use atlas_sql.Common.{
  ℕ, suc, ◌+◌, ◌≤◌, ◌<◌, String, true, false, Option, none, some, List, [], ◌∷◌, ◌++◌, ◌⊎◌, ◌≡◌,
  ◌≢◌, refl, sym, ap, ◌∙◌, subst, arith, eq_iff, any, any-append, any-append_right, length,
  Bool-cases, inl, inr, ltb, ◌==◌, string_eq,
}
use atlas_sql.Linking.Relations.{GraphEdge, build_path}
use atlas_sql.Linking.JoinGraph.{
  JoinGraph, Item, Search, edges_from, is_too_long, or_length, process,
}
use atlas_sql.Linking.JoinGraph.Soundness.{Among}
use atlas_sql.Linking.JoinGraph.Growth.{is_at, Seen, Grown, expand-Expanded}
use atlas_sql.Linking.JoinGraph.Levels.{IsAtDepth, IsLevelled, with_item, pop-IsLevelled}

pub Seen-unique : (s : Search) (t : String) (j k : ℕ) → Seen s t j → Seen s t k → j ≡ k
Seen-unique s t j k a b = ground arith

module _ (g : JoinGraph) (source target : String) (max_depth : ℕ) where
  -- Why a visited table needs no more work than what is in the queue.
  pub data Settled (s : Search) (t : String) (k : ℕ) : Type 0 where
    waiting : any (is_at t) s.queue ≡ true → Settled s t k
    expanded :
        t ≢ target
        → ((e : GraphEdge) → Among (edges_from g t) e → (j : ℕ) × Seen s e.to_table j × (j ≤ suc k))
        → Settled s t k
    reached : t ≡ target → (m : ℕ) → s.shortest_len ≡ some m → Settled s t k
    too_deep : max_depth < k → Settled s t k
    cut_off : (m : ℕ) → s.shortest_len ≡ some m → m ≤ suc k → Settled s t k

  abbrev pub IsSettled : Search → Type 0
  IsSettled s = (t : String) (k : ℕ) → Seen s t k → Settled s t k

  -- What a turn of the loop keeps of the tables that it does not touch.
  record Keeps (s s' : Search) : Type 0 where
    queue : (t : String) → any (is_at t) s.queue ≡ true → any (is_at t) s'.queue ≡ true
    seen : (t : String) (k : ℕ) → Seen s t k → Seen s' t k
    shortest : (m : ℕ) → s.shortest_len ≡ some m → s'.shortest_len ≡ some m
    fresh : (t : String) (k : ℕ) → Seen s' t k → Seen s t k ⊎ (any (is_at t) s'.queue ≡ true)

  Settled-Keeps :
      (item : Item) (s s' : Search) (t : String) (k : ℕ)
      → Keeps s s'
      → (item.current == t) ≡ false
      → Settled (with_item target item s) t k
      → Settled s' t k
  Settled-Keeps item s s' t k h q (waiting w) = waiting (h.queue t (ground arith))
  Settled-Keeps item s s' t k h q (expanded away f) =
      expanded away (λ e m. let (j, at, le) = f e m in (j, h.seen e.to_table j at, le))
  Settled-Keeps item s s' t k h q (reached e m r) = reached e m (h.shortest m r)
  Settled-Keeps item s s' t k h q (too_deep d) = too_deep d
  Settled-Keeps item s s' t k h q (cut_off m r le) = cut_off m (h.shortest m r) le

  pop-IsSettled :
      (item : Item) (s s' : Search)
      → Keeps s s'
      → ((k : ℕ) → Seen s' item.current k → Settled s' item.current k)
      → IsSettled (with_item target item s)
      → IsSettled s'
  pop-IsSettled item s s' h own settled t k seen = elim (Bool-cases (item.current == t)) [
    | inl q ↦
        let e = (eq_iff item.current t).0 q in
        subst (λ u. Settled s' u k) e (own k (subst (λ u. Seen s' u k) (sym e) seen))
    | inr q ↦ elim (h.fresh t k seen) [
      | inr new ↦ waiting new
      | inl old ↦ Settled-Keeps item s s' t k h q (settled t k old)
    ]
  ]

  Keeps-refl : (s : Search) → Keeps s s
  Keeps-refl s = record {
    queue = λ t h. h;
    seen = λ t k h. h;
    shortest = λ m h. h;
    fresh = λ t k h. inl h;
  }

  Grown-Keeps : (item : Item) (s s' : Search) → Grown item s s' → Keeps s s'
  Grown-Keeps item s s' g = record {
    queue = λ t h. ap (any (is_at t)) g.queue ∙ any-append (is_at t) s.queue g.added h;
    seen = g.keeps;
    shortest = λ m h. g.shortest ∙ h;
    fresh = λ t k h. elim (g.fresh t k h) [
      | inl old ↦ inl old
      | inr new ↦
          inr (ap (any (is_at t)) g.queue ∙ any-append_right (is_at t) s.queue g.added new.0)
    ];
  }

  found-Keeps :
      (item : Item) (s : Search) (d : IsAtDepth s item)
      → IsLevelled target (length item.path) s
      → item.current ≡ target
      → Keeps s (record s {
        found_paths = s.found_paths ++ build_path item.path item.edges ∷ [];
        shortest_len = or_length s.shortest_len item.path;
      })
  found-Keeps item s d h e = record {
    queue = λ t h. h;
    seen = λ t k h. h;
    shortest = λ m r. ground arith;
    fresh = λ t k h. inl h;
  }

  or_length-some : (o : Option ℕ) (path : List String) → (m : ℕ) × (or_length o path ≡ some m)
  or_length-some none path = (length path, refl)
  or_length-some (some m) path = (m, refl)

  too_long-some :
      (o : Option ℕ) (path : List String)
      → is_too_long o path ≡ true
      → (m : ℕ) × (o ≡ some m) × (m ≤ length path)
  too_long-some none path h = cc
  too_long-some (some m) path h = (m, refl, ground arith)

  pub process-IsSettled :
      (n : ℕ) (item : Item) (s : Search)
      → IsLevelled target n (with_item target item s)
      → IsSettled (with_item target item s)
      → IsSettled (process g target max_depth item s)
  unfolding process
  process-IsSettled n item s h settled =
      let popped = pop-IsLevelled target n item s h in
      let (d, at_d, len) = h.depth.0 in
      let same =
        λ (k : ℕ) (seen : Seen s item.current k). Seen-unique s item.current k d seen at_d in
      elim (Bool-cases (ltb (max_depth + 1) (length item.path))) [
        | inl long ↦
            rw (long, process)
              (pop-IsSettled item s s (Keeps-refl s)
                (λ k seen. too_deep (ground (arith, same k seen, len))) settled)
        | inr short ↦ elim (Bool-cases (item.current == target)) [
          | inl at ↦
              let e = (eq_iff item.current target).0 at in
              let (m, r) = or_length-some s.shortest_len item.path in
              rw (short, at, process)
                (pop-IsSettled item s _ (found-Keeps item s h.depth.0 popped e)
                  (λ k seen. reached e m r) settled)
          | inr away ↦ elim (Bool-cases (is_too_long s.shortest_len item.path)) [
            | inl far ↦
                let (m, r, le) = too_long-some s.shortest_len item.path far in
                rw (short, away, far, process)
                  (pop-IsSettled item s s (Keeps-refl s)
                    (λ k seen. cut_off m r (omega (arith, same k seen, len, le))) settled)
            | inr near ↦
                let done = expand-Expanded item (edges_from g item.current) s popped.bounded in
                rw (short, away, near, process)
                  (pop-IsSettled item s _ (Grown-Keeps item s _ done.grown)
                    (λ k seen.
                      expanded (λ e. ground (arith, eq_iff item.current target))
                        (λ e m.
                          let (j, at, le) = done.seen e m in
                          (
                            j,
                            at,
                            omega (
                              arith,
                              Seen-unique _ item.current k d seen
                                  (done.grown.keeps item.current d at_d),
                              len,
                              le,
                            ),
                          )))
                    settled)
          ]
        ]
      ]
