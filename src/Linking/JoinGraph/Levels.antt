-- ===== src/Linking/JoinGraph/Levels.antt =====
-- The search goes through the tables level by level: the queue is sorted by the lengths of its
-- paths, which differ by at most one, and each path has the depth at which its end is visited.
use atlas_sql.Common.{
  ℕ, suc, ◌+◌, ◌≤◌, String, Bool, false, Option, none, some, List, [], ◌∷◌, ◌++◌, ◌≡◌, refl, sym,
  ap, ◌∙◌, subst, arith, eq_iff, All, All-append, All-map, IsSorted, is_empty, length, Bool-cases,
  inl, inr, ltb, leb, leb→le, lookup, ◌==◌, string_eq,
}
use atlas_sql.Linking.Relations.{JoinPath, build_path}
use atlas_sql.Linking.JoinGraph.{
  JoinGraph, Item, Search, edges_from, is_too_long, or_length, process, start,
}
use atlas_sql.Linking.JoinGraph.Growth.{Seen, IsBounded, Grown, Grown-IsBounded, expand-Expanded}

abbrev pub nearer : Item → Item → Bool
nearer i j = leb (length i.path) (length j.path)

abbrev pub IsAtDepth : Search → Item → Type 0
IsAtDepth s i = (k : ℕ) × Seen s i.current k × (length i.path ≡ suc k)

IsSorted-append :
    (m : ℕ) (q r : List Item)
    → IsSorted nearer q
    → All (λ i. length i.path ≤ m) q
    → All (λ i. length i.path ≡ m) r
    → IsSorted nearer (q ++ r)
IsSorted-append m [] [] h le e = tt
IsSorted-append m [] (i ∷ r) h le e =
    (All-map _ _ r (λ j h. ground arith) e.1, IsSorted-append m [] r tt tt e.1)
IsSorted-append m (i ∷ q) r h le e =
    (All-append _ q r h.0 (All-map _ _ r (λ j h. ground arith) e), IsSorted-append m q r h.1 le.1 e)

is_empty-snoc : (ps : List JoinPath) (p : JoinPath) → is_empty (ps ++ p ∷ []) ≡ false
is_empty-snoc [] p = refl
is_empty-snoc (q ∷ ps) p = refl

module _ (target : String) where
  abbrev pub IsAtTarget : Search → JoinPath → Type 0
  IsAtTarget s p = (k : ℕ) × Seen s target k × (length p.tables ≡ suc k)

  pub record IsLevelled (n : ℕ) (s : Search) : Type 0 where
    pub bounded : IsBounded s n
    pub low : All (λ (i : Item). n ≤ length i.path) s.queue
    pub high : All (λ (i : Item). length i.path ≤ suc n) s.queue
    pub sorted : IsSorted nearer s.queue
    pub depth : All (IsAtDepth s) s.queue
    pub found : All (IsAtTarget s) s.found_paths
    pub shortest : (m : ℕ) → s.shortest_len ≡ some m → (k : ℕ) × Seen s target k × (m ≡ suc k)
    pub not_empty : (m : ℕ) → s.shortest_len ≡ some m → is_empty s.found_paths ≡ false

  abbrev pub with_item : Item → Search → Search
  with_item item s = record s { queue = item ∷ s.queue }

  pub pop-IsLevelled :
      (n : ℕ) (item : Item) (s : Search)
      → IsLevelled n (with_item item s)
      → IsLevelled (length item.path) s
  pop-IsLevelled n item s h = record {
    bounded = λ t k seen. omega (arith, h.bounded t k seen, h.low.0);
    low = All-map _ _ s.queue (λ i le. leb→le (length item.path) (length i.path) le) h.sorted.0;
    high = All-map _ _ s.queue (λ i le. omega (arith, le, h.low.0)) h.high.1;
    sorted = h.sorted.1;
    depth = h.depth.1;
    found = h.found;
    shortest = h.shortest;
    not_empty = h.not_empty;
  }

  pub found-IsLevelled :
      (n : ℕ) (item : Item) (s : Search)
      → IsAtDepth s item
      → item.current ≡ target
      → IsLevelled n s
      → IsLevelled n (record s {
        found_paths = s.found_paths ++ build_path item.path item.edges ∷ [];
        shortest_len = or_length s.shortest_len item.path;
      })
  unfolding build_path
  found-IsLevelled n item s d e h =
      let at : Seen s target d.0 = subst (λ t. Seen s t d.0) e d.1 in
      record {
        bounded = h.bounded;
        low = h.low;
        high = h.high;
        sorted = h.sorted;
        depth = h.depth;
        found = All-append _ s.found_paths _ h.found ((d.0, at, d.2), tt);
        shortest = λ m eq. first m s.shortest_len refl at eq;
        not_empty = λ m eq. is_empty-snoc s.found_paths _;
      }
    where
      first :
          (m : ℕ) (o : Option ℕ)
          → s.shortest_len ≡ o
          → Seen s target d.0
          → or_length o item.path ≡ some m
          → (k : ℕ) × Seen s target k × (m ≡ suc k)
      first m none q at eq = (d.0, at, ground arith)
      first m (some l) q at eq = h.shortest m (q ∙ eq)

  pub Grown-IsLevelled :
      (item : Item) (s s' : Search)
      → Grown item s s'
      → IsLevelled (length item.path) s
      → IsLevelled (length item.path) s'
  Grown-IsLevelled item s s' g h = record {
    bounded = Grown-IsBounded item s s' g h.bounded;
    low = subst (All _) (sym g.queue) (
        All-append _ s.queue g.added h.low
          (All-map _ _ g.added (λ i d. omega (arith, d.0)) g.deeper));
    high = subst (All _) (sym g.queue) (
        All-append _ s.queue g.added h.high
          (All-map _ _ g.added (λ i d. omega (arith, d.0)) g.deeper));
    sorted = subst (IsSorted nearer) (sym g.queue) (
        IsSorted-append (suc (length item.path)) s.queue g.added h.sorted h.high
          (All-map _ _ g.added (λ i d. d.0) g.deeper));
    depth = subst (All _) (sym g.queue) (
        All-append _ s.queue g.added
          (All-map _ _ s.queue (λ i d. (d.0, g.keeps i.current d.0 d.1, d.2)) h.depth)
          (All-map _ _ g.added (λ i d. (length item.path, d.1, d.0)) g.deeper));
    found =
        subst (All _) (sym g.found)
          (All-map _ _ s.found_paths (λ p d. (d.0, g.keeps target d.0 d.1, d.2)) h.found);
    shortest = λ m e.
        let (k, at, same) = h.shortest m (sym g.shortest ∙ e) in (k, g.keeps target k at, same);
    not_empty = λ m e. ap is_empty g.found ∙ h.not_empty m (sym g.shortest ∙ e);
  }

  pub process-IsLevelled :
      (g : JoinGraph) (max_depth n : ℕ) (item : Item) (s : Search)
      → IsLevelled n (with_item item s)
      → IsLevelled (length item.path) (process g target max_depth item s)
  unfolding process
  process-IsLevelled g max_depth n item s h =
      let popped = pop-IsLevelled n item s h in
      elim (Bool-cases (ltb (max_depth + 1) (length item.path))) [
        | inl long ↦ rw (long, process) popped
        | inr short ↦ elim (Bool-cases (item.current == target)) [
          | inl at ↦
              rw (short, at, process)
                (found-IsLevelled (length item.path) item s h.depth.0
                  ((eq_iff item.current target).0 at) popped)
          | inr away ↦ elim (Bool-cases (is_too_long s.shortest_len item.path)) [
            | inl far ↦ rw (short, away, far, process) popped
            | inr near ↦
                rw (short, away, near, process)
                  (Grown-IsLevelled item s _
                    (expand-Expanded item (edges_from g item.current) s popped.bounded).grown
                    popped)
          ]
        ]
      ]

  -- A turn of the loop keeps the depths of the tables that were visited.
  pub process-Seen :
      (g : JoinGraph) (max_depth n : ℕ) (item : Item) (s : Search) (t : String) (k : ℕ)
      → IsLevelled n (with_item item s)
      → Seen s t k
      → Seen (process g target max_depth item s) t k
  unfolding process
  process-Seen g max_depth n item s t k h seen =
      let popped = pop-IsLevelled n item s h in
      let done = expand-Expanded item (edges_from g item.current) s popped.bounded in
      let later = done.grown.keeps t k seen in ground arith

  pub start-IsLevelled : (source : String) → IsLevelled 0 (start source)
  unfolding lookup
  start-IsLevelled source = record {
    bounded = λ t k seen. ground arith;
    low = (omega arith, tt);
    high = (omega arith, tt);
    sorted = (tt, tt);
    depth = ((0, rw (eq_iff source source).1 refl, refl), tt);
    found = tt;
    shortest = λ m e. absurd (ground arith);
    not_empty = λ m e. absurd (ground arith);
  }
