-- ===== src/Query/Scope/Relevance.antt =====
-- Which tables and metrics a question is taken to be about.
use atlas_sql.Common.{
  inl, inr, String, Bool, true, not, ◌&&◌, ◌||◌, some, List, [], ◌∷◌, map, ◌≡◌, refl, sym, ◌∙◌,
  arith, eq_iff, ◌==◌, string_eq, any, filter, contains, dedup, text_leb, contains-any,
  contains-append, contains-dedup, any-sort, Among, is_blank, ◌⊎◌, Bool-cases, any-Among, ◌↔◌,
  contains_text, false, any-find, ap, subst,
}
use atlas_sql.Query.Scope.{
  allowed_columns, table_keywords, anchor_tables, hit_tables, extra_tables, with_fallback,
  select_relevant_tables, is_mentioned, resolve_metric_ids, mentions, is_hit,
}
use atlas_sql.Semantic.Registry.{MetricEntry, SemanticRegistry, all_metrics}

abbrev pub allowed_tables : List String
allowed_tables = map (λ t. t.0) allowed_columns

-- A table that is hit has an entry among the keywords.
hit_tables-listed :
    (q : String) (ks : List (String × List String)) (t : String)
    → contains (hit_tables q ks) t ≡ true
    → contains (map (λ k. k.0) ks) t ≡ true
hit_tables-listed q [] t h = h
hit_tables-listed q ((j, kws) ∷ ks) t h = ground (arith, hit_tables-listed q ks t)

contains-extra :
    (xs : List String) (t : String)
    → contains (filter (λ x. not (contains anchor_tables x)) xs) t
      ≡ (contains xs t && not (contains anchor_tables t))
contains-extra [] t = refl
contains-extra (x ∷ xs) t = ground (arith, contains-extra xs t, eq_iff x t)

same_tables : map (λ k. k.0) table_keywords ≡ allowed_tables
unfolding table_keywords allowed_columns
same_tables = refl

anchors_allowed : (t : String) → contains anchor_tables t ≡ true → contains allowed_tables t ≡ true
unfolding allowed_columns
anchors_allowed t h = ground (arith, eq_iff "fact_order" t, eq_iff "dim_store" t)

extra_allowed :
    (q t : String) → contains (extra_tables q) t ≡ true → contains allowed_tables t ≡ true
unfolding extra_tables
extra_allowed q t h = rw (← same_tables) (
    hit_tables-listed q table_keywords t
      (ground (arith, contains-extra (hit_tables q table_keywords) t)))

with_fallback-allowed :
    (xs : List String) (t : String)
    → (contains xs t ≡ true → contains allowed_tables t ≡ true)
    → contains (with_fallback xs) t ≡ true
    → contains allowed_tables t ≡ true
unfolding with_fallback
with_fallback-allowed [] t k h = h
with_fallback-allowed (x ∷ xs) t k h =
    ground (arith, contains-append anchor_tables (x ∷ xs) t, anchors_allowed t)

-- Every table that is selected for a question stands in the allow list.
pub select_relevant_tables-allowed :
    (q t : String) → contains (select_relevant_tables q) t ≡ true → contains allowed_tables t ≡ true
select_relevant_tables-allowed q t h =
    with_fallback-allowed (extra_tables q) t (extra_allowed q t)
      (unfold select_relevant_tables in h)

with_fallback-keeps :
    (xs : List String) (t : String)
    → (contains xs t ≡ true → contains allowed_tables t ≡ true)
    → (contains anchor_tables t || contains xs t) ≡ true
    → contains (with_fallback xs) t ≡ true
unfolding with_fallback
with_fallback-keeps [] t k h = ground (arith, anchors_allowed t)
with_fallback-keeps (x ∷ xs) t k h = ground (arith, contains-append anchor_tables (x ∷ xs) t)

hit_tables-keyword :
    (q t kw : String) (kws : List String) (ks : List (String × List String))
    → Among (t, kws) ks
    → Among kw kws
    → contains_text kw q ≡ true
    → contains (hit_tables q ks) t ≡ true
hit_tables-keyword q t kw kws [] m n h = absurd m
hit_tables-keyword q t kw kws ((u, ws) ∷ ks) (inl e) n h =
    let same : t ≡ u = ap (λ (k : String × List String). k.0) e in
    let hit : is_hit q ws ≡ true =
      subst (λ (k : String × List String). is_hit q k.1 ≡ true) e
        (any-Among (λ w. contains_text w q) kws kw n h) in
    ground (arith, eq_iff u t)
hit_tables-keyword q t kw kws ((u, ws) ∷ ks) (inr m) n h =
    ground (arith, hit_tables-keyword q t kw kws ks m n h)

-- The two tables that are always needed are selected, and so is every table that has a keyword that
-- stands in the question.
pub select_relevant_tables_complete :
    (q t : String)
    → Among t anchor_tables
      ⊎ ((kws : List String) × (kw : String) × Among (t, kws) table_keywords
          × Among kw kws
          × (contains_text kw q ≡ true))
    → contains (select_relevant_tables q) t ≡ true
unfolding select_relevant_tables extra_tables
select_relevant_tables_complete q t h =
    with_fallback-keeps (extra_tables q) t (extra_allowed q t) (needed h)
  where
    needed :
        Among t anchor_tables
          ⊎ ((kws : List String) × (kw : String) × Among (t, kws) table_keywords
              × Among kw kws
              × (contains_text kw q ≡ true))
        → (contains anchor_tables t || contains (extra_tables q) t) ≡ true
    needed (inl (inl e)) = ground (arith, eq_iff "fact_order" t)
    needed (inl (inr (inl e))) = ground (arith, eq_iff "dim_store" t)
    needed (inl (inr (inr x))) = elim x [ ]
    needed (inr (kws, kw, m, n, k)) = ground (
      arith,
      contains-extra (hit_tables q table_keywords) t,
      hit_tables-keyword q t kw kws table_keywords m n k,
    )

contains-ids :
    (p : MetricEntry → Bool) (es : List MetricEntry) (id : String)
    → contains (map (λ e. e.metric_id) (filter p es)) id ≡ any (λ e. e.metric_id == id && p e) es
contains-ids p [] id = refl
contains-ids p (e ∷ es) id = ground (arith, contains-ids p es id)

module _ (q : String) where
  -- A text that is not empty and stands in the question.
  abbrev pub IsNamed : String → Type 0
  IsNamed s = (is_blank s ≡ false) × (contains_text s q ≡ true)

  -- The question names the metric by its label or by one of its synonyms.
  abbrev pub Names : MetricEntry → Type 0
  Names e = IsNamed e.label ⊎ ((s : String) × Among s e.synonyms × IsNamed s)

  mentions-IsNamed : (s : String) → mentions q s ≡ true → IsNamed s
  mentions-IsNamed s h = (ground arith, ground arith)

  is_mentioned-Names : (e : MetricEntry) → is_mentioned q e ≡ true → Names e
  is_mentioned-Names e h = elim (Bool-cases (mentions q e.label)) [
    | inl label ↦ inl (mentions-IsNamed e.label label)
    | inr other ↦
        let (s, m, k) = any-find (mentions q) e.synonyms (ground arith) in
        inr (s, m, mentions-IsNamed s k)
  ]

  Names-is_mentioned : (e : MetricEntry) → Names e → is_mentioned q e ≡ true
  Names-is_mentioned e (inl (full, h)) = ground arith
  Names-is_mentioned e (inr (s, m, named)) =
      let (full, h) = named in
      let mentioned : mentions q s ≡ true = ground arith in
      ground (arith, any-Among (mentions q) e.synonyms s m mentioned)

  resolve_metric_ids-any :
      (r : SemanticRegistry) (id : String)
      → contains (resolve_metric_ids q (some r)) id
        ≡ any (λ e. e.metric_id == id && is_mentioned q e) (all_metrics r)
  unfolding resolve_metric_ids
  resolve_metric_ids-any r id =
      contains-any _ id
      ∙ any-sort text_leb (λ x. x == id) (dedup _)
      ∙ sym (contains-any _ id)
      ∙ contains-dedup _ id
      ∙ contains-ids (is_mentioned q) (all_metrics r) id

  -- With a registry, a question is about a metric exactly if the registry has an entry of that id
  -- of which the label or a synonym, not empty, stands in the question.
  pub resolve_metric_ids-exact :
      (r : SemanticRegistry) (id : String)
      → (contains (resolve_metric_ids q (some r)) id ≡ true)
        ↔ ((e : MetricEntry) × Among e (all_metrics r) × (e.metric_id ≡ id) × Names e)
  resolve_metric_ids-exact r id = (
    λ h.
        let (e, m, k) =
          any-find (λ e. e.metric_id == id && is_mentioned q e) (all_metrics r)
            (sym (resolve_metric_ids-any r id) ∙ h) in
        (e, m, ground (arith, eq_iff e.metric_id id), is_mentioned-Names e (ground arith)),
    λ t.
        let (e, m, same, named) = t in
        resolve_metric_ids-any r id
        ∙ any-Among (λ e. e.metric_id == id && is_mentioned q e) (all_metrics r) e m
            (ground (arith, eq_iff e.metric_id id, Names-is_mentioned e named)),
  )
