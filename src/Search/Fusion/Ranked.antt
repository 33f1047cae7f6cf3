-- ===== src/Search/Fusion/Ranked.antt =====
-- The fused documents are ranked, distinct, and those of the two searches.
use atlas_sql.Common.{
  ℕ, String, ◌||◌, List, [], ◌∷◌, map, ◌==◌, string_eq, if◌then◌else◌, lookup, insert, has_key, All,
  contains, IsDistinct, IsSorted, keys, keys-insert, keys-insert-IsDistinct, All-insert,
  has_key-keys, Bool-cases, ◌≡◌, inl, inr, refl, sym, ◌∙◌, ap, arith, eq_iff, either_branch, Bool,
  sort, ◌++◌, contains-map-any, sort-IsSorted, length, any-sort, sort-IsDistinct, min, false, subst,
  take-drop, All-sort, drop, All-mapped, length-take, All-map,
}
use atlas_sql.Search.Candidates.{Score, Candidate, IsOrdered}
use atlas_sql.Search.Fusion.{
  put_all, put_new, ranks_of, before_in_rank, fused, rrf_score, collect, ranking, fuse,
  FusionSettings,
}

module _ {W : Type 0} ⦃score : Score W⦄ where
  abbrev pub doc_ids : List (Candidate W) → List String
  doc_ids cs = map (λ (c : Candidate W). c.doc_id) cs

  -- The dictionary has every id once, and each document under its own id.
  record IsIndex (d : List (String × Candidate W)) : Type 0 where
    distinct : IsDistinct (keys d)
    named : All (λ e. e.1.doc_id ≡ e.0) d

  insert-IsIndex :
      (c : Candidate W) (d : List (String × Candidate W))
      → IsIndex d
      → IsIndex (insert c.doc_id c d)
  insert-IsIndex c d h = record {
    distinct = keys-insert-IsDistinct c.doc_id c d h.distinct;
    named = All-insert (λ e. e.1.doc_id ≡ e.0) c.doc_id c d refl h.named;
  }

  put_all-IsIndex :
      (cs : List (Candidate W)) (d : List (String × Candidate W))
      → IsIndex d
      → IsIndex (put_all cs d)
  unfolding put_all
  put_all-IsIndex [] d h = h
  put_all-IsIndex (c ∷ cs) d h = put_all-IsIndex cs (insert c.doc_id c d) (insert-IsIndex c d h)

  put_new-IsIndex :
      (cs : List (Candidate W)) (d : List (String × Candidate W))
      → IsIndex d
      → IsIndex (put_new cs d)
  unfolding put_new
  put_new-IsIndex [] d h = h
  put_new-IsIndex (c ∷ cs) d h =
      put_new-IsIndex cs (if has_key c.doc_id d then d else insert c.doc_id c d) (
        either_branch (λ (e : List (String × Candidate W)). IsIndex e) _ _ _ h
          (insert-IsIndex c d h))

  keys-put_all :
      (cs : List (Candidate W)) (d : List (String × Candidate W)) (x : String)
      → contains (keys (put_all cs d)) x ≡ (contains (doc_ids cs) x || contains (keys d) x)
  unfolding put_all
  keys-put_all [] d x = refl
  keys-put_all (c ∷ cs) d x =
      keys-put_all cs (insert c.doc_id c d) x ∙ ground (arith, keys-insert c.doc_id x c d)

  keys-put_one :
      (c : Candidate W) (d : List (String × Candidate W)) (x : String)
      → contains (keys (if has_key c.doc_id d then d else insert c.doc_id c d)) x
        ≡ (c.doc_id == x || contains (keys d) x)
  keys-put_one c d x = elim (Bool-cases (has_key c.doc_id d)) [
    | inl e ↦ rw e (ground (arith, eq_iff c.doc_id x, has_key-keys c.doc_id d))
    | inr e ↦ rw e (keys-insert c.doc_id x c d)
  ]

  keys-put_new :
      (cs : List (Candidate W)) (d : List (String × Candidate W)) (x : String)
      → contains (keys (put_new cs d)) x ≡ (contains (doc_ids cs) x || contains (keys d) x)
  unfolding put_new
  keys-put_new [] d x = refl
  keys-put_new (c ∷ cs) d x =
      keys-put_new cs (if has_key c.doc_id d then d else insert c.doc_id c d) x
      ∙ ground (arith, keys-put_one c d x)

  -- Scored by its ranks in the two searches.
  pub record IsScored (k : ℕ) (bs ds : List (Candidate W)) (c : Candidate W) : Type 0 where
    pub bm25_rank : c.bm25_rank ≡ lookup c.doc_id (ranks_of bs)
    pub dense_rank : c.dense_rank ≡ lookup c.doc_id (ranks_of ds)
    pub value : c.score ≡ rrf_score k c.bm25_rank c.dense_rank

  -- The documents of both searches: each once, with its score, the best first.
  pub record IsRanking (k : ℕ) (bs ds cs : List (Candidate W)) : Type 0 where
    pub sorted : IsSorted before_in_rank cs
    pub distinct : IsDistinct (doc_ids cs)
    pub same :
        (x : String)
        → contains (doc_ids cs) x ≡ (contains (doc_ids bs) x || contains (doc_ids ds) x)
    pub scored : All (IsScored k bs ds) cs

  doc_ids-fused :
      (k : ℕ) (br dr : List (String × ℕ)) (d : List (String × Candidate W))
      → All (λ e. e.1.doc_id ≡ e.0) d
      → doc_ids (map (fused k br dr) d) ≡ keys d
  doc_ids-fused k br dr [] h = refl
  doc_ids-fused k br dr (e ∷ d) h = rw (h.0, doc_ids-fused k br dr d h.1) refl

  fused-IsScored :
      (k : ℕ) (bs ds : List (Candidate W)) (e : String × Candidate W)
      → e.1.doc_id ≡ e.0
      → IsScored k bs ds (fused k (ranks_of bs) (ranks_of ds) e)
  fused-IsScored k bs ds e h = record {
    bm25_rank = ap (λ i. lookup i (ranks_of bs)) (sym h);
    dense_rank = ap (λ i. lookup i (ranks_of ds)) (sym h);
    value = refl;
  }

  empty-IsIndex : IsIndex []
  empty-IsIndex = record { distinct = tt; named = tt }

  contains-collect :
      (bs ds : List (Candidate W)) (x : String)
      → contains (keys (collect bs ds)) x ≡ (contains (doc_ids bs) x || contains (doc_ids ds) x)
  unfolding collect
  contains-collect bs ds x =
      keys-put_new ds (put_all bs []) x ∙ ground (arith, keys-put_all bs [] x)

  collect-IsIndex : (bs ds : List (Candidate W)) → IsIndex (collect bs ds)
  unfolding collect
  collect-IsIndex bs ds = put_new-IsIndex ds (put_all bs []) (put_all-IsIndex bs [] empty-IsIndex)

  contains-sorted :
      (le : Candidate W → Candidate W → Bool) (cs : List (Candidate W)) (x : String)
      → contains (doc_ids (sort le cs)) x ≡ contains (doc_ids cs) x
  contains-sorted le cs x =
      contains-map-any (λ (c : Candidate W). c.doc_id) (sort le cs) x
      ∙ any-sort le (λ (c : Candidate W). c.doc_id == x) cs
      ∙ sym (contains-map-any (λ (c : Candidate W). c.doc_id) cs x)

  module _ (ordered : IsOrdered W) where
    pub ranking-IsRanking :
        (k : ℕ) (bs ds : List (Candidate W)) → IsRanking k bs ds (ranking k bs ds)
    unfolding ranking
    ranking-IsRanking k bs ds =
        let br = ranks_of bs in
        let dr = ranks_of ds in
        let index = collect-IsIndex bs ds in
        let documents = map (fused k br dr) (collect bs ds) in
        let ids = doc_ids-fused k br dr (collect bs ds) index.named in
        record {
          sorted =
              sort-IsSorted before_in_rank (λ c d. ordered.total d.score c.score)
                (λ c d e h g. ordered.trans e.score d.score c.score g h) documents;
          distinct =
              sort-IsDistinct before_in_rank (λ (c : Candidate W). c.doc_id) documents
                (subst IsDistinct (sym ids) index.distinct);
          same = λ x.
              contains-sorted before_in_rank documents x
              ∙ ap (λ l. contains l x) ids
              ∙ contains-collect bs ds x;
          scored = All-sort before_in_rank (IsScored k bs ds) documents (
              All-mapped (fused k br dr) (IsScored k bs ds) (collect bs ds)
                (All-map _ _ (collect bs ds) (fused-IsScored k bs ds) index.named));
        }

    -- The first documents of such a ranking, and those that were left out.
    pub record IsBestOf (k top_k : ℕ) (bs ds cs : List (Candidate W)) : Type 0 where
      pub left_out : List (Candidate W)
      pub ranked : IsRanking k bs ds (cs ++ left_out)
      pub counted : length cs ≡ min top_k (length (cs ++ left_out))

    -- Where neither search is switched off, the fusion gives the first top_k documents, or all if
    -- they are fewer, of a ranking that has every document of the two searches once, under the score
    -- of its ranks in them, the best score first. The scores are totally ordered.
    pub fuse-IsBestOf :
        (s : FusionSettings) (bs ds : List (Candidate W)) (top_k : ℕ)
        → (s.bm25_only || s.dense_only) ≡ false
        → IsBestOf s.k top_k bs ds (fuse s bs ds top_k)
    unfolding fuse
    fuse-IsBestOf s bs ds top_k h =
        let whole = take-drop top_k (ranking s.k bs ds) in
        let is_bm25 : s.bm25_only ≡ false = ground arith in
        let is_dense : s.dense_only ≡ false = ground arith in
        rw (is_bm25, is_dense)
          (record {
            left_out = drop top_k (ranking s.k bs ds);
            ranked = subst (IsRanking s.k bs ds) (sym whole) (ranking-IsRanking s.k bs ds);
            counted =
                length-take top_k (ranking s.k bs ds) ∙ ap (λ l. min top_k (length l)) (sym whole);
          })
