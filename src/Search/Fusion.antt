-- ===== src/Search/Fusion.antt =====
-- server/search/fusion.py: RRFFusion.
pub mod Ranked
use atlas_sql.Common.{
  ℕ, suc, ◌+◌, String, Bool, true, false, Option, none, some, List, [], ◌∷◌, map, if◌then◌else◌,
  take, sort, lookup, insert, has_key, ltb,
}
use atlas_sql.Search.Candidates.{Score, Candidate, CandidateSource}

module _ {W : Type 0} ⦃score : Score W⦄ where
  -- _tag_and_slice
  abbrev pub tag_and_slice : List (Candidate W) → CandidateSource → ℕ → List (Candidate W)
  tag_and_slice cs source top_k =
      map (λ (c : Candidate W). record c { source = source }) (take top_k cs)

  -- {c.doc_id: i + 1 for i, c in enumerate(candidates)}, with the entries that are there already
  unfoldable pub ranks_from : ℕ → List (Candidate W) → List (String × ℕ) → List (String × ℕ)
  unfolding insert
  ranks_from i [] d = d
  ranks_from i (c ∷ cs) d = ranks_from (suc i) cs (insert c.doc_id (suc i) d)

  abbrev pub ranks_of : List (Candidate W) → List (String × ℕ)
  ranks_of cs = ranks_from 0 cs []

  -- all_candidates[c.doc_id] = c
  unfoldable pub put_all :
      List (Candidate W) → List (String × Candidate W) → List (String × Candidate W)
  unfolding insert
  put_all [] d = d
  put_all (c ∷ cs) d = put_all cs (insert c.doc_id c d)

  -- The same, where the id is new.
  unfoldable pub put_new :
      List (Candidate W) → List (String × Candidate W) → List (String × Candidate W)
  unfolding insert lookup
  put_new [] d = d
  put_new (c ∷ cs) d = put_new cs (if has_key c.doc_id d then d else insert c.doc_id c d)

  unfoldable pub collect : List (Candidate W) → List (Candidate W) → List (String × Candidate W)
  unfolding put_all put_new
  collect bm25_candidates dense_candidates = put_new dense_candidates (put_all bm25_candidates [])

  -- rrf_score += 1.0 / (k + rank), where there is a rank
  abbrev pub plus_rank : ℕ → Option ℕ → W → W
  plus_rank k none w = w
  plus_rank k (some rank) w = score.plus w (score.one_over (k + rank))

  abbrev pub rrf_score : ℕ → Option ℕ → Option ℕ → W
  rrf_score k bm25_rank dense_rank = plus_rank k dense_rank (plus_rank k bm25_rank score.nought)

  -- A document with its score and its ranks.
  abbrev pub fused : ℕ → List (String × ℕ) → List (String × ℕ) → String × Candidate W → Candidate W
  fused k bm25_ranks dense_ranks e = record e.1 {
    score = rrf_score k (lookup e.0 bm25_ranks) (lookup e.0 dense_ranks);
    source = CandidateSource.rrf;
    bm25_rank = lookup e.0 bm25_ranks;
    dense_rank = lookup e.0 dense_ranks;
  }

  -- sort(key=score, reverse=True), which leaves equal scores in their order
  abbrev pub before_in_rank : Candidate W → Candidate W → Bool
  before_in_rank c d = score.at_most d.score c.score

  -- The documents of both searches, by their scores.
  unfoldable pub ranking : ℕ → List (Candidate W) → List (Candidate W) → List (Candidate W)
  unfolding collect ranks_from
  ranking k bm25_candidates dense_candidates = sort before_in_rank (
      map (fused k (ranks_of bm25_candidates) (ranks_of dense_candidates))
        (collect bm25_candidates dense_candidates))

-- The settings of RRFFusion.
pub record FusionSettings : Type 0 where
  pub k : ℕ
  pub bm25_only : Bool
  pub dense_only : Bool

-- RRFFusion(...): none is the ValueError.
unfoldable pub make_fusion : ℕ → Bool → Bool → Option FusionSettings
make_fusion k bm25_only dense_only =
    if ltb 0 k
    then some (record { k = k; bm25_only = bm25_only; dense_only = dense_only })
    else none

module _ {W : Type 0} ⦃score : Score W⦄ where
  -- RRFFusion.fuse
  unfoldable pub fuse :
      FusionSettings → List (Candidate W) → List (Candidate W) → ℕ → List (Candidate W)
  unfolding ranking
  fuse s bm25_candidates dense_candidates top_k =
      if s.bm25_only
      then tag_and_slice bm25_candidates CandidateSource.rrf top_k
      else if s.dense_only
      then tag_and_slice dense_candidates CandidateSource.rrf top_k
      else take top_k (ranking s.k bm25_candidates dense_candidates)
