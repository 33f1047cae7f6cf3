-- ===== src/Search/Hybrid/Merged.antt =====
-- What a hybrid search answers, by what its two searches answered.
use atlas_sql.Common.{ℕ, Bool, true, false, some, [], take, ◌≡◌, ◌≢◌}
use atlas_sql.Search.Candidates.{RetrievalStatus, Score, IsOrdered, SearchResult, CandidateSource}
use atlas_sql.Search.Fusion.{FusionSettings}
use atlas_sql.Search.Fusion.Ranked.{IsBestOf}

abbrev has_failed : RetrievalStatus → Bool
has_failed RetrievalStatus.failed = true
has_failed _ = false

module _ {W : Type 0} ⦃score : Score W⦄ (ordered : IsOrdered W) where
  -- Which of the four answers is given is decided by which of the searches failed.
  pub data IsMerged (fusion : FusionSettings) (b d : SearchResult W) (top_k : ℕ)
      (r : SearchResult W) : Type 0 where
    nothing :
        b.status ≡ RetrievalStatus.failed
        → d.status ≡ RetrievalStatus.failed
        → r.status ≡ RetrievalStatus.failed
        → r.candidates ≡ []
        → IsMerged fusion b d top_k r
    only_dense :
        b.status ≡ RetrievalStatus.failed
        → d.status ≢ RetrievalStatus.failed
        → r.status ≡ RetrievalStatus.degraded
        → r.degraded_source ≡ some CandidateSource.bm25
        → r.candidates ≡ take top_k d.candidates
        → IsMerged fusion b d top_k r
    only_bm25 :
        d.status ≡ RetrievalStatus.failed
        → b.status ≢ RetrievalStatus.failed
        → r.status ≡ RetrievalStatus.degraded
        → r.degraded_source ≡ some CandidateSource.dense
        → r.candidates ≡ take top_k b.candidates
        → IsMerged fusion b d top_k r
    both :
        b.status ≢ RetrievalStatus.failed
        → d.status ≢ RetrievalStatus.failed
        → r.status ≡ RetrievalStatus.ok
        → IsBestOf ordered fusion.k top_k b.candidates d.candidates r.candidates
        → IsMerged fusion b d top_k r
