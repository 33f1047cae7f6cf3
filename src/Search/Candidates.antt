-- ===== src/Search/Candidates.antt =====
-- server/search/repository.py: a candidate and the result of a search. A score is a number of some
-- type W; the program's are floating-point numbers.
use atlas_sql.Common.{ℕ, String, Bool, true, false, Option, List, ◌≡◌}

-- What the program does with scores: 0.0, +, 1.0 / n and <=.
pub record Score (W : Type 0) : Type 0 where
  pub nought : W
  pub plus : W → W → W
  pub one_over : ℕ → W
  pub at_most : W → W → Bool

-- The scores are totally ordered; for floating-point numbers, away from NaN, which no sum of
-- reciprocals of positive numbers is.
pub record IsOrdered (W : Type 0) ⦃score : Score W⦄ : Type 0 where
  pub total : (x y : W) → score.at_most x y ≡ false → score.at_most y x ≡ true
  pub trans :
      (x y z : W) → score.at_most x y ≡ true → score.at_most y z ≡ true → score.at_most x z ≡ true

pub data CandidateSource : Type 0 where
  bm25 dense rrf reranked : CandidateSource

pub data RetrievalStatus : Type 0 where
  ok degraded failed : RetrievalStatus

-- The fields of a document that the program reads; none is a field that is missing or None.
pub record Payload : Type 0 where
  pub table_name : Option String
  pub column_name : Option String
  pub data_type : Option String
  pub domain : Option String
  pub business_name : Option String
  pub manual_business_name : Option String
  pub description : Option String
  pub manual_description : Option String
  pub raw_comment : Option String
  pub is_primary_key : Bool
  pub foreign_key_ref : Option String

pub record Candidate (W : Type 0) : Type 0 where
  pub doc_id : String
  pub object_type : String
  pub score : W
  pub source : CandidateSource
  pub domain : String
  pub datasource_id : ℕ
  pub metadata_version : String
  pub bm25_rank : Option ℕ
  pub dense_rank : Option ℕ
  pub payload : Payload

-- trace_info
pub data TraceInfo : Type 0 where
  no_info : TraceInfo
  both_failed : TraceInfo → TraceInfo → TraceInfo
  degraded_by : CandidateSource → TraceInfo → TraceInfo
  counts : ℕ → ℕ → ℕ → TraceInfo

pub record SearchResult (W : Type 0) : Type 0 where
  pub candidates : List (Candidate W)
  pub status : RetrievalStatus
  pub bm25_count : ℕ
  pub dense_count : ℕ
  pub degraded_source : Option CandidateSource
  pub trace_info : TraceInfo
