-- ===== src/Search/Hybrid.antt =====
-- server/search/hybrid.py: _merge_and_fuse, behind every search of HybridSearchRepository. The two
-- retrievers are arguments.
pub mod Merged
use atlas_sql.Common.{
  ℕ, Bool, true, false, not, ◌&&◌, none, some, List, [], if◌then◌else◌, take, length, String, ◌∷◌,
  Option,
}
use atlas_sql.Search.Candidates.{
  RetrievalStatus, Score, SearchResult, both_failed, CandidateSource, Candidate, degraded_by,
  counts,
}
use atlas_sql.Search.Fusion.{fuse, FusionSettings}

abbrev pub is_ok : RetrievalStatus → Bool
is_ok RetrievalStatus.failed = false
is_ok _ = true

module _ {W : Type 0} ⦃score : Score W⦄ where
  abbrev pub all_failed : SearchResult W → SearchResult W → SearchResult W
  all_failed b d = record {
    candidates = [];
    status = RetrievalStatus.failed;
    bm25_count = 0;
    dense_count = 0;
    degraded_source = none;
    trace_info = both_failed b.trace_info d.trace_info;
  }

  abbrev pub dense_alone : SearchResult W → SearchResult W → ℕ → SearchResult W
  dense_alone b d top_k = record {
    candidates = take top_k d.candidates;
    status = RetrievalStatus.degraded;
    bm25_count = 0;
    dense_count = length d.candidates;
    degraded_source = some CandidateSource.bm25;
    trace_info = degraded_by CandidateSource.bm25 b.trace_info;
  }

  abbrev pub bm25_alone : SearchResult W → SearchResult W → ℕ → SearchResult W
  bm25_alone b d top_k = record {
    candidates = take top_k b.candidates;
    status = RetrievalStatus.degraded;
    bm25_count = length b.candidates;
    dense_count = 0;
    degraded_source = some CandidateSource.dense;
    trace_info = degraded_by CandidateSource.dense d.trace_info;
  }

  abbrev pub both_fused : SearchResult W → SearchResult W → List (Candidate W) → SearchResult W
  both_fused b d cs = record {
    candidates = cs;
    status = RetrievalStatus.ok;
    bm25_count = length b.candidates;
    dense_count = length d.candidates;
    degraded_source = none;
    trace_info = counts (length b.candidates) (length d.candidates) (length cs);
  }

  -- _merge_and_fuse
  unfoldable pub merge_and_fuse :
      SearchResult W → SearchResult W → FusionSettings → ℕ → SearchResult W
  unfolding fuse
  merge_and_fuse b d fusion top_k =
      if not (is_ok b.status) && not (is_ok d.status)
      then all_failed b d
      else if not (is_ok b.status)
      then dense_alone b d top_k
      else if not (is_ok d.status)
      then bm25_alone b d top_k
      else both_fused b d (fuse fusion b.candidates d.candidates top_k)

-- The arguments of search_schema, search_values and search_verified_queries.
pub record SchemaQuery : Type 0 where
  pub query : String
  pub datasource_id : ℕ
  pub allowed_domains : List String
  pub object_types : Option (List String)
  pub metadata_version : Option String
  pub top_k : ℕ

pub record ValueQuery : Type 0 where
  pub value_text : String
  pub datasource_id : ℕ
  pub allowed_domains : List String
  pub column_ids : Option (List String)
  pub top_k : ℕ

pub record VerifiedQueriesQuery : Type 0 where
  pub query : String
  pub allowed_domains : List String
  pub top_k : ℕ

-- SearchRepository
pub record SearchRepository (W : Type 0) : Type 0 where
  pub search_schema : SchemaQuery → SearchResult W
  pub search_values : ValueQuery → SearchResult W
  pub search_verified_queries : VerifiedQueriesQuery → SearchResult W

-- The dense search of a value: its text is the query, for columns only.
abbrev pub as_schema_query : ValueQuery → SchemaQuery
as_schema_query q = record {
  query = q.value_text;
  datasource_id = q.datasource_id;
  allowed_domains = q.allowed_domains;
  object_types = some ("column" ∷ []);
  metadata_version = none;
  top_k = q.top_k;
}

-- HybridSearchRepository over the two retrievers.
unfoldable pub hybrid :
    {W : Type 0} ⦃score : Score W⦄
    → SearchRepository W
    → SearchRepository W
    → FusionSettings
    → SearchRepository W
unfolding merge_and_fuse
hybrid opensearch milvus fusion = record {
  search_schema =
      λ q. merge_and_fuse (opensearch.search_schema q) (milvus.search_schema q) fusion q.top_k;
  search_values = λ q.
      merge_and_fuse (opensearch.search_values q) (milvus.search_schema (as_schema_query q)) fusion
        q.top_k;
  search_verified_queries = λ q.
      merge_and_fuse (opensearch.search_verified_queries q) (milvus.search_verified_queries q)
        fusion q.top_k;
}
