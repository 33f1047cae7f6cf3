-- ===== src/Search/Tests.antt =====
-- Two searches and their fusion, and the theorems at them. The scores are numbers of 1 / 2520.
use atlas_sql.Common.{ℕ, ◌+◌, ◌/◌, String, false, none, List, [], ◌∷◌, leb, refl, ◌≡◌}
use atlas_sql.Search.Candidates.{
  Score, Payload, Candidate, CandidateSource, SearchResult, RetrievalStatus, no_info,
}
use atlas_sql.Search.Fusion.{FusionSettings, fuse}
use atlas_sql.Search.Fusion.Ranked.{doc_ids}

instance abbrev whole_scores : Score ℕ
whole_scores = record { nought = 0; plus = λ x y. x + y; one_over = λ n. 2520 / n; at_most = leb }

abbrev payload : Payload
payload = record {
  table_name = none;
  column_name = none;
  data_type = none;
  domain = none;
  business_name = none;
  manual_business_name = none;
  description = none;
  manual_description = none;
  raw_comment = none;
  is_primary_key = false;
  foreign_key_ref = none;
}

abbrev candidate : String → Candidate ℕ
candidate id = record {
  doc_id = id;
  object_type = "table";
  score = 1;
  source = CandidateSource.bm25;
  domain = "sales";
  datasource_id = 1;
  metadata_version = "v1";
  bm25_rank = none;
  dense_rank = none;
  payload = payload;
}

abbrev settings : FusionSettings
settings = record { k = 1; bm25_only = false; dense_only = false }

abbrev bm25_results : List (Candidate ℕ)
bm25_results = candidate "a" ∷ candidate "b" ∷ []

abbrev dense_results : List (Candidate ℕ)
dense_results = candidate "b" ∷ candidate "c" ∷ []

fused_test : doc_ids (fuse settings bm25_results dense_results 2) ≡ "b" ∷ "a" ∷ []
unfolding fuse atlas_sql.Common.sort
fused_test = refl

abbrev found : List (Candidate ℕ) → SearchResult ℕ
found cs = record {
  candidates = cs;
  status = RetrievalStatus.ok;
  bm25_count = 0;
  dense_count = 0;
  degraded_source = none;
  trace_info = no_info;
}
