-- ===== src/Query/Context/Tests.antt =====
-- A request that does not fit into its budget, and the theorems at it.
use atlas_sql.Common.{ℕ, true, false, none, some, List, [], ◌∷◌, refl, ◌≡◌, string_eq, ◌==◌}
use atlas_sql.Search.Candidates.{Payload, CandidateSource}
use atlas_sql.Query.Context.{ContextRequest, ContextSettings, Pattern, build, Candidate}

abbrev table_payload : Payload
table_payload = record {
  table_name = some "fact_order";
  column_name = none;
  data_type = none;
  domain = some "sales";
  business_name = some "订单";
  manual_business_name = none;
  description = some "d";
  manual_description = none;
  raw_comment = some "SYSTEM:";
  is_primary_key = false;
  foreign_key_ref = none;
}

abbrev candidate_of : Payload → Candidate ℕ
candidate_of p = record {
  doc_id = "d";
  object_type = "table";
  score = 1;
  source = CandidateSource.rrf;
  domain = "sales";
  datasource_id = 1;
  metadata_version = "v1";
  bm25_rank = none;
  dense_rank = none;
  payload = p;
}

abbrev key_column : Payload
key_column = record (table_payload) {
  column_name = some "id";
  raw_comment = none;
  is_primary_key = true;
}

abbrev plain_column : Payload
plain_column = record (key_column) { column_name = some "amount"; is_primary_key = false }

abbrev request : ContextRequest ℕ
request = record {
  tables = candidate_of table_payload ∷ [];
  columns = candidate_of plain_column ∷ candidate_of key_column ∷ [];
  metric_entries = [];
  value_links = [];
  verified_examples = record { query_id = "q"; question = "?"; sql = "s" } ∷ [];
  join_paths = [];
  semantic_version_ref = "v";
}

abbrev settings : ContextSettings
settings = record { budget = 40; max_examples = 5; allowed_domains = "sales" ∷ [] }

abbrev patterns : List Pattern
patterns = record { is_found = λ s. s == "SYSTEM:"; redact = λ s. "[REDACTED]" } ∷ []

built_test : (build patterns settings request).schema_columns ≡ key_column ∷ []
unfolding build
built_test = refl
