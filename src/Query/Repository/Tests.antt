-- ===== src/Query/Repository/Tests.antt =====
-- Two states of one request in the rows of the control database.
use atlas_sql.Common.{ℕ, String, true, false, none, some, [], ◌∷◌, ◌≡◌, refl, string_eq, find}
use atlas_sql.Query.Types.{QueryState, QueryStatus, QueryErrorCode}
use atlas_sql.Query.Repository.Sql.{get_record, create_record, update_record}
use atlas_sql.Query.Repository.Sql.Stored.{kept_from, create_record-update_record}

abbrev before_run : QueryState
before_run = record {
  trace_id = "t1";
  session_id = "s1";
  identity = "ann";
  question = "各城市的净销售额";
  status = QueryStatus.processing;
  data_version = "v0.1.0";
  schema_version = "001";
  model_version = "pending";
  timeout_ms = 30000;
  created_at = 1;
  updated_at = 1;
  error_code = none;
  error_message = none;
  sql = none;
  columns = [];
  rows = [];
  truncated = false;
  metric_ids = [];
  prompt_version = none;
  prompt_hash = none;
  model_parameters = [];
  input_tokens = 0;
  output_tokens = 0;
  total_tokens = 0;
  provider_request_id = none;
  execution_time = none;
  referenced_tables = [];
  referenced_columns = [];
  stages = [];
  summary = none;
}

abbrev after_run : QueryState
after_run = record (before_run) {
  status = QueryStatus.failed;
  model_version = "model:1";
  error_code = some QueryErrorCode.execution_timeout;
  updated_at = 2;
}

-- The version of the model that ran is not in the row.
model_version_test :
    get_record "t1" (update_record after_run (create_record before_run []).1).1
    ≡ some (some (record (after_run) { model_version = "pending" }))
unfolding get_record update_record create_record atlas_sql.Common.update_where
model_version_test = refl

create_record-update_record_example :
    get_record "t1" (update_record after_run (create_record before_run []).1).1
    ≡ some (some (kept_from before_run after_run))
unfolding create_record
create_record-update_record_example =
    create_record-update_record before_run after_run [] "t1" refl refl
