-- ===== src/Query/Repository/Sql.antt =====
-- SQLAlchemyQueryRepository of server/query/repository.py, over the rows of QueryRecord
-- (server/query/models.py). A column of JSON holds the values that are put into it. The trace id is
-- unique: a second row with it is an IntegrityError.
pub mod Codes
pub mod Stored
use atlas_sql.Common.{
  ℕ, String, Bool, true, false, not, Option, none, some, List, [], ◌∷◌, ◌++◌, ◌==◌, string_eq,
  if◌then◌else◌, any, is_blank, find, update_where,
}
use atlas_sql.Query.Types.{
  QueryStatus, QueryErrorCode, QueryState, QueryColumn, QueryCell, QueryStageTrace,
}

-- The rows; failure_category, review_note and reviewed_at are of the review API.
pub record QueryRecord : Type 0 where
  pub trace_id : String
  pub session_id : String
  pub identity : String
  pub question : String
  pub status : QueryStatus
  pub error_code : Option String
  pub error_message : Option String
  pub sql : Option String
  pub columns : List QueryColumn
  pub rows : List (List QueryCell)
  pub truncated : Bool
  pub metric_ids : List String
  pub data_version : String
  pub schema_version : String
  pub model_version : String
  pub timeout_ms : ℕ
  pub prompt_version : Option String
  pub prompt_hash : Option String
  pub model_parameters : List (String × String)
  pub input_tokens : ℕ
  pub output_tokens : ℕ
  pub total_tokens : ℕ
  pub provider_request_id : Option String
  pub execution_time : Option ℕ
  pub referenced_tables : List String
  pub referenced_columns : List String
  pub stages : List QueryStageTrace
  pub summary : Option String
  pub created_at : ℕ
  pub updated_at : ℕ

-- QueryErrorCode.value
unfoldable pub code_value : QueryErrorCode → String
code_value QueryErrorCode.out_of_scope = "out_of_scope"
code_value QueryErrorCode.ambiguous_metric = "ambiguous_metric"
code_value QueryErrorCode.llm_timeout = "llm_timeout"
code_value QueryErrorCode.llm_rate_limited = "llm_rate_limited"
code_value QueryErrorCode.llm_invalid_output = "llm_invalid_output"
code_value QueryErrorCode.llm_no_sql = "llm_no_sql"
code_value QueryErrorCode.llm_provider_error = "llm_provider_error"
code_value QueryErrorCode.sql_parse_error = "sql_parse_error"
code_value QueryErrorCode.sql_security_violation = "sql_security_violation"
code_value QueryErrorCode.sql_out_of_scope = "sql_out_of_scope"
code_value QueryErrorCode.execution_timeout = "execution_timeout"
code_value QueryErrorCode.execution_busy = "execution_busy"
code_value QueryErrorCode.execution_error = "execution_error"
code_value QueryErrorCode.internal_error = "internal_error"

abbrev pub all_codes : List QueryErrorCode
all_codes =
    QueryErrorCode.out_of_scope ∷ QueryErrorCode.ambiguous_metric ∷ QueryErrorCode.llm_timeout
    ∷ QueryErrorCode.llm_rate_limited ∷ QueryErrorCode.llm_invalid_output
    ∷ QueryErrorCode.llm_no_sql ∷ QueryErrorCode.llm_provider_error ∷ QueryErrorCode.sql_parse_error
    ∷ QueryErrorCode.sql_security_violation ∷ QueryErrorCode.sql_out_of_scope
    ∷ QueryErrorCode.execution_timeout ∷ QueryErrorCode.execution_busy
    ∷ QueryErrorCode.execution_error ∷ QueryErrorCode.internal_error ∷ []

-- QueryErrorCode(value): none is the ValueError.
unfoldable pub code_of : String → Option QueryErrorCode
unfolding find code_value
code_of value = find (λ c. code_value c == value) all_codes

abbrev pub stored_code : Option QueryErrorCode → Option String
stored_code none = none
stored_code (some c) = some (code_value c)

-- _apply_state
unfoldable pub apply_state : QueryRecord → QueryState → QueryRecord
unfolding code_value
apply_state r s = record r {
  error_code = stored_code s.error_code;
  status = s.status;
  error_message = s.error_message;
  sql = s.sql;
  columns = s.columns;
  rows = s.rows;
  truncated = s.truncated;
  metric_ids = s.metric_ids;
  prompt_version = s.prompt_version;
  prompt_hash = s.prompt_hash;
  model_parameters = s.model_parameters;
  input_tokens = s.input_tokens;
  output_tokens = s.output_tokens;
  total_tokens = s.total_tokens;
  provider_request_id = s.provider_request_id;
  execution_time = s.execution_time;
  referenced_tables = s.referenced_tables;
  referenced_columns = s.referenced_columns;
  stages = s.stages;
  summary = s.summary;
  updated_at = s.updated_at;
}

-- A row before the state is applied to it; what the constructor is not given is the default.
abbrev pub fresh_record : QueryState → QueryRecord
fresh_record s = record {
  trace_id = s.trace_id;
  session_id = s.session_id;
  identity = s.identity;
  question = s.question;
  data_version = s.data_version;
  schema_version = s.schema_version;
  model_version = s.model_version;
  timeout_ms = s.timeout_ms;
  created_at = s.created_at;
  status = s.status;
  updated_at = s.updated_at;
  error_code = none;
  error_message = none;
  sql = none;
  columns = [];
  rows = [];
  truncated = false;
  metric_ids = [];
  prompt_version = none;
  prompt_hash = none;
  model_parameters = [];
  input_tokens = 0;
  output_tokens = 0;
  total_tokens = 0;
  provider_request_id = none;
  execution_time = none;
  referenced_tables = [];
  referenced_columns = [];
  stages = [];
  summary = none;
}

-- _record_from_state
unfoldable pub record_from_state : QueryState → QueryRecord
unfolding apply_state
record_from_state s = apply_state (fresh_record s) s

abbrev pub state_with : QueryRecord → Option QueryErrorCode → QueryState
state_with r code = record {
  error_code = code;
  trace_id = r.trace_id;
  session_id = r.session_id;
  identity = r.identity;
  question = r.question;
  data_version = r.data_version;
  schema_version = r.schema_version;
  model_version = r.model_version;
  timeout_ms = r.timeout_ms;
  created_at = r.created_at;
  status = r.status;
  error_message = r.error_message;
  sql = r.sql;
  columns = r.columns;
  rows = r.rows;
  truncated = r.truncated;
  metric_ids = r.metric_ids;
  prompt_version = r.prompt_version;
  prompt_hash = r.prompt_hash;
  model_parameters = r.model_parameters;
  input_tokens = r.input_tokens;
  output_tokens = r.output_tokens;
  total_tokens = r.total_tokens;
  provider_request_id = r.provider_request_id;
  execution_time = r.execution_time;
  referenced_tables = r.referenced_tables;
  referenced_columns = r.referenced_columns;
  stages = r.stages;
  summary = r.summary;
  updated_at = r.updated_at;
}

-- QueryErrorCode(record.error_code) if record.error_code else None
unfoldable pub read_code : Option String → Option (Option QueryErrorCode)
unfolding code_of
read_code none = some none
read_code (some value) =
    if is_blank value
    then some none
    else elim (code_of value) [ none ↦ none | some c ↦ some (some c) ]

-- _state_from_record: none is the ValueError.
unfoldable pub state_from_record : QueryRecord → Option QueryState
unfolding read_code
state_from_record r = elim (read_code r.error_code) [
  | none ↦ none
  | some code ↦ some (state_with r code)
]

abbrev pub Table : Type 0
Table = List QueryRecord

abbrev pub has_trace : String → QueryRecord → Bool
has_trace trace_id r = r.trace_id == trace_id

-- A call that raises leaves the rows as they are.
unfoldable pub create_record : QueryState → Table → Bool × Table
unfolding record_from_state
create_record s rows =
    if any (has_trace s.trace_id) rows
    then (false, rows)
    else (true, rows ++ record_from_state s ∷ [])

unfoldable pub update_record : QueryState → Table → Bool × Table
unfolding apply_state
update_record s rows =
    if any (has_trace s.trace_id) rows
    then (true, update_where (has_trace s.trace_id) (λ r. apply_state r s) rows)
    else (false, rows)

abbrev pub read_record : Option QueryRecord → Option (Option QueryState)
read_record none = some none
read_record (some r) = elim (state_from_record r) [ none ↦ none | some s ↦ some (some s) ]

-- none is an exception, some none is no row.
unfoldable pub get_record : String → Table → Option (Option QueryState)
unfolding state_from_record
get_record trace_id rows = read_record (find (has_trace trace_id) rows)
