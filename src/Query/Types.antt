-- ===== src/Query/Types.antt =====
-- server/domain/query.py and the records of server/orchestrator/query.py. A uuid is its text and a
-- timestamp a number; a duration that the program rounds to hundredths of a millisecond is their
-- number. A model's parameters are their names with the texts of their values.
use atlas_sql.Common.{
  ℕ, suc, String, Bool, true, false, ◌&&◌, Option, none, some, List, strip, is_blank, leb,
  if◌then◌else◌,
}
use Prim.Native.String.{[], ◌∷◌}

pub data QueryStatus : Type 0 where
  processing succeeded clarification_required rejected failed : QueryStatus

pub data QueryErrorCode : Type 0 where
  out_of_scope ambiguous_metric : QueryErrorCode
  llm_timeout llm_rate_limited llm_invalid_output llm_no_sql llm_provider_error : QueryErrorCode
  sql_parse_error sql_security_violation sql_out_of_scope : QueryErrorCode
  execution_timeout execution_busy execution_error : QueryErrorCode
  internal_error : QueryErrorCode

abbrev pub is_processing : QueryStatus → Bool
is_processing QueryStatus.processing = true
is_processing _ = false

-- A cell of a result: a number is the text that Python prints for it.
pub data QueryCell : Type 0 where
  null : QueryCell
  text number : String → QueryCell
  bool : Bool → QueryCell

pub record QueryColumn : Type 0 where
  pub name : String
  pub data_type : String

-- The status of a stage: "succeeded", "failed", or the status of the generation.
pub data StageStatus : Type 0 where
  stage_succeeded stage_failed : StageStatus
  of_query : QueryStatus → StageStatus

pub data StageName : Type 0 where
  scope generation validation execution : StageName

pub record QueryStageTrace : Type 0 where
  pub name : StageName
  pub status : StageStatus
  pub duration : Option ℕ

pub record QueryRequest : Type 0 where
  pub question : String
  pub session_id : String
  pub trace_id : Option String

pub record QueryContext : Type 0 where
  pub trace_id : String
  pub identity : String
  pub data_version : String
  pub schema_version : String
  pub model_version : String
  pub timeout_ms : ℕ
  pub metric_ids : List String

pub record QueryOutcome : Type 0 where
  pub status : QueryStatus
  pub sql : Option String
  pub columns : List QueryColumn
  pub rows : List (List QueryCell)
  pub error_code : Option QueryErrorCode
  pub error_message : Option String
  pub truncated : Bool
  pub prompt_version : Option String
  pub prompt_hash : Option String
  pub model_version : Option String
  pub model_parameters : Option (List (String × String))
  pub input_tokens : ℕ
  pub output_tokens : ℕ
  pub total_tokens : ℕ
  pub provider_request_id : Option String
  pub execution_time : Option ℕ
  pub referenced_tables : List String
  pub referenced_columns : List String
  pub stages : List QueryStageTrace
  pub summary : Option String

pub record QueryState : Type 0 where
  pub trace_id : String
  pub session_id : String
  pub identity : String
  pub question : String
  pub status : QueryStatus
  pub data_version : String
  pub schema_version : String
  pub model_version : String
  pub timeout_ms : ℕ
  pub created_at : ℕ
  pub updated_at : ℕ
  pub error_code : Option QueryErrorCode
  pub error_message : Option String
  pub sql : Option String
  pub columns : List QueryColumn
  pub rows : List (List QueryCell)
  pub truncated : Bool
  pub metric_ids : List String
  pub prompt_version : Option String
  pub prompt_hash : Option String
  pub model_parameters : List (String × String)
  pub input_tokens : ℕ
  pub output_tokens : ℕ
  pub total_tokens : ℕ
  pub provider_request_id : Option String
  pub execution_time : Option ℕ
  pub referenced_tables : List String
  pub referenced_columns : List String
  pub stages : List QueryStageTrace
  pub summary : Option String

pub record QueryError : Type 0 where
  pub code : QueryErrorCode
  pub message : String

pub record QueryTrace : Type 0 where
  pub trace_id : String
  pub identity : String
  pub status : QueryStatus
  pub data_version : String
  pub schema_version : String
  pub model_version : String
  pub timeout_ms : ℕ
  pub prompt_version : Option String
  pub prompt_hash : Option String
  pub model_parameters : List (String × String)
  pub input_tokens : ℕ
  pub output_tokens : ℕ
  pub total_tokens : ℕ
  pub execution_time : Option ℕ
  pub referenced_tables : List String
  pub referenced_columns : List String
  pub metric_ids : List String
  pub stages : List QueryStageTrace
  pub created_at : ℕ
  pub updated_at : ℕ

pub record MetricDefinitionBrief : Type 0 where
  pub metric_id : String
  pub label : String
  pub expression : String
  pub required_filters : List String
  pub time_role : String
  pub warning : Option String
  pub time_rule_note : Option String

pub record QueryResponse : Type 0 where
  pub question : String
  pub session_id : String
  pub trace_id : String
  pub status : QueryStatus
  pub sql : Option String
  pub columns : List QueryColumn
  pub rows : List (List QueryCell)
  pub error : Option QueryError
  pub truncated : Bool
  pub execution_time : Option ℕ
  pub summary : Option String
  pub referenced_tables : List String
  pub referenced_columns : List String
  pub metric_definitions : List MetricDefinitionBrief
  pub trace : QueryTrace

abbrev pub max_question_length : ℕ
max_question_length = 2000

abbrev pub max_session_length : ℕ
max_session_length = 128

-- len(s)
unfoldable pub text_length : String → ℕ
text_length [] = 0
text_length (c ∷ s) = suc (text_length s)

-- A field with length limits and a validator that strips it and refuses a blank.
unfoldable pub normalize : ℕ → String → Option String
unfolding strip text_length
normalize limit value =
    let normalized = strip value in
    if leb 1 (text_length value) && leb (text_length value) limit
    then (if is_blank normalized then none else some normalized)
    else none

-- QueryRequest: none is a validation error. `fresh` is the session id that the default makes.
unfoldable pub make_request : String → Option String → Option String → String → Option QueryRequest
unfolding normalize
make_request question session_id trace_id fresh = elim (normalize max_question_length question) [
  | none ↦ none
  | some q ↦ elim (session session_id) [
    | none ↦ none
    | some s ↦ some (record { question = q; session_id = s; trace_id = trace_id })
  ]
]
  where
    session : Option String → Option String
    session none = some fresh
    session (some s) = normalize max_session_length s
