-- ===== src/Query/Generation.antt =====
-- server/generation/sql.py: the parsing of the model's answer and the generation with its retries.
-- The decoding of JSON, the gateway and the prompt are arguments. none stands for an exception that
-- the code does not catch.
pub mod Retries
use atlas_sql.Common.{
  ℕ, zero, suc, ◌+◌, String, Bool, true, false, ◌&&◌, Option, none, some, List, [], is_blank, strip,
  leb, if◌then◌else◌,
}
use atlas_sql.Query.Types.{QueryStatus, QueryErrorCode, QueryOutcome, text_length}
use atlas_sql.Query.Execution.{Attempt, returned, refused, raised}

abbrev pub max_model_output_chars : ℕ
max_model_output_chars = 20000

abbrev pub max_sql_chars : ℕ
max_sql_chars = 10000

pub data Action : Type 0 where
  generate clarify reject : Action

pub record SqlGenerationPayload : Type 0 where
  pub action : Action
  pub sql : Option String
  pub reason : Option String

abbrev pub invalid_output : Attempt QueryErrorCode SqlGenerationPayload
invalid_output = refused QueryErrorCode.llm_invalid_output

-- The payload of an answer that generates SQL.
unfoldable pub check_sql :
    Option String → Option String → Attempt QueryErrorCode SqlGenerationPayload
check_sql none reason = refused QueryErrorCode.llm_no_sql
check_sql (some s) reason =
    if is_blank (strip s)
    then refused QueryErrorCode.llm_no_sql
    else if leb (text_length s) max_sql_chars
    then returned (record { action = generate; sql = some (strip s); reason = reason })
    else invalid_output

-- The payload of an answer that gives a reason.
unfoldable pub check_reason :
    Action → Option String → Option String → Attempt QueryErrorCode SqlGenerationPayload
check_reason a (some s) reason = invalid_output
check_reason a none none = invalid_output
check_reason a none (some r) =
    if is_blank (strip r)
    then invalid_output
    else returned (record { action = a; sql = none; reason = some r })

unfoldable pub check_payload : SqlGenerationPayload → Attempt QueryErrorCode SqlGenerationPayload
unfolding check_sql check_reason
check_payload p = elim p.action [
  | generate ↦ check_sql p.sql p.reason
  | clarify ↦ check_reason clarify p.sql p.reason
  | reject ↦ check_reason reject p.sql p.reason
]

-- json.loads and model_validate: refused is one of the exceptions that parse_sql_payload catches,
-- raised is any other.
abbrev pub Decoder : Type 0
Decoder = String → Attempt (Unit {0}) SqlGenerationPayload

unfoldable pub parse_sql_payload : Decoder → String → Attempt QueryErrorCode SqlGenerationPayload
unfolding check_payload text_length
parse_sql_payload decode output_text =
    if leb (text_length output_text) max_model_output_chars
    then elim (decode output_text) [
      | raised ↦ raised
      | refused _ ↦ invalid_output
      | returned p ↦ check_payload p
    ]
    else invalid_output

pub data LlmErrorKind : Type 0 where
  timeout rate_limit invalid_response configuration provider : LlmErrorKind

pub record LlmResponse : Type 0 where
  pub output_text : String
  pub input_tokens : ℕ
  pub output_tokens : ℕ
  pub total_tokens : ℕ
  pub provider_request_id : Option String
  pub model_version : Option String

pub data Reply : Type 0 where
  completed : LlmResponse → Reply
  gateway_error : LlmErrorKind → Bool → Reply

-- _Usage
pub record Usage : Type 0 where
  pub input_tokens : ℕ
  pub output_tokens : ℕ
  pub total_tokens : ℕ
  pub provider_request_id : Option String
  pub model_version : Option String

abbrev pub no_usage : Usage
no_usage = record {
  input_tokens = 0;
  output_tokens = 0;
  total_tokens = 0;
  provider_request_id = none;
  model_version = none;
}

abbrev pub add_usage : Usage → LlmResponse → Usage
add_usage u r = record {
  input_tokens = u.input_tokens + r.input_tokens;
  output_tokens = u.output_tokens + r.output_tokens;
  total_tokens = u.total_tokens + r.total_tokens;
  provider_request_id = r.provider_request_id;
  model_version = r.model_version;
}

unfoldable pub gateway_error_code : LlmErrorKind → QueryErrorCode
gateway_error_code timeout = QueryErrorCode.llm_timeout
gateway_error_code rate_limit = QueryErrorCode.llm_rate_limited
gateway_error_code invalid_response = QueryErrorCode.llm_invalid_output
gateway_error_code configuration = QueryErrorCode.llm_provider_error
gateway_error_code provider = QueryErrorCode.llm_provider_error

unfoldable pub safe_error_message : QueryErrorCode → Option String
safe_error_message QueryErrorCode.llm_timeout = some "模型调用超时，请稍后重试。"
safe_error_message QueryErrorCode.llm_rate_limited = some "模型服务繁忙，请稍后重试。"
safe_error_message QueryErrorCode.llm_invalid_output = some "模型返回格式无效，请重试。"
safe_error_message QueryErrorCode.llm_no_sql = some "模型未返回可用 SQL，请补充问题后重试。"
safe_error_message QueryErrorCode.llm_provider_error = some "模型服务暂时不可用，请稍后重试。"
safe_error_message _ = none
