-- ===== src/Query/Generation/Retries.antt =====
-- server/generation/sql.py: BaselineSQLGenerationPipeline. The gateway answers the attempts in
-- turn; `deadline` holds the usage at the moment at which the time of the whole generation runs
-- out, where it does.
pub mod Honest
use atlas_sql.Common.{
  ℕ, zero, suc, ◌+◌, String, Bool, true, false, Option, none, some, List, [], ◌==◌, string_eq,
  if◌then◌else◌,
}
use atlas_sql.Query.Types.{QueryStatus, QueryErrorCode, QueryOutcome}
use atlas_sql.Query.Execution.{Attempt, returned, refused, raised}
use atlas_sql.Query.Generation.{
  Action, SqlGenerationPayload, Decoder, parse_sql_payload, Reply, completed, gateway_error, Usage,
  no_usage, add_usage, gateway_error_code, safe_error_message,
}

-- What a generation is given: the prompt that was built, the model, the decoder and the gateway.
pub record GenerationSettings : Type 0 where
  pub prompt_version : String
  pub prompt_hash : String
  pub model_version : String
  pub model_parameters : List (String × String)
  pub max_retries : ℕ
  pub decode : Decoder
  pub gateway : ℕ → Reply

abbrev model_version_of : GenerationSettings → Usage → String
model_version_of cfg u = elim u.model_version [
  | none ↦ cfg.model_version
  | some v ↦ if v == "" then cfg.model_version else v
]

module _ (cfg : GenerationSettings) where
  abbrev pub outcome_with :
      QueryStatus → Option String → Option QueryErrorCode → Option String → Usage → QueryOutcome
  outcome_with status sql code message u = record {
    status = status;
    sql = sql;
    columns = [];
    rows = [];
    error_code = code;
    error_message = message;
    truncated = false;
    prompt_version = some cfg.prompt_version;
    prompt_hash = some cfg.prompt_hash;
    model_version = some (model_version_of cfg u);
    model_parameters = some cfg.model_parameters;
    input_tokens = u.input_tokens;
    output_tokens = u.output_tokens;
    total_tokens = u.total_tokens;
    provider_request_id = u.provider_request_id;
    execution_time = none;
    referenced_tables = [];
    referenced_columns = [];
    stages = [];
    summary = none;
  }

  -- _success
  unfoldable pub success : SqlGenerationPayload → Usage → QueryOutcome
  success p u = elim p.action [
    | Action.generate ↦ outcome_with QueryStatus.processing p.sql none none u
    | Action.clarify ↦
        outcome_with QueryStatus.clarification_required none (some QueryErrorCode.ambiguous_metric)
          (some "问题存在歧义，请补充指标口径或查询范围。") u
    | Action.reject ↦
        outcome_with QueryStatus.rejected none (some QueryErrorCode.out_of_scope)
          (some "该问题不在 V1 固定 Sales 查询范围内。") u
  ]

  -- _failure, with the safe message of the code.
  unfoldable pub failure : QueryErrorCode → Usage → Option QueryOutcome
  unfolding safe_error_message
  failure code u = elim (safe_error_message code) [
    | none ↦ none
    | some message ↦ some (outcome_with QueryStatus.failed none (some code) (some message) u)
  ]

  -- The payload of an attempt whose answer was parsed, or its code and whether to try again.
  unfoldable pub read_reply : Reply → Attempt (QueryErrorCode × Bool) SqlGenerationPayload
  unfolding parse_sql_payload gateway_error_code
  read_reply (gateway_error kind retryable) = refused (gateway_error_code kind, retryable)
  read_reply (completed r) = elim (parse_sql_payload cfg.decode r.output_text) [
    | raised ↦ raised
    | refused code ↦ refused (code, true)
    | returned p ↦ returned p
  ]

  abbrev pub used : Usage → Reply → Usage
  used u (gateway_error kind retryable) = u
  used u (completed r) = add_usage u r

  -- The attempts from the one with number `n` on, with `left` retries behind it.
  unfoldable pub attempt_generation : ℕ → ℕ → Usage → Option QueryOutcome
  unfolding read_reply success failure
  attempt_generation zero n u = elim (read_reply (cfg.gateway n)) [
    | raised ↦ none
    | refused e ↦ failure e.0 (used u (cfg.gateway n))
    | returned p ↦ some (success p (used u (cfg.gateway n)))
  ]
  attempt_generation (suc left) n u =
      let next = attempt_generation left (n + 1) (used u (cfg.gateway n)) in
      elim (read_reply (cfg.gateway n)) [
        | raised ↦ none
        | refused e ↦ if e.1 then next else failure e.0 (used u (cfg.gateway n))
        | returned p ↦ some (success p (used u (cfg.gateway n)))
      ]

  unfoldable pub run_generation : Option Usage → Option QueryOutcome
  unfolding attempt_generation
  run_generation none = attempt_generation cfg.max_retries 0 no_usage
  run_generation (some u) = failure QueryErrorCode.llm_timeout u
