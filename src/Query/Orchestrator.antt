-- ===== src/Query/Orchestrator.antt =====
-- server/orchestrator/query.py: QueryOrchestrator. The repository, the pipeline, the registry and
-- the clock are arguments. A pipeline that raises returns none. `now` stands for the readings of
-- the clock of one request, `fresh` for the uuid that is made where the request brings none.
pub mod Storing
pub mod Ownership
pub mod Answers
use atlas_sql.Common.{
  ℕ, String, Bool, true, false, not, ◌||◌, Option, none, some, List, [], ◌∷◌, ◌==◌, string_eq,
  if◌then◌else◌,
}
use atlas_sql.Query.Types.{
  QueryStatus, QueryErrorCode, is_processing, scope, stage_succeeded, QueryStageTrace, QueryRequest,
  QueryContext, QueryOutcome, QueryState, QueryError, QueryTrace, MetricDefinitionBrief,
  QueryResponse,
}
use atlas_sql.Query.Scope.{assess_scope}
use atlas_sql.Query.Repository.{QueryRepository}
use atlas_sql.Semantic.Registry.{MetricEntry, SemanticRegistry}
use atlas_sql.Semantic.Registry

abbrev pub QueryPipeline : Type 0
QueryPipeline = QueryRequest → QueryContext → Option QueryOutcome

-- The configuration of an orchestrator, but for its repository.
pub record Settings : Type 0 where
  pub data_version : String
  pub schema_version : String
  pub model_version : String
  pub timeout_ms : ℕ
  pub pipeline : Option QueryPipeline
  pub registry : Option SemanticRegistry

brief : MetricEntry → MetricDefinitionBrief
brief e = record {
  metric_id = e.metric_id;
  label = e.label;
  expression = e.expression;
  required_filters = e.required_filters;
  time_role = e.time_role;
  warning = e.warning;
  time_rule_note = e.time_rule_note;
}

-- The definitions of the metrics that the registry knows.
briefs : SemanticRegistry → List String → List MetricDefinitionBrief
unfolding brief
briefs r [] = []
briefs r (id ∷ ids) = elim (Registry.get r id) [
  | none ↦ briefs r ids
  | some e ↦ brief e ∷ briefs r ids
]

metric_definitions : Option SemanticRegistry → List String → List MetricDefinitionBrief
unfolding briefs
metric_definitions none ids = []
metric_definitions (some r) ids = briefs r ids

-- The error is shown where both its code and its message are set.
abbrev pub error_of : QueryState → Option QueryError
error_of s = elim s.error_code [
  | none ↦ none
  | some c ↦ elim s.error_message [ none ↦ none | some m ↦ some (record { code = c; message = m }) ]
]

abbrev pub trace_of : QueryState → QueryTrace
trace_of s = record {
  trace_id = s.trace_id;
  identity = s.identity;
  status = s.status;
  data_version = s.data_version;
  schema_version = s.schema_version;
  model_version = s.model_version;
  timeout_ms = s.timeout_ms;
  prompt_version = s.prompt_version;
  prompt_hash = s.prompt_hash;
  model_parameters = s.model_parameters;
  input_tokens = s.input_tokens;
  output_tokens = s.output_tokens;
  total_tokens = s.total_tokens;
  execution_time = s.execution_time;
  referenced_tables = s.referenced_tables;
  referenced_columns = s.referenced_columns;
  metric_ids = s.metric_ids;
  stages = record { name = scope; status = stage_succeeded; duration = none } ∷ s.stages;
  created_at = s.created_at;
  updated_at = s.updated_at;
}

unfoldable pub response_from_state : QueryState → Option SemanticRegistry → QueryResponse
unfolding metric_definitions
response_from_state s registry = record {
  question = s.question;
  session_id = s.session_id;
  trace_id = s.trace_id;
  status = s.status;
  sql = s.sql;
  columns = s.columns;
  rows = s.rows;
  error = error_of s;
  truncated = s.truncated;
  execution_time = s.execution_time;
  summary = s.summary;
  referenced_tables = s.referenced_tables;
  referenced_columns = s.referenced_columns;
  metric_definitions = metric_definitions registry s.metric_ids;
  trace = trace_of s;
}

-- `a or b` for an optional text: an empty text counts as none.
abbrev or_else : {A : Type 0} → Option A → A → A
or_else none d = d
or_else (some a) d = a

-- outcome.model_version or state.model_version
version_or : Option String → String → String
version_or none d = d
version_or (some v) d = if v == "" then d else v

abbrev pub safe_message : String
safe_message = "查询处理失败，请使用 trace_id 联系管理员。"

module _ (cfg : Settings) (now : ℕ) (fresh : String) (request : QueryRequest)
    (identity : String) where
  abbrev pub trace_id_of : String
  trace_id_of = or_else request.trace_id fresh

  -- The state with which a request is accepted.
  unfoldable pub accepted : QueryState
  accepted = record {
    trace_id = trace_id_of;
    session_id = request.session_id;
    identity = identity;
    question = request.question;
    status = QueryStatus.processing;
    data_version = cfg.data_version;
    schema_version = cfg.schema_version;
    model_version = cfg.model_version;
    timeout_ms = cfg.timeout_ms;
    created_at = now;
    updated_at = now;
    error_code = none;
    error_message = none;
    sql = none;
    columns = [];
    rows = [];
    truncated = false;
    metric_ids = [];
    prompt_version = none;
    prompt_hash = none;
    model_parameters = [];
    input_tokens = 0;
    output_tokens = 0;
    total_tokens = 0;
    provider_request_id = none;
    execution_time = none;
    referenced_tables = [];
    referenced_columns = [];
    stages = [];
    summary = none;
  }

  -- After the decision on the scope.
  unfoldable pub decided : QueryState
  unfolding accepted
  decided =
      let decision = assess_scope request.question cfg.registry in
      record accepted {
        status = decision.status;
        metric_ids = decision.metric_ids;
        error_code = decision.error_code;
        error_message = decision.message;
        updated_at = now;
      }

  abbrev pub context : QueryContext
  context = record {
    trace_id = decided.trace_id;
    identity = identity;
    data_version = decided.data_version;
    schema_version = decided.schema_version;
    model_version = decided.model_version;
    timeout_ms = decided.timeout_ms;
    metric_ids = decided.metric_ids;
  }

  -- After the pipeline.
  unfoldable pub completed : QueryOutcome → QueryState
  unfolding version_or
  completed o = record decided {
    status = o.status;
    sql = o.sql;
    columns = o.columns;
    rows = o.rows;
    error_code = o.error_code;
    error_message = o.error_message;
    truncated = o.truncated;
    prompt_version = o.prompt_version;
    prompt_hash = o.prompt_hash;
    model_version = version_or o.model_version decided.model_version;
    model_parameters = or_else o.model_parameters [];
    input_tokens = o.input_tokens;
    output_tokens = o.output_tokens;
    total_tokens = o.total_tokens;
    provider_request_id = o.provider_request_id;
    execution_time = o.execution_time;
    referenced_tables = o.referenced_tables;
    referenced_columns = o.referenced_columns;
    stages = o.stages;
    summary = o.summary;
    updated_at = now;
  }

  -- The state that the handler of exceptions makes of the last one.
  unfoldable pub failed_state : QueryState → QueryState
  failed_state s = record s {
    status = QueryStatus.failed;
    error_code = some QueryErrorCode.internal_error;
    error_message = some safe_message;
    updated_at = now;
  }

  module _ (repo : QueryRepository) where
    open repo use {Store, create, update}

    abbrev pub answer : QueryState → Store → QueryResponse × Store
    answer s st = (response_from_state s cfg.registry, st)

    -- except Exception: an exception of the second update is passed over.
    unfoldable pub fail : QueryState → Store → QueryResponse × Store
    fail s st = answer (failed_state s) (update (failed_state s) st).1

    -- The pipeline and the update with its outcome.
    unfoldable pub run_pipeline : QueryPipeline → Store → QueryResponse × Store
    unfolding fail
    run_pipeline pipeline st = elim (pipeline request context) [
      | none ↦ fail decided st
      | some o ↦
          if (update (completed o) st).0
          then answer (completed o) (update (completed o) st).1
          else fail (completed o) (update (completed o) st).1
    ]

    -- What follows the update with the decision.
    unfoldable pub proceed_with : Option QueryPipeline → Store → QueryResponse × Store
    unfolding run_pipeline
    proceed_with none st = answer decided st
    proceed_with (some p) st =
        if is_processing decided.status then run_pipeline p st else answer decided st

    unfoldable pub proceed : Store → QueryResponse × Store
    unfolding proceed_with
    proceed = proceed_with cfg.pipeline

    unfoldable pub submit : Store → QueryResponse × Store
    unfolding fail proceed
    submit st =
        let (created, st1) = create accepted st in
        let (updated, st2) = update decided st1 in
        if created then (if updated then proceed st2 else fail decided st2) else fail accepted st1

-- get: a request is shown to the identity that made it alone.
unfoldable pub get :
    (repo : QueryRepository)
    → Option SemanticRegistry
    → String
    → String
    → repo.Store
    → Option QueryResponse
get repo registry trace_id identity st = elim (repo.get trace_id st) [
  | none ↦ none
  | some s ↦ if s.identity == identity then some (response_from_state s registry) else none
]
