-- ===== src/Query/Pipeline/Tests.antt =====
-- One question through generation, validation and execution, and the theorems at it.
use atlas_sql.Common.{
  if◌then◌else◌, ◌==◌, ◌≢◌, subst, take, String, true, none, some, [], ◌∷◌, ◌≡◌, refl, string_eq,
  arith, subst, ◌≢◌,
}
use atlas_sql.Query.Types.{QueryStatus, QueryOutcome}
use atlas_sql.Query.Orchestrator.{QueryPipeline}
use atlas_sql.Query.Types.{QueryContext, QueryCell, StageName, stage_succeeded}
use atlas_sql.Query.Execution.{
  raised, ValidatedSql, Summary, Driver, Fetched, ExecutorSettings, returned, plain, execute,
  visible,
}
use atlas_sql.Query.Execution.Limits.{HonoursLimit, IsShown, execute-IsShown}
use atlas_sql.Query.Pipeline
use atlas_sql.Query.Pipeline.{Validator, Executor, Timing}
use atlas_sql.Query.Pipeline.Safety.{
  IsExecuted, AgreeOnValidated, run-IsExecuted, run-executes_validated,
}
use mathlib.Core.Option
use atlas_sql.Common.{ℕ, zero, suc, strip}
use atlas_sql.Query.Generation.{
  Action, LlmErrorKind, Reply, completed as llm_completed, gateway_error,
}
use atlas_sql.Query.Generation.Retries.{GenerationSettings, run_generation}
use atlas_sql.Query.Tests.{request, outcome}
use atlas_sql.Query.SqlTree.{Statement, select, table}

abbrev context : QueryContext
context = record {
  trace_id = "t1";
  identity = "ann";
  data_version = "v0.1.0";
  schema_version = "001";
  model_version = "m";
  timeout_ms = 30000;
  metric_ids = [];
}

abbrev candidate : QueryOutcome
candidate = record outcome { status = QueryStatus.processing; sql = some "select 1" }

abbrev one_candidate : QueryPipeline
one_candidate = λ r c. some candidate

abbrev checked : ValidatedSql
checked = record { sql = "SELECT 1"; tables = "fact_order" ∷ []; columns = [] }

abbrev accepts : Validator
accepts = λ s. returned checked

abbrev result : Fetched
result = record {
  attributes = record { name = "n"; data_type = "int4" } ∷ [];
  records = (plain (QueryCell.number "1") ∷ []) ∷ (plain (QueryCell.number "2") ∷ []) ∷ [];
  duration = 12;
}

abbrev driver : Driver
driver = λ q. returned (record result { records = take q.limit result.records })

driver-HonoursLimit : HonoursLimit (λ s. result.records) driver
driver-HonoursLimit q f e = ground arith

abbrev limits : ExecutorSettings
limits = record { statement_timeout_ms = 10000; max_rows = 1 }

abbrev executor : Executor
executor = λ v ms. execute limits driver v ms

abbrev rendered_summary : Summary → String
rendered_summary = λ s. "summary"

abbrev timing : Timing
timing = record { generation = 1; validation = 2; execution = 3; elapsed = 40000 }

abbrev final : QueryOutcome
final = record (candidate) {
  status = QueryStatus.succeeded;
  sql = some "SELECT 1";
  columns = record { name = "n"; data_type = "int4" } ∷ [];
  rows = (QueryCell.number "1" ∷ []) ∷ [];
  truncated = true;
  execution_time = some 12;
  referenced_tables = "fact_order" ∷ [];
  referenced_columns = [];
  stages =
      record { name = StageName.generation; status = stage_succeeded; duration = some 1 }
      ∷ record { name = StageName.validation; status = stage_succeeded; duration = some 2 }
      ∷ record { name = StageName.execution; status = stage_succeeded; duration = some 12 }
      ∷ [];
  summary = some "summary";
}

pipeline_test :
    Pipeline.run accepts rendered_summary timing one_candidate executor request context ≡ some final
unfolding Pipeline.run execute
pipeline_test = refl

-- An executor that breaks on every text but the one that was validated.
abbrev narrow_executor : Executor
narrow_executor = λ v ms. if v.sql == "SELECT 1" then executor v ms else raised

agree_on_checked : AgreeOnValidated accepts rendered_summary timing executor narrow_executor
agree_on_checked s v ms h =
    let same : checked ≡ v = ground arith in
    subst (λ w. executor w ms ≡ narrow_executor w ms) same refl

-- They differ on the text that the generator proposes.
executors_differ_test :
    narrow_executor (record checked { sql = "select 1" }) 500
    ≢ executor (record checked { sql = "select 1" }) 500
unfolding execute
executors_differ_test e = ground arith

run-executes_validated_example :
    Pipeline.run accepts rendered_summary timing one_candidate executor request context
    ≡ Pipeline.run accepts rendered_summary timing one_candidate narrow_executor request context
run-executes_validated_example =
    run-executes_validated accepts rendered_summary timing one_candidate executor narrow_executor
      request context agree_on_checked

run-IsExecuted_example :
    IsExecuted accepts rendered_summary timing one_candidate executor request context final
run-IsExecuted_example =
    run-IsExecuted accepts rendered_summary timing one_candidate executor request context final
      (λ g e. ground arith) pipeline_test refl

execute-IsShown_example : IsShown limits driver checked 500 result.records (visible limits result)
unfolding execute
execute-IsShown_example =
    execute-IsShown (λ s. result.records) limits driver checked 500 (visible limits result)
      driver-HonoursLimit refl

-- A model that fails once and then answers with SQL.
abbrev gateway : ℕ → Reply
gateway zero = gateway_error LlmErrorKind.timeout true
gateway (suc n) = llm_completed (record {
  output_text = "{}";
  input_tokens = 3;
  output_tokens = 4;
  total_tokens = 7;
  provider_request_id = none;
  model_version = some "m";
})

abbrev generation : GenerationSettings
generation = record {
  prompt_version = "p1";
  prompt_hash = "h";
  model_version = "m";
  model_parameters = [];
  max_retries = 1;
  decode =
      λ s. returned (record { action = Action.generate; sql = some " select 1 "; reason = none });
  gateway = gateway;
}

retried_test :
    Option.map (λ (o : QueryOutcome). o.sql) (run_generation generation none)
    ≡ some (some "select 1")
unfolding run_generation strip
retried_test = refl

abbrev answer : QueryOutcome
answer = record (final) {
  prompt_version = some "p1";
  prompt_hash = some "h";
  model_version = some "m";
  model_parameters = some [];
}

abbrev parsed : Statement
parsed = record {
  is_query = true;
  nodes =
      select
      ∷ table (record { name = "fact_order"; db = ""; catalog = ""; alias_or_name = "fact_order" })
      ∷ [];
  scopes = some [];
  text = "SELECT 1";
}

abbrev upper : String → String
upper = λ s. s
