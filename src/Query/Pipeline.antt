-- ===== src/Query/Pipeline.antt =====
-- server/orchestrator/pipeline.py: SafeQueryPipeline, which generates, validates and executes. The
-- generator, the validator and the executor are arguments, and so are the readings of the clock.
pub mod Safety
pub mod Baseline
pub mod Guarded
mod Tests
use atlas_sql.Common.{ℕ, ◌-◌, max, if◌then◌else◌, String, Option, none, some, List, [], ◌∷◌, ◌++◌}
use atlas_sql.Query.Types.{
  QueryStatus, QueryErrorCode, is_processing, QueryRequest, QueryContext, QueryOutcome,
  QueryStageTrace, StageName, StageStatus, stage_succeeded, stage_failed, of_query,
}
use atlas_sql.Query.Execution.{
  ValidatedSql, ExecutionErrorKind, ExecutionResult, Attempt, returned, refused, raised, Summary,
  error_code, build_summary,
}
use atlas_sql.Query.Orchestrator.{QueryPipeline}

-- What the clock shows: the durations of the stages, and the milliseconds, rounded up, that have
-- gone when the execution starts.
pub record Timing : Type 0 where
  pub generation : ℕ
  pub validation : ℕ
  pub execution : ℕ
  pub elapsed : ℕ

abbrev pub Validator : Type 0
Validator = String → Attempt QueryErrorCode ValidatedSql

abbrev pub Executor : Type 0
Executor = ValidatedSql → ℕ → Attempt ExecutionErrorKind ExecutionResult

-- _validation_message
unfoldable pub validation_message : QueryErrorCode → String
validation_message QueryErrorCode.sql_parse_error = "生成的 SQL 无法解析，请重试。"
validation_message QueryErrorCode.sql_out_of_scope = "生成的 SQL 使用了未授权的表或字段。"
validation_message _ = "生成的 SQL 未通过安全校验。"

-- _execution_message: none is a KeyError.
unfoldable pub execution_message : QueryErrorCode → Option String
execution_message QueryErrorCode.execution_timeout = some "查询执行超时，请缩小查询范围后重试。"
execution_message QueryErrorCode.execution_busy = some "查询服务繁忙，请稍后重试。"
execution_message QueryErrorCode.execution_error = some "查询执行失败，请使用 trace_id 联系管理员。"
execution_message _ = none

abbrev pub stage : StageName → StageStatus → ℕ → QueryStageTrace
stage name status ms = record { name = name; status = status; duration = some ms }

-- The status of the stage of the generation.
abbrev pub generation_status : QueryStatus → StageStatus
generation_status QueryStatus.processing = stage_succeeded
generation_status s = of_query s

-- max(1, int(timeout_ms - elapsed_ms))
abbrev pub remaining : QueryContext → Timing → ℕ
remaining context time = max 1 (context.timeout_ms - time.elapsed)

abbrev pub rejected : QueryOutcome → QueryErrorCode → List QueryStageTrace → QueryOutcome
rejected g code stages = record g {
  status = QueryStatus.failed;
  error_code = some code;
  error_message = some (validation_message code);
  stages = stages;
}

abbrev pub not_executed :
    QueryOutcome → ValidatedSql → QueryErrorCode → String → List QueryStageTrace → QueryOutcome
not_executed g v code message stages = record g {
  status = QueryStatus.failed;
  sql = some v.sql;
  error_code = some code;
  error_message = some message;
  referenced_tables = v.tables;
  referenced_columns = v.columns;
  stages = stages;
}

abbrev pub answered :
    QueryOutcome → ValidatedSql → ExecutionResult → String → List QueryStageTrace → QueryOutcome
answered g v r summary stages = record g {
  status = QueryStatus.succeeded;
  sql = some v.sql;
  columns = r.columns;
  rows = r.rows;
  truncated = r.truncated;
  execution_time = some r.duration;
  referenced_tables = v.tables;
  referenced_columns = v.columns;
  stages = stages;
  summary = some summary;
}

-- `render` writes the text of a summary.
module _ (validate : Validator) (render : Summary → String) (time : Timing) where
  abbrev generated_stage : QueryOutcome → QueryStageTrace
  generated_stage g = stage StageName.generation (generation_status g.status) time.generation

  abbrev valid_stages : QueryOutcome → List QueryStageTrace
  valid_stages g =
      generated_stage g ∷ stage StageName.validation stage_succeeded time.validation ∷ []

  -- After the validation.
  unfoldable pub run_validated :
      Executor → QueryContext → QueryOutcome → ValidatedSql → Option QueryOutcome
  unfolding execution_message error_code build_summary
  run_validated executor context g v = elim (executor v (remaining context time)) [
    | raised ↦ none
    | refused kind ↦ elim (execution_message (error_code kind)) [
      | none ↦ none
      | some message ↦ some (
          not_executed g v (error_code kind) message
            (valid_stages g ++ stage StageName.execution stage_failed time.execution ∷ []))
    ]
    | returned r ↦ elim (build_summary r.columns r.rows r.truncated) [
      | none ↦ none
      | some summary ↦ some (
          answered g v r (render summary)
            (valid_stages g ++ stage StageName.execution stage_succeeded r.duration ∷ []))
    ]
  ]

  -- After the generation, with the SQL that was generated.
  unfoldable pub run_generated :
      Executor → QueryContext → QueryOutcome → String → Option QueryOutcome
  unfolding run_validated
  run_generated executor context g sql = elim (validate sql) [
    | raised ↦ none
    | refused code ↦ some (
        rejected g code
          (generated_stage g ∷ stage StageName.validation stage_failed time.validation ∷ []))
    | returned v ↦ run_validated executor context g v
  ]

  abbrev unexecuted : QueryOutcome → QueryOutcome
  unexecuted g = record g { stages = generated_stage g ∷ [] }

  unfoldable pub run_candidate :
      Executor → QueryContext → QueryOutcome → Option String → Option QueryOutcome
  unfolding run_generated
  run_candidate executor context g none = some (unexecuted g)
  run_candidate executor context g (some sql) = run_generated executor context g sql

  -- generated.status != PROCESSING or generated.sql is None
  unfoldable pub run_outcome : Executor → QueryContext → QueryOutcome → Option QueryOutcome
  unfolding run_candidate
  run_outcome executor context g =
      if is_processing g.status then run_candidate executor context g g.sql else some (unexecuted g)

  -- SafeQueryPipeline.run: none is an exception.
  unfoldable pub run : QueryPipeline → Executor → QueryPipeline
  unfolding run_outcome
  run generator executor = λ request context. elim (generator request context) [
    | none ↦ none
    | some g ↦ run_outcome executor context g
  ]
