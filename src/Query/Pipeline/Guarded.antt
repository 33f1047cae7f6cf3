-- ===== src/Query/Pipeline/Guarded.antt =====
-- The pipeline with the generator of server/generation/sql.py in front and the validator of
-- server/validation/sql.py behind it.
use atlas_sql.Common.{String, Bool, Option, some, ◌≡◌}
use atlas_sql.Query.Types.{QueryRequest, QueryContext, QueryOutcome}
use atlas_sql.Query.Execution.{Summary}
use atlas_sql.Query.Generation.{Usage}
use atlas_sql.Query.Generation.Retries.{GenerationSettings}
use atlas_sql.Query.Pipeline.{Timing, Executor}
use atlas_sql.Query.Pipeline.Safety.{IsExecuted}
use atlas_sql.Query.Pipeline.Baseline.{baseline_generator}
use atlas_sql.Query.SqlTree.{Parser}
use atlas_sql.Query.Validation.{validate}
use atlas_sql.Query.Validation.Safety.{IsValidated}

module _ (upper : String → String) (parse : Parser) (strict_scope : Bool)
    (render : Summary → String) (time : Timing)
    (settings : QueryRequest → QueryContext → GenerationSettings) (deadline : Option Usage) where
  -- An answer that comes from the execution of a statement that the validator found to be safe.
  pub record IsSafelyAnswered (executor : Executor) (request : QueryRequest)
      (context : QueryContext) (o : QueryOutcome) : Type 0 where
    pub executed :
        IsExecuted
          (validate upper parse strict_scope)
          render
          time
          (baseline_generator settings deadline)
          executor
          request
          context
          o
    pub validated : IsValidated upper parse strict_scope executed.candidate executed.query
    pub shown : o.sql ≡ some validated.statement.text
