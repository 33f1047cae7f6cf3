-- ===== src/Query/Pipeline/Baseline.antt =====
-- The pipeline with the generator of server/generation/sql.py in front.
use atlas_sql.Common.{String, Option, some, ◌≡◌, ◌≢◌, sym, ◌∙◌, arith, ap, inr, inl}
use atlas_sql.Query.Types.{QueryStatus, QueryRequest, QueryContext, QueryOutcome}
use atlas_sql.Query.Execution.{Summary}
use atlas_sql.Query.Generation.{Usage}
use atlas_sql.Query.Generation.Retries.{GenerationSettings, run_generation}
use atlas_sql.Query.Generation.Retries.Honest.{run_generation-EndsHonest}
use atlas_sql.Query.Orchestrator.{QueryPipeline}
use atlas_sql.Query.Pipeline.{Timing, Validator, Executor, run}
use atlas_sql.Query.Pipeline.Safety.{IsExecuted, run-IsExecuted}

-- `settings` stands for the prompt that is built for the request, and for the model.
abbrev pub baseline_generator :
    (QueryRequest → QueryContext → GenerationSettings) → Option Usage → QueryPipeline
baseline_generator settings deadline =
    λ request context. run_generation (settings request context) deadline

module _ (validate : Validator) (render : Summary → String) (time : Timing)
    (settings : QueryRequest → QueryContext → GenerationSettings) (deadline : Option Usage) where
  never_succeeded :
      (request : QueryRequest) (context : QueryContext) (g : QueryOutcome)
      → run_generation (settings request context) deadline ≡ some g
      → g.status ≢ QueryStatus.succeeded
  never_succeeded request context g e s =
      elim (run_generation-EndsHonest (settings request context) deadline) [
        | inr (broken, n, b) ↦ absurd (ground (arith, sym broken ∙ e))
        | inl (o, found, honest) ↦
            let same : o ≡ g = ground (arith, sym found ∙ e) in
            honest.not_succeeded (ap (λ (x : QueryOutcome). x.status) same ∙ s)
      ]

  -- With this generator, an answer that is marked as succeeded comes from the execution
  -- of a validated query: the SQL that the model gave was validated, the validated query was executed
  -- within the time that remained, and the answer holds that query and the rows of that execution.
  pub baseline-IsExecuted :
      (executor : Executor) (request : QueryRequest) (context : QueryContext) (o : QueryOutcome)
      → run validate render time (baseline_generator settings deadline) executor request context
        ≡ some o
      → o.status ≡ QueryStatus.succeeded
      → IsExecuted validate render time
          (baseline_generator settings deadline)
          executor
          request
          context
          o
  baseline-IsExecuted executor request context o h s =
      run-IsExecuted validate render time (baseline_generator settings deadline) executor request
        context o (never_succeeded request context) h s
