-- ===== src/Query/Pipeline/Safety.antt =====
-- The stages of the pipeline cannot be skipped.
use atlas_sql.Common.{
  ℕ, String, Option, none, some, ◌≡◌, inl, inr, refl, arith, true, ◌≢◌, Bool-cases, Option-cases,
}
use atlas_sql.Query.Types.{QueryStatus, is_processing, QueryRequest, QueryContext, QueryOutcome}
use atlas_sql.Query.Execution.{Attempt-cases, ValidatedSql, ExecutionResult, returned, Summary}
use atlas_sql.Query.Orchestrator.{QueryPipeline}
use atlas_sql.Query.Pipeline.{
  Timing, Validator, Executor, remaining, run_validated, run_generated, run_candidate, run_outcome,
  run,
}

module _ (validate : Validator) (render : Summary → String) (time : Timing) where
  -- Two executors that do the same with every query that the validator returns.
  abbrev pub AgreeOnValidated : Executor → Executor → Type 0
  AgreeOnValidated e f =
      (sql : String) (v : ValidatedSql) (ms : ℕ) → validate sql ≡ returned v → e v ms ≡ f v ms

  run_validated-same :
      (e f : Executor) (context : QueryContext) (g : QueryOutcome) (v : ValidatedSql)
      → e v (remaining context time) ≡ f v (remaining context time)
      → run_validated validate render time e context g v
        ≡ run_validated validate render time f context g v
  unfolding run_validated
  run_validated-same e f context g v h = rw (h, run_validated) refl

  run_generated-same :
      (e f : Executor) (context : QueryContext) (g : QueryOutcome) (sql : String)
      → AgreeOnValidated e f
      → run_generated validate render time e context g sql
        ≡ run_generated validate render time f context g sql
  unfolding run_generated
  run_generated-same e f context g sql h = elim (Attempt-cases (validate sql)) [
    | inl q ↦ rw (q, run_generated) refl
    | inr (inl (code, q)) ↦ rw (q, run_generated) refl
    | inr (inr (v, q)) ↦
        rw (q, run_generated)
          (run_validated-same e f context g v (h sql v (remaining context time) q))
  ]

  run_candidate-same :
      (e f : Executor) (context : QueryContext) (g : QueryOutcome) (sql : Option String)
      → AgreeOnValidated e f
      → run_candidate validate render time e context g sql
        ≡ run_candidate validate render time f context g sql
  unfolding run_candidate
  run_candidate-same e f context g none h = refl
  run_candidate-same e f context g (some sql) h = run_generated-same e f context g sql h

  run_outcome-same :
      (e f : Executor) (context : QueryContext) (g : QueryOutcome)
      → AgreeOnValidated e f
      → run_outcome validate render time e context g ≡ run_outcome validate render time f context g
  unfolding run_outcome
  run_outcome-same e f context g h = rw (run_candidate-same e f context g g.sql h) refl

  -- The executor only ever sees what the validator returned: two executors that do the same with
  -- every query that the validator returns for some text give the same pipeline.
  pub run-executes_validated :
      (generator : QueryPipeline) (e f : Executor) (request : QueryRequest) (context : QueryContext)
      → AgreeOnValidated e f
      → run validate render time generator e request context
        ≡ run validate render time generator f request context
  unfolding run
  run-executes_validated generator e f request context h =
      elim (Option-cases (generator request context)) [
        | inl q ↦ rw (q, run) refl
        | inr (g, q) ↦ rw (q, run) (run_outcome-same e f context g h)
      ]

  -- How a question was answered: what was generated, what was validated and what was executed.
  pub record IsExecuted (generator : QueryPipeline) (executor : Executor) (request : QueryRequest)
      (context : QueryContext) (o : QueryOutcome) : Type 0 where
    pub generated : QueryOutcome
    pub generation : generator request context ≡ some generated
    pub in_progress : generated.status ≡ QueryStatus.processing
    pub candidate : String
    pub proposed : generated.sql ≡ some candidate
    pub query : ValidatedSql
    pub validation : validate candidate ≡ returned query
    pub result : ExecutionResult
    pub execution : executor query (remaining context time) ≡ returned result
    pub sql : o.sql ≡ some query.sql
    pub rows : o.rows ≡ result.rows
    pub columns : o.columns ≡ result.columns
    pub truncated : o.truncated ≡ result.truncated
    pub tables : o.referenced_tables ≡ query.tables

  run_validated-IsExecuted :
      (executor : Executor) (context : QueryContext) (g o : QueryOutcome) (v : ValidatedSql)
      → run_validated validate render time executor context g v ≡ some o
      → o.status ≡ QueryStatus.succeeded
      → (r : ExecutionResult) × (executor v (remaining context time) ≡ returned r)
        × (o.sql ≡ some v.sql)
        × (o.rows ≡ r.rows)
        × (o.columns ≡ r.columns)
        × (o.truncated ≡ r.truncated)
        × (o.referenced_tables ≡ v.tables)
  unfolding run_validated
  run_validated-IsExecuted executor context g o v h s =
      elim (Attempt-cases (executor v (remaining context time))) [
        | inl q ↦ absurd (ground arith)
        | inr (inl (k, q)) ↦ absurd (ground arith)
        | inr (inr (r, q)) ↦
            (r, q, ground arith, ground arith, ground arith, ground arith, ground arith)
      ]

  run_candidate-IsExecuted :
      (generator : QueryPipeline) (executor : Executor) (request : QueryRequest)
      (context : QueryContext) (g o : QueryOutcome) (sql : Option String)
      → generator request context ≡ some g
      → g.status ≡ QueryStatus.processing
      → g.sql ≡ sql
      → run_candidate validate render time executor context g sql ≡ some o
      → o.status ≡ QueryStatus.succeeded
      → IsExecuted generator executor request context o
  unfolding run_candidate run_generated
  run_candidate-IsExecuted generator executor request context g o none e p q h s =
      absurd (ground arith)
  run_candidate-IsExecuted generator executor request context g o (some sql) e p q h s =
      elim (Attempt-cases (validate sql)) [
        | inl v ↦ absurd (ground arith)
        | inr (inl (code, v)) ↦ absurd (ground arith)
        | inr (inr (v, k)) ↦
            let (r, ran, same_sql, rows, columns, truncated, tables) =
              run_validated-IsExecuted executor context g o v (ground arith) s in
            record {
              generated = g;
              generation = e;
              in_progress = p;
              candidate = sql;
              proposed = q;
              query = v;
              validation = k;
              result = r;
              execution = ran;
              sql = same_sql;
              rows = rows;
              columns = columns;
              truncated = truncated;
              tables = tables;
            }
      ]

  processing_status : (s : QueryStatus) → is_processing s ≡ true → s ≡ QueryStatus.processing
  processing_status s h = ground arith

  -- With a generator that does not itself claim success, a pipeline that ends with success has
  -- validated the SQL that was generated, has executed exactly the validated query within the time
  -- that remained, and answers with the SQL, the tables, the columns and the rows of that execution.
  pub run-IsExecuted :
      (generator : QueryPipeline) (executor : Executor) (request : QueryRequest)
      (context : QueryContext) (o : QueryOutcome)
      → ((g : QueryOutcome) → generator request context ≡ some g → g.status ≢ QueryStatus.succeeded)
      → run validate render time generator executor request context ≡ some o
      → o.status ≡ QueryStatus.succeeded
      → IsExecuted generator executor request context o
  unfolding run run_outcome
  run-IsExecuted generator executor request context o honest h s =
      elim (Option-cases (generator request context)) [
        | inl q ↦ absurd (ground arith)
        | inr (g, q) ↦ elim (Bool-cases (is_processing g.status)) [
          | inr off ↦ absurd (honest g q (ground arith))
          | inl on ↦
              run_candidate-IsExecuted generator executor request context g o g.sql q
                (processing_status g.status on) refl (ground arith) s
        ]
      ]
