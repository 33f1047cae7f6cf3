-- ===== src/Query/Orchestrator/Answers.antt =====
-- What the sender of a request is shown, with the in-memory repository: at once and later.
use atlas_sql.Common.{
  Bool, Bool-cases, ℕ, String, true, false, Option, none, some, ◌≡◌, ◌≢◌, refl, ap, ◌∙◌, arith,
  eq_iff, Option-cases, string_eq, has_key, lookup, insert, inl, inr,
}
use atlas_sql.Query.Types.{
  QueryErrorCode, is_processing, QueryRequest, QueryOutcome, QueryState, QueryResponse,
}
use atlas_sql.Query.Repository.InMemory
use atlas_sql.Query.Repository.InMemory.{
  Records, in_memory, update, create-used, create-unused, update-used,
}
use atlas_sql.Query.Orchestrator.{
  QueryPipeline, Settings, response_from_state, accepted, decided, completed, failed_state, context,
  fail, run_pipeline, proceed_with, proceed, submit, get,
}
use atlas_sql.Query.Orchestrator.Ownership.{
  lookup-insert_self, has_key-insert_self, run_pipeline_used, submit_unused, submit_used,
  proceed_used, own_id, first_state, second_state, failure,
}

module _ (cfg : Settings) (now : ℕ) (fresh : String) (request : QueryRequest)
    (identity : String) where
  abbrev trace_id : String
  trace_id = own_id cfg now fresh request identity

  abbrev first : QueryState
  first = first_state cfg now fresh request identity

  abbrev second : QueryState
  second = second_state cfg now fresh request identity

  abbrev failed : QueryState
  failed = failure cfg now fresh request identity

  -- The answer is the response of a state that is stored under the identity of the sender.
  record IsTold (res : QueryResponse × Records) : Type 0 where
    state : QueryState
    stored : lookup trace_id res.1 ≡ some state
    told : res.0 ≡ response_from_state state cfg.registry
    owner : state.identity ≡ identity

  fail-IsTold :
      (s : QueryState) (records : Records)
      → s.trace_id ≡ trace_id
      → s.identity ≡ identity
      → has_key trace_id records ≡ true
      → IsTold (fail cfg now fresh request identity in_memory s records)
  unfolding fail failed_state
  fail-IsTold s records e i used =
      let last = failed_state cfg now fresh request identity s in
      let kept : update last records ≡ (true, insert s.trace_id last records) =
        update-used last records (ap (λ k. has_key k records) e ∙ used) in
      record {
        state = last;
        stored =
            ap (λ (u : Bool × Records). lookup trace_id u.1) kept
            ∙ ap (λ k. lookup trace_id (insert k last records)) e
            ∙ lookup-insert_self last trace_id records;
        told = refl;
        owner = i;
      }

  run_pipeline-IsTold :
      (records : Records) (p : QueryPipeline)
      → has_key trace_id records ≡ true
      → IsTold (run_pipeline cfg now fresh request identity in_memory p records)
  unfolding run_pipeline completed decided accepted
  run_pipeline-IsTold records p used =
      elim (Option-cases (p request (context cfg now fresh request identity))) [
        | inl e ↦ rw (e, run_pipeline) (fail-IsTold second records refl refl used)
        | inr (o, e) ↦
            let done = completed cfg now fresh request identity o in
            rw (run_pipeline_used cfg now fresh request identity records p o used e) (record {
              state = done;
              stored = lookup-insert_self done trace_id records;
              told = refl;
              owner = refl;
            })
      ]

  proceed-IsTold :
      (records : Records) (p : Option QueryPipeline)
      → lookup trace_id records ≡ some second
      → IsTold (proceed_with cfg now fresh request identity in_memory p records)
  unfolding proceed_with decided accepted
  proceed-IsTold records none e = record { state = second; stored = e; told = refl; owner = refl }
  proceed-IsTold records (some p) e = elim (Bool-cases (is_processing second.status)) [
    | inl on ↦ rw on (run_pipeline-IsTold records p (rw (e, has_key)))
    | inr off ↦ rw off (record { state = second; stored = e; told = refl; owner = refl })
  ]

  submit-IsTold :
      (records : Records) → IsTold (submit cfg now fresh request identity in_memory records)
  unfolding accepted failed_state proceed
  submit-IsTold records = elim (Bool-cases (has_key trace_id records)) [
    | inl used ↦ rw (submit_used cfg now fresh request identity records used) (record {
      state = failed;
      stored = lookup-insert_self failed trace_id records;
      told = refl;
      owner = refl;
    })
    | inr unused ↦ rw (submit_unused cfg now fresh request identity records unused) (
        proceed-IsTold (insert trace_id second (insert trace_id first records)) cfg.pipeline
          (lookup-insert_self second trace_id (insert trace_id first records)))
  ]

  -- With the in-memory repository, whatever is stored and whatever the pipeline does: after a request
  -- was submitted, its sender is shown the response that submit gave, and every other identity that
  -- asks for the same trace id is shown nothing.
  pub submit-get :
      (records : Records)
      → let res = submit cfg now fresh request identity in_memory records in
        (get in_memory cfg.registry trace_id identity res.1 ≡ some res.0)
        × ((other : String)
            → other ≢ identity
            → get in_memory cfg.registry trace_id other res.1 ≡ none)
  unfolding get InMemory.get
  submit-get records =
      let t = submit-IsTold records in
      (
        rw (t.stored, get, t.told) (ground (arith, t.owner, eq_iff t.state.identity identity)),
        λ other h.
            rw (t.stored, get)
              (ground (arith, t.owner, eq_iff t.state.identity other, eq_iff identity other)),
      )

  -- What a response shows of an outcome.
  pub record Shows (o : QueryOutcome) (r : QueryResponse) : Type 0 where
    pub trace : r.trace_id ≡ trace_id
    pub question : r.question ≡ request.question
    pub status : r.status ≡ o.status
    pub sql : r.sql ≡ o.sql
    pub columns : r.columns ≡ o.columns
    pub rows : r.rows ≡ o.rows
    pub truncated : r.truncated ≡ o.truncated
    pub summary : r.summary ≡ o.summary
    pub execution_time : r.execution_time ≡ o.execution_time
    pub tables : r.referenced_tables ≡ o.referenced_tables
    pub column_names : r.referenced_columns ≡ o.referenced_columns
    pub tokens : r.trace.total_tokens ≡ o.total_tokens
    pub error :
        (code : QueryErrorCode) (message : String)
        → o.error_code ≡ some code
        → o.error_message ≡ some message
        → r.error ≡ some (record { code = code; message = message })
    pub no_error : o.error_code ≡ none → r.error ≡ none

  completed-Shows :
      (o : QueryOutcome)
      → Shows o (response_from_state (completed cfg now fresh request identity o) cfg.registry)
  unfolding completed decided accepted response_from_state
  completed-Shows o = record {
    trace = refl;
    question = refl;
    status = refl;
    sql = refl;
    columns = refl;
    rows = refl;
    truncated = refl;
    summary = refl;
    execution_time = refl;
    tables = refl;
    column_names = refl;
    tokens = refl;
    error = λ code message e f. ground arith;
    no_error = λ e. ground arith;
  }

  -- With the in-memory repository, a trace id that is not in use, a question that is in scope and a
  -- pipeline that returns an outcome: the response shows the question, and the status, the SQL, the
  -- columns, the rows, the mark of truncation, the tables, the summary, the time, the total of the
  -- tokens and the error of that outcome.
  pub submit-fresh :
      (records : Records) (p : QueryPipeline) (o : QueryOutcome)
      → has_key trace_id records ≡ false
      → cfg.pipeline ≡ some p
      → is_processing second.status ≡ true
      → p request (context cfg now fresh request identity) ≡ some o
      → Shows o (submit cfg now fresh request identity in_memory records).0
  submit-fresh records p o unused has_p on ran =
      let stored = insert trace_id second (insert trace_id first records) in
      let used = has_key-insert_self second trace_id (insert trace_id first records) in
      rw
        (
          submit_unused cfg now fresh request identity records unused,
          proceed_used cfg now fresh request identity stored p o used has_p on ran,
        )
        (completed-Shows o)
