-- ===== src/Query/Orchestrator/Ownership.antt =====
-- What submit does with the in-memory repository, by whether the trace id is in use.
use atlas_sql.Common.{
  ℕ, String, true, false, none, some, ◌≡◌, ◌≢◌, refl, ap, ◌∙◌, arith, eq_iff, beq_refl, string_eq,
  has_key, lookup, insert, lookup-insert,
}
use atlas_sql.Query.Types.{
  QueryStatus, QueryErrorCode, is_processing, QueryRequest, QueryOutcome, QueryState,
}
use atlas_sql.Query.Repository.InMemory
use atlas_sql.Query.Repository.InMemory.{
  Records, in_memory, update, create-used, create-unused, update-used,
}
use atlas_sql.Query.Orchestrator.{
  QueryPipeline, Settings, response_from_state, trace_id_of, accepted, decided, completed,
  failed_state, safe_message, context, fail, run_pipeline, proceed_with, proceed, submit, get,
}

pub lookup-insert_self :
    (s : QueryState) (k : String) (records : Records) → lookup k (insert k s records) ≡ some s
lookup-insert_self s k records = lookup-insert k k s records ∙ rw (beq_refl string_eq k)

pub has_key-insert_self :
    (s : QueryState) (k : String) (records : Records) → has_key k (insert k s records) ≡ true
has_key-insert_self s k records = rw (lookup-insert_self s k records, has_key)

module _ (cfg : Settings) (now : ℕ) (fresh : String) (request : QueryRequest)
    (identity : String) where
  abbrev pub own_id : String
  own_id = trace_id_of cfg now fresh request identity

  abbrev pub first_state : QueryState
  first_state = accepted cfg now fresh request identity

  abbrev pub second_state : QueryState
  second_state = decided cfg now fresh request identity

  abbrev pub failure : QueryState
  failure = failed_state cfg now fresh request identity first_state

  pub submit_used :
      (records : Records)
      → has_key own_id records ≡ true
      → submit cfg now fresh request identity in_memory records
        ≡ (response_from_state failure cfg.registry, insert own_id failure records)
  unfolding submit fail accepted failed_state
  submit_used records used =
      rw (create-used first_state records used, update-used failure records used)

  -- With the in-memory repository: a request of another identity that brings a trace id which is in
  -- use is answered with the safe failure, and the stored request is replaced by that failure, so
  -- that whoever sent the first request is shown nothing any more.
  pub submit-duplicate :
      (records : Records) (old : QueryState)
      → lookup own_id records ≡ some old
      → old.identity ≢ identity
      → let res = submit cfg now fresh request identity in_memory records in
        (res.0.status ≡ QueryStatus.failed)
        × (res.0.error
            ≡ some (record { code = QueryErrorCode.internal_error; message = safe_message }))
        × (lookup own_id res.1 ≡ some failure)
        × (get in_memory cfg.registry own_id old.identity res.1 ≡ none)
  unfolding accepted failed_state get InMemory.get response_from_state
  submit-duplicate records old e h =
      let used : has_key own_id records ≡ true = rw (e, has_key) in
      rw (submit_used records used) (
        refl,
        refl,
        lookup-insert_self failure own_id records,
        rw (lookup-insert_self failure own_id records, get)
            (ground (arith, eq_iff identity old.identity)),
      )

  pub run_pipeline_used :
      (records : Records) (p : QueryPipeline) (o : QueryOutcome)
      → has_key own_id records ≡ true
      → p request (context cfg now fresh request identity) ≡ some o
      → run_pipeline cfg now fresh request identity in_memory p records ≡ (
        response_from_state (completed cfg now fresh request identity o) cfg.registry,
        insert own_id (completed cfg now fresh request identity o) records,
      )
  unfolding run_pipeline completed decided accepted
  run_pipeline_used records p o used ran =
      rw (ran, update-used (completed cfg now fresh request identity o) records used, run_pipeline)

  pub proceed_used :
      (records : Records) (p : QueryPipeline) (o : QueryOutcome)
      → has_key own_id records ≡ true
      → cfg.pipeline ≡ some p
      → is_processing second_state.status ≡ true
      → p request (context cfg now fresh request identity) ≡ some o
      → proceed cfg now fresh request identity in_memory records ≡ (
        response_from_state (completed cfg now fresh request identity o) cfg.registry,
        insert own_id (completed cfg now fresh request identity o) records,
      )
  unfolding proceed proceed_with
  proceed_used records p o used has_p on ran =
      ap (λ q. proceed_with cfg now fresh request identity in_memory q records) has_p
      ∙ rw on (run_pipeline_used records p o used ran)

  pub submit_unused :
      (records : Records)
      → has_key own_id records ≡ false
      → submit cfg now fresh request identity in_memory records
        ≡ proceed cfg now fresh request identity in_memory
            (insert own_id second_state (insert own_id first_state records))
  unfolding submit decided accepted
  submit_unused records unused = rw (
    create-unused first_state records unused,
    update-used second_state (insert own_id first_state records)
        (has_key-insert_self first_state own_id records),
  )
