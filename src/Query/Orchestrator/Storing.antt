-- ===== src/Query/Orchestrator/Storing.antt =====
-- What is stored of a request, and what its sender is told.
use atlas_sql.Common.{
  ℕ, String, Option, none, some, ◌≡◌, ◌≢◌, ◌⊎◌, inl, inr, refl, subst, ◌∙◌, Bool-cases,
  Option-cases, if◌then◌else◌,
}
use atlas_sql.Query.Types.{
  QueryStatus, QueryErrorCode, is_processing, QueryRequest, QueryState, QueryResponse,
}
use atlas_sql.Query.Repository.{QueryRepository, IsLawful}
use atlas_sql.Query.Orchestrator.{
  QueryPipeline, Settings, response_from_state, trace_id_of, accepted, decided, completed,
  failed_state, safe_message, context, answer, fail, run_pipeline, proceed_with, proceed, submit,
}

abbrev pub IsFailed : QueryState → Type 0
IsFailed s =
    (s.status ≡ QueryStatus.failed)
    × (s.error_code ≡ some QueryErrorCode.internal_error)
    × (s.error_message ≡ some safe_message)

module _ (cfg : Settings) (now : ℕ) (fresh : String) (request : QueryRequest) (identity : String)
    (repo : QueryRepository) (law : IsLawful repo) where
  open repo use {Store, create, update, get}

  abbrev own_id : String
  own_id = trace_id_of cfg now fresh request identity

  -- The answer is that of one state of the request. That state is stored, or it is the safe failure;
  -- no other request is touched.
  pub record IsAnswer (st : Store) (res : QueryResponse × Store) : Type 0 where
    pub state : QueryState
    pub told : res.0 ≡ response_from_state state cfg.registry
    pub kept : (get own_id res.1 ≡ some state) ⊎ IsFailed state
    pub owner : (state.trace_id ≡ own_id) × (state.identity ≡ identity)
    pub others : (t : String) → own_id ≢ t → get t res.1 ≡ get t st

  others-update :
      (s : QueryState) (st : Store) (t : String)
      → s.trace_id ≡ own_id
      → own_id ≢ t
      → get t (update s st).1 ≡ get t st
  others-update s st t e h = law.update_others s st t (λ p. h (sym-trans e p))
    where
      sym-trans : s.trace_id ≡ own_id → s.trace_id ≡ t → own_id ≡ t
      sym-trans p q = cc

  fail-IsAnswer :
      (s : QueryState) (st : Store)
      → s.trace_id ≡ own_id
      → s.identity ≡ identity
      → IsAnswer st (fail cfg now fresh request identity repo s st)
  unfolding fail failed_state
  fail-IsAnswer s st e i = record {
    state = failed_state cfg now fresh request identity s;
    told = refl;
    kept = inr (refl, refl, refl);
    owner = (e, i);
    others = λ t h. others-update (failed_state cfg now fresh request identity s) st t e h;
  }

  -- What is true of the other requests carries over a call that leaves them alone.
  IsAnswer-after :
      (st st' : Store) (res : QueryResponse × Store)
      → ((t : String) → own_id ≢ t → get t st' ≡ get t st)
      → IsAnswer st' res
      → IsAnswer st res
  IsAnswer-after st st' res same a = record {
    state = a.state;
    told = a.told;
    kept = a.kept;
    owner = a.owner;
    others = λ t h. a.others t h ∙ same t h;
  }

  -- A state of this request that is stored, and the answer with it.
  answer-IsAnswer :
      (s : QueryState) (st : Store)
      → s.trace_id ≡ own_id
      → s.identity ≡ identity
      → get own_id st ≡ some s
      → IsAnswer st (answer cfg now fresh request identity repo s st)
  answer-IsAnswer s st e i stored = record {
    state = s;
    told = refl;
    kept = inl stored;
    owner = (e, i);
    others = λ t h. refl;
  }

  -- An update with a state of this request, and the answer after it.
  store-IsAnswer :
      (s : QueryState) (st : Store)
      → s.trace_id ≡ own_id
      → s.identity ≡ identity
      → IsAnswer st (
          if (update s st).0
          then answer cfg now fresh request identity repo s (update s st).1
          else fail cfg now fresh request identity repo s (update s st).1)
  store-IsAnswer s st e i = elim (Bool-cases (update s st).0) [
    | inl ok ↦ rw ok (
        IsAnswer-after st (update s st).1 _ (λ t h. others-update s st t e h)
          (answer-IsAnswer s (update s st).1 e i
            (subst (λ k. get k (update s st).1 ≡ some s) e (law.update_stores s st ok))))
    | inr raised ↦ rw raised (
        IsAnswer-after st (update s st).1 _ (λ t h. others-update s st t e h)
          (fail-IsAnswer s (update s st).1 e i))
  ]

  abbrev first_state : QueryState
  first_state = accepted cfg now fresh request identity

  abbrev second_state : QueryState
  second_state = decided cfg now fresh request identity

  run_pipeline-IsAnswer :
      (p : QueryPipeline) (st : Store)
      → IsAnswer st (run_pipeline cfg now fresh request identity repo p st)
  unfolding run_pipeline decided accepted completed
  run_pipeline-IsAnswer p st =
      elim (Option-cases (p request (context cfg now fresh request identity))) [
        | inl e ↦ rw (e, run_pipeline) (fail-IsAnswer second_state st refl refl)
        | inr (o, e) ↦
            rw (e, run_pipeline)
              (store-IsAnswer (completed cfg now fresh request identity o) st refl refl)
      ]

  proceed-IsAnswer :
      (p : Option QueryPipeline) (st : Store)
      → get own_id st ≡ some second_state
      → IsAnswer st (proceed_with cfg now fresh request identity repo p st)
  unfolding proceed_with decided accepted
  proceed-IsAnswer none st stored = answer-IsAnswer second_state st refl refl stored
  proceed-IsAnswer (some p) st stored = elim (Bool-cases (is_processing second_state.status)) [
    | inl on ↦ rw on (run_pipeline-IsAnswer p st)
    | inr off ↦ rw off (answer-IsAnswer second_state st refl refl stored)
  ]

  -- With a lawful repository, whatever of its calls raise and whatever the pipeline does, `submit`
  -- answers with the response of one state of the request, under its own trace id and identity; that
  -- state is stored under the trace id, or it is the safe failure with the fixed message; every other
  -- request is stored as before.
  pub submit-IsAnswer : (st : Store) → IsAnswer st (submit cfg now fresh request identity repo st)
  unfolding submit proceed decided accepted
  submit-IsAnswer st =
      let st1 = (create first_state st).1 in
      let st2 = (update second_state st1).1 in
      let others1 = λ (t : String) (h : own_id ≢ t). law.create_others first_state st t h in
      let others2 = λ (t : String) (h : own_id ≢ t). others-update second_state st1 t refl h in
      elim (Bool-cases (create first_state st).0) [
        | inr raised ↦
            rw raised (IsAnswer-after st st1 _ others1 (fail-IsAnswer first_state st1 refl refl))
        | inl created ↦ rw created (
            IsAnswer-after st st1 _ others1 (
              IsAnswer-after st1 st2 _ others2 (elim (Bool-cases (update second_state st1).0) [
                | inr raised ↦ rw raised (fail-IsAnswer second_state st2 refl refl)
                | inl updated ↦
                    rw updated (
                      proceed-IsAnswer cfg.pipeline st2
                        (law.update_stores second_state st1 updated))
              ])))
      ]
