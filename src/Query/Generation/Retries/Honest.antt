-- ===== src/Query/Generation/Retries/Honest.antt =====
-- How the generation ends: with an outcome that claims no success, unless the decoder breaks.
use atlas_sql.Common.{
  ℕ, zero, suc, ◌+◌, ◌≤◌, String, Bool, true, false, Option, none, some, ◌≡◌, ◌≢◌, ◌⊎◌, inl, inr,
  refl, arith, is_blank, strip, leb, either_branch, Bool-cases, if◌then◌else◌,
}
use atlas_sql.Query.Types.{QueryStatus, QueryErrorCode, QueryOutcome, text_length}
use atlas_sql.Query.Execution.{Attempt, returned, refused, raised}
use atlas_sql.Query.Generation.{
  Decoder, LlmResponse, invalid_output, no_usage, Action, SqlGenerationPayload, check_sql,
  check_reason, check_payload, parse_sql_payload, Reply, completed, gateway_error, Usage,
  LlmErrorKind, gateway_error_code, safe_error_message, max_sql_chars, max_model_output_chars,
}
use atlas_sql.Query.Generation.Retries.{
  outcome_with, GenerationSettings, success, failure, read_reply, used, attempt_generation,
  run_generation,
}

-- The text of a candidate: stripped, not blank, of at most the allowed length before.
abbrev pub IsCandidate : Option String → Type 0
IsCandidate sql =
    (s : String) × (sql ≡ some (strip s))
    × (is_blank (strip s) ≡ false)
    × (text_length s ≤ max_sql_chars)

-- No claim of success, and SQL wherever the query goes on.
pub record IsHonest (o : QueryOutcome) : Type 0 where
  pub not_succeeded : o.status ≢ QueryStatus.succeeded
  pub candidate : o.status ≡ QueryStatus.processing → IsCandidate o.sql

-- A payload whose SQL, if it generates, is a candidate.
abbrev pub IsChecked : SqlGenerationPayload → Type 0
IsChecked p = p.action ≡ Action.generate → IsCandidate p.sql

-- A code that the program has a message for.
abbrev pub HasMessage : QueryErrorCode → Type 0
HasMessage code = (m : String) × (safe_error_message code ≡ some m)

-- A parsed payload is checked, a refusal has a message, and an exception needs a reason.
abbrev IsParsed : Type 0 → Attempt QueryErrorCode SqlGenerationPayload → Type 0
IsParsed Reason raised = Reason
IsParsed Reason (refused code) = HasMessage code
IsParsed Reason (returned p) = IsChecked p

check_sql-IsParsed :
    (Reason : Type 0) (sql reason : Option String) → IsParsed Reason (check_sql sql reason)
unfolding check_sql safe_error_message
check_sql-IsParsed Reason none reason = ("模型未返回可用 SQL，请补充问题后重试。", refl)
check_sql-IsParsed Reason (some s) reason = elim (Bool-cases (is_blank (strip s))) [
  | inl b ↦ rw (b, check_sql) ("模型未返回可用 SQL，请补充问题后重试。", refl)
  | inr b ↦ elim (Bool-cases (leb (text_length s) max_sql_chars)) [
    | inl short ↦ rw (b, short, check_sql) (λ e. (s, refl, b, ground arith))
    | inr long ↦ rw (b, long, check_sql) ("模型返回格式无效，请重试。", refl)
  ]
]

check_reason-IsParsed :
    (Reason : Type 0) (a : Action) (sql reason : Option String)
    → a ≢ Action.generate
    → IsParsed Reason (check_reason a sql reason)
unfolding check_reason safe_error_message
check_reason-IsParsed Reason a (some s) reason h = ("模型返回格式无效，请重试。", refl)
check_reason-IsParsed Reason a none none h = ("模型返回格式无效，请重试。", refl)
check_reason-IsParsed Reason a none (some r) h = elim (Bool-cases (is_blank (strip r))) [
  | inl b ↦ rw (b, check_reason) ("模型返回格式无效，请重试。", refl)
  | inr b ↦ rw (b, check_reason) (λ e. absurd (h e))
]

Action-cases : (a : Action) → (a ≡ Action.generate) ⊎ (a ≡ Action.clarify) ⊎ (a ≡ Action.reject)
Action-cases Action.generate = inl refl
Action-cases Action.clarify = inr (inl refl)
Action-cases Action.reject = inr (inr refl)

check_payload-IsParsed :
    (Reason : Type 0) (p : SqlGenerationPayload) → IsParsed Reason (check_payload p)
unfolding check_payload
check_payload-IsParsed Reason p = elim (Action-cases p.action) [
  | inl e ↦ rw (e, check_payload) (check_sql-IsParsed Reason p.sql p.reason)
  | inr (inl e) ↦
      rw (e, check_payload)
        (check_reason-IsParsed Reason Action.clarify p.sql p.reason (λ q. ground arith))
  | inr (inr e) ↦
      rw (e, check_payload)
        (check_reason-IsParsed Reason Action.reject p.sql p.reason (λ q. ground arith))
]

-- The decoder was given the text and raised what is not caught.
abbrev pub BreaksOn : Decoder → String → Type 0
BreaksOn decode text = (decode text ≡ raised) × (text_length text ≤ max_model_output_chars)

parse_sql_payload-IsParsed :
    (decode : Decoder) (text : String)
    → IsParsed (BreaksOn decode text) (parse_sql_payload decode text)
unfolding parse_sql_payload safe_error_message
parse_sql_payload-IsParsed decode text =
    elim (Bool-cases (leb (text_length text) max_model_output_chars)) [
      | inr long ↦ rw (long, parse_sql_payload) ("模型返回格式无效，请重试。", refl)
      | inl short ↦ rw (short, parse_sql_payload) (decoded (ground arith) (decode text) refl)
    ]
  where
    decoded :
        text_length text ≤ max_model_output_chars
        → (a : Attempt (Unit {0}) SqlGenerationPayload) → decode text ≡ a
        → IsParsed
            (BreaksOn decode text)
            (elim a [ raised ↦ raised | refused _ ↦ invalid_output | returned p ↦ check_payload p ])
    decoded short raised e = (e, short)
    decoded short (refused u) e = ("模型返回格式无效，请重试。", refl)
    decoded short (returned p) e = check_payload-IsParsed (BreaksOn decode text) p

gateway_error_code-HasMessage : (k : LlmErrorKind) → HasMessage (gateway_error_code k)
unfolding gateway_error_code safe_error_message
gateway_error_code-HasMessage LlmErrorKind.timeout = ("模型调用超时，请稍后重试。", refl)
gateway_error_code-HasMessage LlmErrorKind.rate_limit = ("模型服务繁忙，请稍后重试。", refl)
gateway_error_code-HasMessage LlmErrorKind.invalid_response = ("模型返回格式无效，请重试。", refl)
gateway_error_code-HasMessage LlmErrorKind.configuration = ("模型服务暂时不可用，请稍后重试。", refl)
gateway_error_code-HasMessage LlmErrorKind.provider = ("模型服务暂时不可用，请稍后重试。", refl)

module _ (cfg : GenerationSettings) where
  -- An outcome there is, and it is honest.
  abbrev pub HasHonest : Option QueryOutcome → Type 0
  HasHonest r = (o : QueryOutcome) × (r ≡ some o) × IsHonest o

  -- An answer of the model on which the decoder breaks.
  abbrev pub Breaks : Reply → Type 0
  Breaks reply = (r : LlmResponse) × (reply ≡ completed r) × BreaksOn cfg.decode r.output_text

  -- It ends with an honest outcome, or the decoder broke on an answer.
  abbrev pub EndsHonest : Option QueryOutcome → Type 0
  EndsHonest o = HasHonest o ⊎ ((o ≡ none) × (n : ℕ) × Breaks (cfg.gateway n))

  abbrev IsRead : Reply → Attempt (QueryErrorCode × Bool) SqlGenerationPayload → Type 0
  IsRead reply raised = Breaks reply
  IsRead reply (refused e) = HasMessage e.0
  IsRead reply (returned p) = IsChecked p

  failure-HasHonest :
      (code : QueryErrorCode) (u : Usage) → HasMessage code → HasHonest (failure cfg code u)
  unfolding failure
  failure-HasHonest code u (m, e) = (
    outcome_with cfg QueryStatus.failed none (some code) (some m) u,
    rw (e, failure) refl,
    record { not_succeeded = λ s. ground arith; candidate = λ s. absurd (ground arith) },
  )

  success-IsHonest :
      (p : SqlGenerationPayload) (u : Usage) → IsChecked p → IsHonest (success cfg p u)
  unfolding success
  success-IsHonest p u c = elim (Action-cases p.action) [
    | inl e ↦ rw (e, success) (record { not_succeeded = λ s. ground arith; candidate = λ s. c e })
    | inr (inl e) ↦
        rw (e, success)
          (record { not_succeeded = λ s. ground arith; candidate = λ s. absurd (ground arith) })
    | inr (inr e) ↦
        rw (e, success)
          (record { not_succeeded = λ s. ground arith; candidate = λ s. absurd (ground arith) })
  ]

  read_reply-IsRead : (r : Reply) → IsRead r (read_reply cfg r)
  unfolding read_reply
  read_reply-IsRead (gateway_error kind retryable) = gateway_error_code-HasMessage kind
  read_reply-IsRead (completed r) =
      read (parse_sql_payload cfg.decode r.output_text)
        (parse_sql_payload-IsParsed cfg.decode r.output_text)
    where
      read :
          (a : Attempt QueryErrorCode SqlGenerationPayload)
          → IsParsed (BreaksOn cfg.decode r.output_text) a
          → IsRead (completed r) (elim a [
            | raised ↦ raised
            | refused code ↦ refused (code, true)
            | returned p ↦ returned p
          ])
      read raised h = (r, refl, h)
      read (refused code) h = h
      read (returned p) h = h

  attempt_generation-EndsHonest :
      (left n : ℕ) (u : Usage) → EndsHonest (attempt_generation cfg left n u)
  unfolding attempt_generation
  attempt_generation-EndsHonest zero n u =
      ending (read_reply cfg (cfg.gateway n)) (read_reply-IsRead (cfg.gateway n))
    where
      ending :
          (a : Attempt (QueryErrorCode × Bool) SqlGenerationPayload)
          → IsRead (cfg.gateway n) a
          → EndsHonest (elim a [
            | raised ↦ none
            | refused e ↦ failure cfg e.0 (used cfg u (cfg.gateway n))
            | returned p ↦ some (success cfg p (used cfg u (cfg.gateway n)))
          ])
      ending raised h = inr (refl, n, h)
      ending (refused e) h = inl (failure-HasHonest e.0 (used cfg u (cfg.gateway n)) h)
      ending (returned p) h = inl (_, refl, success-IsHonest p (used cfg u (cfg.gateway n)) h)
  attempt_generation-EndsHonest (suc left) n u =
      ending (attempt_generation-EndsHonest left (n + 1) (used cfg u (cfg.gateway n)))
        (read_reply cfg (cfg.gateway n)) (read_reply-IsRead (cfg.gateway n))
    where
      ending :
          {next : Option QueryOutcome}
          → EndsHonest next
          → (a : Attempt (QueryErrorCode × Bool) SqlGenerationPayload) → IsRead (cfg.gateway n) a
          → EndsHonest (elim a [
            | raised ↦ none
            | refused e ↦ if e.1 then next else failure cfg e.0 (used cfg u (cfg.gateway n))
            | returned p ↦ some (success cfg p (used cfg u (cfg.gateway n)))
          ])
      ending again raised h = inr (refl, n, h)
      ending again (refused e) h =
          either_branch EndsHonest e.1 _ _ again
            (inl (failure-HasHonest e.0 (used cfg u (cfg.gateway n)) h))
      ending again (returned p) h = inl (_, refl, success-IsHonest p (used cfg u (cfg.gateway n)) h)

  pub run_generation-EndsHonest :
      (deadline : Option Usage) → EndsHonest (run_generation cfg deadline)
  unfolding run_generation safe_error_message
  run_generation-EndsHonest none = attempt_generation-EndsHonest cfg.max_retries 0 no_usage
  run_generation-EndsHonest (some u) =
      inl (failure-HasHonest QueryErrorCode.llm_timeout u ("模型调用超时，请稍后重试。", refl))
