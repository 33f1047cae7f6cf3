-- ===== src/Query/Tests.antt =====
-- One question about sales, submitted with the in-memory repository, and the theorems at it.
use atlas_sql.Common.{
  String, true, false, none, some, [], ◌∷◌, ◌≡◌, refl, contains, lookup, contains_text, string_eq,
  arith, eq_iff, List, Among, inl, inr, ◌↔◌, ◌≢◌,
}
use atlas_sql.Semantic.Registry.{MetricEntry, SemanticRegistry, all_metrics}
use atlas_sql.Query.Types.{
  QueryStatus, QueryErrorCode, QueryRequest, QueryOutcome, QueryState, make_request,
}
use atlas_sql.Query.Scope.{
  select_relevant_tables, resolve_metric_ids, assess_scope, extra_tables, table_keywords,
}
use atlas_sql.Query.Scope.Relevance.{
  allowed_tables, select_relevant_tables-allowed, select_relevant_tables_complete,
  resolve_metric_ids-exact, Names,
}
use atlas_sql.Query.Repository.InMemory.{Records, in_memory, in_memory-IsLawful}
use atlas_sql.Query.Orchestrator.{
  Settings, QueryPipeline, accepted, decided, failed_state, safe_message, submit, get,
}
use atlas_sql.Query.Orchestrator.Storing.{IsAnswer, submit-IsAnswer}
use atlas_sql.Query.Orchestrator.Ownership.{submit-duplicate}
use atlas_sql.Query.Orchestrator.Answers.{Shows, submit-get, submit-fresh}

abbrev asked : String
asked = "各城市的净销售额"

abbrev sales_entry : MetricEntry
sales_entry = record {
  metric_id = "net_sales";
  label = "净销售额";
  domain = "sales";
  grain = "order";
  expression = "SUM(order_amount)";
  required_filters = [];
  dependent_columns = [];
  allowed_dimensions = [];
  time_role = "paid_at";
  zero_denominator_policy = "not_applicable";
  unit = none;
  currency = none;
  synonyms = [];
  is_sensitive = false;
  time_rule_note = none;
  warning = none;
  version_number = 1;
}

abbrev registry : SemanticRegistry
registry = record { metric_map = ("net_sales", sales_entry) ∷ []; synonym_map = [] }

abbrev pub request : QueryRequest
request = record { question = asked; session_id = "s1"; trace_id = some "t1" }

abbrev pub outcome : QueryOutcome
outcome = record {
  status = QueryStatus.succeeded;
  sql = some "SELECT 1";
  columns = [];
  rows = [];
  error_code = none;
  error_message = none;
  truncated = false;
  prompt_version = none;
  prompt_hash = none;
  model_version = none;
  model_parameters = none;
  input_tokens = 3;
  output_tokens = 4;
  total_tokens = 7;
  provider_request_id = none;
  execution_time = none;
  referenced_tables = "fact_order" ∷ [];
  referenced_columns = [];
  stages = [];
  summary = none;
}

abbrev always : QueryPipeline
always = λ r c. some outcome

abbrev settings : Settings
settings = record {
  data_version = "v0.1.0";
  schema_version = "001";
  model_version = "m";
  timeout_ms = 30000;
  pipeline = some always;
  registry = some registry;
}

-- What ann asked under the trace id that bob uses again.
abbrev of_ann : QueryState
of_ann = accepted settings 1 "fresh" request "ann"

abbrev taken : Records
taken = ("t1", of_ann) ∷ []

tables_test : select_relevant_tables asked ≡ "fact_order" ∷ "dim_store" ∷ "dim_city" ∷ []
unfolding select_relevant_tables extra_tables table_keywords contains_text
tables_test = refl

blank_test : make_request "  " none none "s1" ≡ none
unfolding make_request
blank_test = refl

select_relevant_tables-allowed_example : contains allowed_tables "dim_city" ≡ true
unfolding select_relevant_tables extra_tables table_keywords contains_text
select_relevant_tables-allowed_example = select_relevant_tables-allowed asked "dim_city" refl

abbrev city_keywords : List String
city_keywords = "城市" ∷ "市" ∷ "province" ∷ "城区" ∷ []

select_relevant_tables_complete_example : contains (select_relevant_tables asked) "dim_city" ≡ true
unfolding table_keywords contains_text
select_relevant_tables_complete_example =
    select_relevant_tables_complete asked "dim_city"
      (inr (city_keywords, "城市", inr (inl refl), inl refl, refl))

resolve_metric_ids-exact_example :
    (contains (resolve_metric_ids asked (some registry)) "net_sales" ≡ true) ↔ (
      (e : MetricEntry) × Among e (all_metrics registry)
      × (e.metric_id ≡ "net_sales")
      × Names asked e)
resolve_metric_ids-exact_example = resolve_metric_ids-exact asked registry "net_sales"

submit-IsAnswer_example :
    IsAnswer settings 5 "fresh" request "bob" in_memory in_memory-IsLawful taken
      (submit settings 5 "fresh" request "bob" in_memory taken)
submit-IsAnswer_example =
    submit-IsAnswer settings 5 "fresh" request "bob" in_memory in_memory-IsLawful taken

submit-get_example :
    let res = submit settings 5 "fresh" request "bob" in_memory taken in
    (get in_memory (some registry) "t1" "bob" res.1 ≡ some res.0)
    × ((other : String) → other ≢ "bob" → get in_memory (some registry) "t1" other res.1 ≡ none)
submit-get_example = submit-get settings 5 "fresh" request "bob" taken

submit-duplicate_example :
    let res = submit settings 5 "fresh" request "bob" in_memory taken in
    (res.0.status ≡ QueryStatus.failed)
    × (res.0.error ≡ some (record { code = QueryErrorCode.internal_error; message = safe_message }))
    × (lookup "t1" res.1
        ≡ some (
            failed_state settings 5 "fresh" request "bob"
              (accepted settings 5 "fresh" request "bob")))
    × (get in_memory (some registry) "t1" "ann" res.1 ≡ none)
unfolding lookup accepted
submit-duplicate_example =
    submit-duplicate settings 5 "fresh" request "bob" taken of_ann refl
      (λ e. ground (arith, eq_iff "ann" "bob"))

submit-fresh_example :
    Shows settings 5 "fresh" request "bob" outcome
      (submit settings 5 "fresh" request "bob" in_memory []).0
unfolding lookup decided assess_scope contains_text
submit-fresh_example =
    submit-fresh settings 5 "fresh" request "bob" [] always outcome refl refl refl refl
