-- ===== src/Query/Context/Rendering.antt =====
-- SemanticContext.to_prompt_dict of server/generation/context.py, and MetricEntry.to_prompt_dict of
-- server/semantic/registry.py: what goes into the prompt.
use atlas_sql.Common.{
  ℕ, String, Bool, not, ◌&&◌, ◌||◌, Option, none, some, List, [], ◌∷◌, map, if◌then◌else◌, filter,
  ◌==◌, string_eq, is_blank, contains, dedup, flat_map, any, contains-dedup, contains-append, ◌≡◌,
  refl, ◌∙◌, arith,
}
use Prim.Native.String.{◌++◌ as append_text}
use atlas_sql.Query.Context.{text_of, ValueLink, VerifiedExample, SemanticContext}
use atlas_sql.Semantic.Registry.{MetricEntry}
use atlas_sql.Search.Candidates.{Payload}

-- _wrap_untrusted
abbrev pub wrap_untrusted : String → String
wrap_untrusted text = append_text "<!-- untrusted -->" (append_text text "<!-- /untrusted -->")

-- a or b, of texts that may be missing
abbrev pub either_text : Option String → Option String → String
either_text none b = text_of b
either_text (some s) b = if is_blank s then text_of b else s

-- The text of MetricEntry.to_prompt_dict; a field that is none is left out.
pub record PromptMetric : Type 0 where
  pub id : String
  pub label : String
  pub grain : String
  pub expression : String
  pub required_filters : List String
  pub time_role : String
  pub zero_denominator : String
  pub warning : Option String
  pub time_rule : Option String
  pub unit : Option String

-- if value: result[key] = value
abbrev pub if_given : Option String → Option String
if_given none = none
if_given (some s) = if is_blank s then none else some s

unfoldable pub metric_prompt : MetricEntry → PromptMetric
metric_prompt m = record {
  id = m.metric_id;
  label = m.label;
  grain = m.grain;
  expression = m.expression;
  required_filters = m.required_filters;
  time_role = m.time_role;
  zero_denominator = m.zero_denominator_policy;
  warning = if_given m.warning;
  time_rule = if_given m.time_rule_note;
  unit = if_given m.unit;
}

pub record PromptColumn : Type 0 where
  pub column_name : String
  pub data_type : String
  pub business_name : String
  pub description : String
  pub is_primary_key : Bool
  pub foreign_key_ref : Option String

pub record PromptTable : Type 0 where
  pub table_name : String
  pub business_name : String
  pub description : String
  pub domain : String
  pub columns : List PromptColumn

abbrev pub prompt_column : Payload → PromptColumn
prompt_column c = record {
  column_name = text_of c.column_name;
  data_type = text_of c.data_type;
  business_name = either_text c.manual_business_name c.business_name;
  description = either_text c.manual_description c.description;
  is_primary_key = c.is_primary_key;
  foreign_key_ref = c.foreign_key_ref;
}

-- The columns of the table of that name; a column without a table stands nowhere.
abbrev pub columns_under : String → List Payload → List Payload
columns_under name columns =
    filter (λ (c : Payload). not (is_blank (text_of c.table_name)) && text_of c.table_name == name)
      columns

-- The description with the comment, which is marked as not trusted.
unfoldable pub described : String → String → String
described desc comment =
    if is_blank comment || comment == desc
    then desc
    else if is_blank desc
    then wrap_untrusted comment
    else append_text desc (append_text " | " (wrap_untrusted comment))

abbrev pub prompt_table : List Payload → Payload → PromptTable
prompt_table columns t = record {
  table_name = text_of t.table_name;
  business_name = either_text t.manual_business_name t.business_name;
  description = described (either_text t.manual_description t.description) (text_of t.raw_comment);
  domain = text_of t.domain;
  columns = map prompt_column (columns_under (text_of t.table_name) columns);
}

-- _render_schema
unfoldable pub render_schema_prompt : List Payload → List Payload → List PromptTable
unfolding described
render_schema_prompt tables columns = map (prompt_table columns) tables

pub record PromptExample : Type 0 where
  pub question : String
  pub sql : String
  pub source_id : String

pub record PromptContext : Type 0 where
  pub semantic_version_ref : String
  pub schema : List PromptTable
  pub join_paths : List String
  pub metrics : List PromptMetric
  pub value_mappings : List ValueLink
  pub verified_examples : List PromptExample
  pub estimated_tokens : ℕ

abbrev pub prompt_example : VerifiedExample → PromptExample
prompt_example e = record {
  question = wrap_untrusted e.question;
  sql = wrap_untrusted e.sql;
  source_id = e.query_id;
}

-- SemanticContext.to_prompt_dict
unfoldable pub to_prompt : SemanticContext → PromptContext
unfolding render_schema_prompt metric_prompt
to_prompt c = record {
  semantic_version_ref = c.semantic_version_ref;
  schema = render_schema_prompt c.schema_tables c.schema_columns;
  join_paths = c.join_paths;
  metrics = map metric_prompt c.metric_entries;
  value_mappings = c.value_links;
  verified_examples = map prompt_example c.verified_examples;
  estimated_tokens = c.estimated_tokens;
}

-- SemanticContext.required_filters
unfoldable pub required_filters : SemanticContext → List String
required_filters c = dedup (flat_map (λ (m : MetricEntry). m.required_filters) c.metric_entries)

contains-flat_map :
    (ms : List MetricEntry) (x : String)
    → contains (flat_map (λ (m : MetricEntry). m.required_filters) ms) x
      ≡ any (λ (m : MetricEntry). contains m.required_filters x) ms
contains-flat_map [] x = refl
contains-flat_map (m ∷ ms) x = ground (
  arith,
  contains-append m.required_filters (flat_map (λ (n : MetricEntry). n.required_filters) ms) x,
  contains-flat_map ms x,
)

-- The filters that must be applied are exactly those of the metrics of the context.
pub required_filters-exact :
    (c : SemanticContext) (x : String)
    → contains (required_filters c) x
      ≡ any (λ (m : MetricEntry). contains m.required_filters x) c.metric_entries
unfolding required_filters
required_filters-exact c x =
    contains-dedup (flat_map (λ (m : MetricEntry). m.required_filters) c.metric_entries) x
    ∙ contains-flat_map c.metric_entries x
