-- ===== src/Query/Context.antt =====
-- server/generation/context.py: SemanticContextBuilder. A pattern of _INJECTION_PATTERNS is an
-- argument: whether it is found in a text, and the text with what it finds replaced.
pub mod Trimming
pub mod Assembled
pub mod Rendering
mod Tests
use atlas_sql.Common.{
  zero, suc, ℕ, ◌+◌, ◌*◌, ◌-◌, String, Bool, true, false, not, ◌&&◌, ◌||◌, Option, none, some, List,
  [], ◌∷◌, ◌++◌, map, if◌then◌else◌, filter, take, length, ltb, leb, contains, is_empty, is_blank,
  ◌==◌, string_eq, suc,
}
use atlas_sql.Semantic.Registry.{MetricEntry}
use atlas_sql.Search.Candidates.{Candidate, Payload}

abbrev pub t_table_header : ℕ
t_table_header = 20

abbrev pub t_column : ℕ
t_column = 15

abbrev pub t_metric : ℕ
t_metric = 50

abbrev pub t_example : ℕ
t_example = 80

abbrev pub t_value_map : ℕ
t_value_map = 10

abbrev pub t_join_path : ℕ
t_join_path = 15

pub record ValueLink : Type 0 where
  pub source_text : String
  pub column_ref : String
  pub db_value : String
  pub evidence : String

-- The similarity of an example is not read.
pub record VerifiedExample : Type 0 where
  pub query_id : String
  pub question : String
  pub sql : String

-- The entries of untrusted_fields.
pub data UntrustedField : Type 0 where
  table_comment : Option String → UntrustedField
  column_comment : Option String → Option String → UntrustedField
  verified_examples : UntrustedField

pub record SemanticContext : Type 0 where
  pub schema_tables : List Payload
  pub schema_columns : List Payload
  pub join_paths : List String
  pub metric_entries : List MetricEntry
  pub value_links : List ValueLink
  pub verified_examples : List VerifiedExample
  pub semantic_version_ref : String
  pub estimated_tokens : ℕ
  pub token_budget_exceeded : Bool
  pub untrusted_fields : List UntrustedField

-- SemanticContextBuilder(...); no allowed domains are the empty list.
pub record ContextSettings : Type 0 where
  pub budget : ℕ
  pub max_examples : ℕ
  pub allowed_domains : List String

-- The fixed part of an estimate.
pub record Fixed : Type 0 where
  pub tables : List Payload
  pub metrics : List MetricEntry
  pub value_links : List ValueLink
  pub join_paths : List String

abbrev pub fixed_tokens : Fixed → ℕ
fixed_tokens f =
    length f.tables * t_table_header
    + length f.metrics * t_metric
    + length f.value_links * t_value_map
    + length f.join_paths * t_join_path

-- _estimate_tokens
abbrev pub estimate_tokens : Fixed → List Payload → List VerifiedExample → ℕ
estimate_tokens f columns examples =
    length f.tables * t_table_header
    + length columns * t_column
    + length f.metrics * t_metric
    + length examples * t_example
    + length f.value_links * t_value_map
    + length f.join_paths * t_join_path

-- is_primary_key or foreign_key_ref
abbrev pub has_text : Option String → Bool
has_text none = false
has_text (some s) = not (is_blank s)

abbrev pub is_protected : Payload → Bool
is_protected c = c.is_primary_key || has_text c.foreign_key_ref

-- The ordinary columns that are kept, after `used` tokens.
unfoldable pub keep_ordinary : ℕ → ℕ → List Payload → List Payload
keep_ordinary remaining used [] = []
keep_ordinary remaining used (c ∷ cs) =
    let rest = keep_ordinary remaining (used + t_column) cs in
    if ltb remaining (used + t_column) then [] else c ∷ rest

-- _trim_columns. The budget of Python may be negative; it is 0 here, and so is max(0, ...) there.
unfoldable pub trim_columns : List Payload → ℕ → List Payload
unfolding keep_ordinary
trim_columns columns col_budget =
    let kept = filter is_protected columns in
    let ordinary = filter (λ c. not (is_protected c)) columns in
    kept ++ keep_ordinary (col_budget - length kept * t_column) 0 ordinary

-- examples.pop()
abbrev pub drop_last : List VerifiedExample → List VerifiedExample
drop_last [] = []
drop_last (e ∷ []) = []
drop_last (e ∷ d ∷ es) = e ∷ drop_last (d ∷ es)

-- The loop over the examples, on fuel: their number is enough.
unfoldable pub trim_examples :
    ℕ → Fixed → List Payload → ℕ → List VerifiedExample → List VerifiedExample
trim_examples zero f columns budget examples = examples
trim_examples (suc n) f columns budget examples =
    let rest = trim_examples n f columns budget (drop_last examples) in
    if not (is_empty examples) && ltb budget (estimate_tokens f columns examples)
    then rest
    else examples

-- What is left of the examples and the columns.
pub record Trimmed : Type 0 where
  pub examples : List VerifiedExample
  pub columns : List Payload

-- _apply_budget_trim
unfoldable pub apply_budget_trim : Fixed → List VerifiedExample → List Payload → ℕ → Trimmed
unfolding trim_columns trim_examples
apply_budget_trim f examples columns budget =
    let kept = trim_examples (length examples) f columns budget examples in
    record {
      examples = kept;
      columns = trim_columns columns (budget - fixed_tokens f - length kept * t_example);
    }

unfoldable pub trim_if : Bool → Fixed → List VerifiedExample → List Payload → ℕ → Trimmed
unfolding apply_budget_trim
trim_if exceeded f examples columns budget =
    if exceeded
    then apply_budget_trim f examples columns budget
    else record { examples = examples; columns = columns }

pub record Pattern : Type 0 where
  pub is_found : String → Bool
  pub redact : String → String

-- _sanitize_untrusted, of a text that is not empty
abbrev pub sanitize_with : List Pattern → String → Bool → String × Bool
sanitize_with [] text found = (text, found)
sanitize_with (p ∷ ps) text found =
    if p.is_found text then sanitize_with ps (p.redact text) true else sanitize_with ps text found

-- _sanitize_untrusted
unfoldable pub sanitize_untrusted : List Pattern → String → String × Bool
sanitize_untrusted ps text = if is_blank text then (text, false) else sanitize_with ps text false

abbrev pub text_of : Option String → String
text_of none = ""
text_of (some s) = s

-- if injected: payload["raw_comment"] = cleaned
unfoldable pub clean : List Pattern → Payload → Payload
unfolding sanitize_untrusted
clean ps p =
    let result = sanitize_untrusted ps (text_of p.raw_comment) in
    if result.1 then record p { raw_comment = some result.0 } else p

abbrev pub is_injected : List Pattern → Payload → Bool
is_injected ps p = (sanitize_untrusted ps (text_of p.raw_comment)).1

-- An empty list of domains allows every domain, and a candidate without a domain is always allowed.
abbrev pub is_allowed_domain : List String → String → Bool
is_allowed_domain domains d = is_empty domains || is_blank d || contains domains d

abbrev pub is_safe_metric : List String → MetricEntry → Bool
is_safe_metric domains m = is_empty domains || not m.is_sensitive || contains domains m.domain

-- What was asked for.
pub record ContextRequest (W : Type 0) : Type 0 where
  pub tables : List (Candidate W)
  pub columns : List (Candidate W)
  pub metric_entries : List MetricEntry
  pub value_links : List ValueLink
  pub verified_examples : List VerifiedExample
  pub join_paths : List String
  pub semantic_version_ref : String

module _ {W : Type 0} (patterns : List Pattern) where
  abbrev pub allowed : List String → List (Candidate W) → List (Candidate W)
  allowed domains cs = filter (λ (c : Candidate W). is_allowed_domain domains c.domain) cs

  abbrev pub payloads : List (Candidate W) → List Payload
  payloads cs = map (λ (c : Candidate W). clean patterns c.payload) cs

  abbrev pub injected : List (Candidate W) → List Payload
  injected cs =
      map (λ (c : Candidate W). c.payload)
        (filter (λ (c : Candidate W). is_injected patterns c.payload) cs)

  abbrev pub untrusted : List String → ContextRequest W → List UntrustedField
  untrusted domains r =
      map (λ (p : Payload). table_comment p.table_name) (injected (allowed domains r.tables))
      ++ (map (λ (p : Payload). column_comment p.table_name p.column_name)
            (injected (allowed domains r.columns))
          ++ (if is_empty r.verified_examples then [] else verified_examples ∷ []))

  abbrev pub fixed_part : ContextSettings → ContextRequest W → Fixed
  fixed_part s r = record {
    tables = payloads (allowed s.allowed_domains r.tables);
    metrics = filter (is_safe_metric s.allowed_domains) r.metric_entries;
    value_links = r.value_links;
    join_paths = r.join_paths;
  }

  abbrev pub safe_columns : ContextSettings → ContextRequest W → List Payload
  safe_columns s r = payloads (allowed s.allowed_domains r.columns)

  abbrev pub is_exceeded : ContextSettings → ContextRequest W → Bool
  is_exceeded s r = ltb s.budget (
      estimate_tokens (fixed_part s r) (safe_columns s r) (take s.max_examples r.verified_examples))

  abbrev pub trimmed : ContextSettings → ContextRequest W → Trimmed
  trimmed s r =
      trim_if (is_exceeded s r) (fixed_part s r) (take s.max_examples r.verified_examples)
        (safe_columns s r) s.budget

  -- SemanticContextBuilder.build
  unfoldable pub build : ContextSettings → ContextRequest W → SemanticContext
  unfolding clean trim_if
  build s r = record {
    schema_tables = (fixed_part s r).tables;
    schema_columns = (trimmed s r).columns;
    join_paths = r.join_paths;
    metric_entries = (fixed_part s r).metrics;
    value_links = r.value_links;
    verified_examples = (trimmed s r).examples;
    semantic_version_ref = r.semantic_version_ref;
    estimated_tokens =
        estimate_tokens (fixed_part s r) (trimmed s r).columns (trimmed s r).examples;
    token_budget_exceeded = is_exceeded s r;
    untrusted_fields = untrusted s.allowed_domains r;
  }
