-- ===== src/Semantic/Registry.antt =====
-- server/semantic/registry.py: the in-memory registry of metrics. The imports from YAML files are
-- left out.
pub mod Lookup
pub mod Snapshots
use atlas_sql.Common.{
  ℕ, String, Bool, true, false, Option, none, some, List, [], ◌∷◌, ◌++◌, map, ◌==◌, ◌&&◌, not,
  string_eq, nat_eq, if◌then◌else◌, filter, find, lookup, insert, has_key, strip, update_where,
}
use atlas_sql.Semantic.Models.{
  MetricDefinition, MetricVersion, MetricActiveVersion, Db, Json, null, bool, text, texts, time,
  grain_value, time_role_value, policy_value, names_version,
}
use atlas_sql.Semantic.Versions.{Snapshot}

pub record MetricEntry : Type 0 where
  pub metric_id : String
  pub label : String
  pub domain : String
  pub grain : String
  pub expression : String
  pub required_filters : List String
  pub dependent_columns : List String
  pub allowed_dimensions : List String
  pub time_role : String
  pub zero_denominator_policy : String
  pub unit : Option String
  pub currency : Option String
  pub synonyms : List String
  pub is_sensitive : Bool
  pub time_rule_note : Option String
  pub warning : Option String
  pub version_number : ℕ

-- _metric_map and _synonym_map
pub record SemanticRegistry : Type 0 where
  pub metric_map : List (String × MetricEntry)
  pub synonym_map : List (String × String)

abbrev pub empty_registry : SemanticRegistry
empty_registry = record { metric_map = []; synonym_map = [] }

unfoldable pub get : SemanticRegistry → String → Option MetricEntry
get r metric_id = lookup metric_id r.metric_map

abbrev pub all_metrics : SemanticRegistry → List MetricEntry
all_metrics r = map (λ e. e.1) r.metric_map

unfoldable pub metrics_for_domain : SemanticRegistry → String → List MetricEntry
metrics_for_domain r domain = filter (λ e. e.domain == domain) (all_metrics r)

abbrev has_label : String → MetricEntry → Bool
has_label label e = e.label == label

unfoldable pub resolve_synonym : SemanticRegistry → String → Option String
resolve_synonym r t =
    let normalized = strip t in
    elim (lookup normalized r.synonym_map) [
      | some id ↦ some id
      | none ↦ elim (find (has_label normalized) (all_metrics r)) [
        | none ↦ none
        | some e ↦ some e.metric_id
      ]
    ]

-- One synonym of `_register`: a synonym of another metric keeps its first registration.
unfoldable pub register_synonym : String → String → List (String × String) → List (String × String)
register_synonym id syn m = elim (lookup syn m) [
  | none ↦ insert syn id m
  | some other ↦ if not (other == id) then m else insert syn id m
]

unfoldable pub register_synonyms :
    String → List String → List (String × String) → List (String × String)
unfolding register_synonym
register_synonyms id [] m = m
register_synonyms id (syn ∷ rest) m = register_synonyms id rest (register_synonym id syn m)

-- _register
unfoldable pub register : SemanticRegistry → MetricEntry → SemanticRegistry
unfolding register_synonyms
register r e = record {
  metric_map = insert e.metric_id e r.metric_map;
  synonym_map = register_synonyms e.metric_id e.synonyms (insert e.label e.metric_id r.synonym_map);
}

unfoldable pub load_from_entries : SemanticRegistry → List MetricEntry → SemanticRegistry
unfolding register
load_from_entries r [] = r
load_from_entries r (e ∷ es) = load_from_entries (register r e) es

-- snapshot[key], snapshot.get(key), snapshot.get(key, default), snapshot.get(key) or []: none
-- stands for a KeyError, and for a value of a type that `_build_snapshot` never writes there.
abbrev required_text : Snapshot → String → Option String
required_text s key = elim (lookup key s) [ some (text t) ↦ some t | _ ↦ none ]

abbrev text_or : Snapshot → String → String → Option String
text_or s key default = elim (lookup key s) [
  | none ↦ some default
  | some (text t) ↦ some t
  | _ ↦ none
]

abbrev texts_or_empty : Snapshot → String → Option (List String)
texts_or_empty s key = elim (lookup key s) [
  | none ↦ some []
  | some null ↦ some []
  | some (texts ts) ↦ some ts
  | _ ↦ none
]

abbrev optional_text : Snapshot → String → Option (Option String)
optional_text s key = elim (lookup key s) [
  | none ↦ some none
  | some null ↦ some none
  | some (text t) ↦ some (some t)
  | _ ↦ none
]

abbrev flag_or_false : Snapshot → String → Option Bool
flag_or_false s key = elim (lookup key s) [ none ↦ some false | some (bool b) ↦ some b | _ ↦ none ]

infixl 5 ◌>>=◌
abbrev ◌>>=◌ : {A B : Type 0} → Option A → (A → Option B) → Option B
none >>= f = none
some a >>= f = f a

unfoldable pub entry_from_snapshot : String → ℕ → Snapshot → Option MetricEntry
entry_from_snapshot id n s = do
  label ← required_text s "label"
  domain ← text_or s "domain" ""
  grain ← text_or s "grain" "period"
  expression ← required_text s "expression"
  required_filters ← texts_or_empty s "required_filters"
  dependent_columns ← texts_or_empty s "dependent_columns"
  allowed_dimensions ← texts_or_empty s "allowed_dimensions"
  time_role ← text_or s "time_role" "paid_at"
  policy ← text_or s "zero_denominator_policy" "not_applicable"
  unit ← optional_text s "unit"
  currency ← optional_text s "currency"
  synonyms ← texts_or_empty s "synonyms"
  is_sensitive ← flag_or_false s "is_sensitive"
  time_rule_note ← optional_text s "time_rule_note"
  warning ← optional_text s "warning"
  some (record {
    metric_id = id;
    label = label;
    domain = domain;
    grain = grain;
    expression = expression;
    required_filters = required_filters;
    dependent_columns = dependent_columns;
    allowed_dimensions = allowed_dimensions;
    time_role = time_role;
    zero_denominator_policy = policy;
    unit = unit;
    currency = currency;
    synonyms = synonyms;
    is_sensitive = is_sensitive;
    time_rule_note = time_rule_note;
    warning = warning;
    version_number = n;
  })

unfoldable pub entry_from_orm : MetricDefinition → MetricEntry
unfolding grain_value time_role_value policy_value
entry_from_orm m = record {
  metric_id = m.metric_id;
  label = m.label;
  domain = m.domain;
  grain = grain_value m.grain;
  expression = m.expression;
  required_filters = m.required_filters;
  dependent_columns = m.dependent_columns;
  allowed_dimensions = m.allowed_dimensions;
  time_role = time_role_value m.time_role;
  zero_denominator_policy = policy_value m.zero_denominator_policy;
  unit = m.unit;
  currency = m.currency;
  synonyms = m.synonyms;
  is_sensitive = m.is_sensitive;
  time_rule_note = m.time_rule_note;
  warning = m.warning;
  version_number = 0;
}

-- The join of the active pointers with the versions to which they point.
unfoldable pub active_versions : List MetricVersion → List MetricActiveVersion → List MetricVersion
active_versions vs [] = []
active_versions vs (a ∷ rest) =
    filter (names_version a.metric_id a.version_number) vs ++ active_versions vs rest

-- The loop over the rows: a malformed snapshot is skipped.
unfoldable pub register_versions : SemanticRegistry → List MetricVersion → SemanticRegistry
unfolding register entry_from_snapshot
register_versions r [] = r
register_versions r (v ∷ vs) = elim (entry_from_snapshot v.metric_id v.version_number v.snapshot) [
  | none ↦ register_versions r vs
  | some e ↦ register_versions (register r e) vs
]

unfoldable pub load_active_metrics : SemanticRegistry → Db → SemanticRegistry
unfolding active_versions register_versions
load_active_metrics r db = register_versions r (active_versions db.versions db.active)
