-- ===== src/Semantic/Models.antt =====
-- server/semantic/models.py: the rows of the control database that the semantic layer reads and
-- writes. A table is the list of its rows, in the order in which they were inserted; a JSON array
-- is a list and a timestamp is a number.
use atlas_sql.Common.{ℕ, String, Bool, true, false, Option, List, ◌==◌, string_eq, nat_eq, ◌&&◌}

pub data SemanticStatus : Type 0 where
  draft testing published deprecated : SemanticStatus

pub data MetricGrain : Type 0 where
  order_item order customer period snapshot_date warehouse_sku : MetricGrain

pub data TimeRole : Type 0 where
  paid_at refunded_at created_at event_at snapshot_date : TimeRole

pub data ZeroDenominatorPolicy : Type 0 where
  null_with_reason zero not_applicable : ZeroDenominatorPolicy

pub data VerifiedQueryStatus : Type 0 where
  draft verified invalid : VerifiedQueryStatus

pub record MetricDefinition : Type 0 where
  pub metric_id : String
  pub label : String
  pub domain : String
  pub grain : MetricGrain
  pub expression : String
  pub required_filters : List String
  pub dependent_columns : List String
  pub allowed_dimensions : List String
  pub time_role : TimeRole
  pub zero_denominator_policy : ZeroDenominatorPolicy
  pub unit : Option String
  pub currency : Option String
  pub synonyms : List String
  pub is_sensitive : Bool
  pub time_rule_note : Option String
  pub warning : Option String
  pub status : SemanticStatus
  pub reviewed_by : Option String
  pub reviewed_at : Option ℕ
  pub updated_at : ℕ

-- The values that stand in a snapshot.
pub data Json : Type 0 where
  null : Json
  bool : Bool → Json
  text : String → Json
  texts : List String → Json
  time : ℕ → Json

pub record MetricVersion : Type 0 where
  pub metric_id : String
  pub version_number : ℕ
  pub snapshot : List (String × Json)
  pub change_note : Option String
  pub regression_run_id : Option String
  pub published_by : String
  pub published_at : ℕ

pub record MetricActiveVersion : Type 0 where
  pub metric_id : String
  pub version_number : ℕ
  pub updated_at : ℕ

pub record VerifiedQuery : Type 0 where
  pub query_id : String
  pub question : String
  pub sql : String
  pub domain : String
  pub tags : List String
  pub dependent_metric_ids : List String
  pub semantic_version_ref : Option String
  pub schema_version : Option String
  pub status : VerifiedQueryStatus
  pub verified_by : Option String
  pub verified_at : Option ℕ
  pub invalidation_reason : Option String
  pub is_test_locked : Bool
  pub description : Option String
  pub last_validation_result : Option String
  pub last_validated_at : Option ℕ
  pub updated_at : ℕ

-- The session, and the cache keys that Redis was asked to delete.
pub record Db : Type 0 where
  pub metrics : List MetricDefinition
  pub versions : List MetricVersion
  pub active : List MetricActiveVersion
  pub verified : List VerifiedQuery
  pub deleted_keys : List String

abbrev pub status_beq : SemanticStatus → SemanticStatus → Bool
status_beq SemanticStatus.draft SemanticStatus.draft = true
status_beq SemanticStatus.testing SemanticStatus.testing = true
status_beq SemanticStatus.published SemanticStatus.published = true
status_beq SemanticStatus.deprecated SemanticStatus.deprecated = true
status_beq _ _ = false

abbrev pub is_verified : VerifiedQueryStatus → Bool
is_verified VerifiedQueryStatus.verified = true
is_verified _ = false

-- The `.value` of each enum.
unfoldable pub grain_value : MetricGrain → String
grain_value MetricGrain.order_item = "order_item"
grain_value MetricGrain.order = "order"
grain_value MetricGrain.customer = "customer"
grain_value MetricGrain.period = "period"
grain_value MetricGrain.snapshot_date = "snapshot_date"
grain_value MetricGrain.warehouse_sku = "warehouse_sku"

unfoldable pub time_role_value : TimeRole → String
time_role_value TimeRole.paid_at = "paid_at"
time_role_value TimeRole.refunded_at = "refunded_at"
time_role_value TimeRole.created_at = "created_at"
time_role_value TimeRole.event_at = "event_at"
time_role_value TimeRole.snapshot_date = "snapshot_date"

unfoldable pub policy_value : ZeroDenominatorPolicy → String
policy_value ZeroDenominatorPolicy.null_with_reason = "null_with_reason"
policy_value ZeroDenominatorPolicy.zero = "zero"
policy_value ZeroDenominatorPolicy.not_applicable = "not_applicable"

-- select(MetricVersion) for a metric and a version number: is there a row?
abbrev pub names_version : String → ℕ → MetricVersion → Bool
names_version id n v = v.metric_id == id && v.version_number == n
