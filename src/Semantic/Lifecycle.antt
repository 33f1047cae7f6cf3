-- ===== src/Semantic/Lifecycle.antt =====
-- server/semantic/lifecycle.py: MetricLifecycleService. An operation maps the session to the new
-- one, or raises a LifecycleError before it has changed anything. `now` stands for the readings of
-- the clock that one operation makes. The log lines are left out.
pub mod Steps
pub mod Consistency
pub mod Frozen
pub mod Publishing
use atlas_sql.Common.{
  ℕ, ◌+◌, String, Bool, true, false, not, ◌&&◌, Option, none, some, List, [], ◌∷◌, ◌++◌, ◌==◌,
  string_eq, nat_eq, if◌then◌else◌, contains, any, filter, length, find, update_where, max_where,
}
use atlas_sql.Semantic.Models.{
  SemanticStatus, VerifiedQueryStatus, MetricDefinition, MetricVersion, MetricActiveVersion,
  VerifiedQuery, Db, Json, null, bool, text, texts, time, status_beq, is_verified, grain_value,
  time_role_value, policy_value, names_version,
}

-- LifecycleError and its subclasses, one constructor for each place that raises.
pub data LifecycleError : Type 0 where
  unknown_metric : LifecycleError
  published_immutable : LifecycleError
  invalid_transition : SemanticStatus → SemanticStatus → LifecycleError
  not_testing not_published : SemanticStatus → LifecycleError
  regression_not_passed : LifecycleError
  unknown_version : ℕ → LifecycleError
  no_active_version : LifecycleError
  missing_versions : List ℕ → LifecycleError

pub data Result (A : Type 0) : Type 0 where
  ok : A → Result A
  err : LifecycleError → Result A

infixl 5 ◌>>=◌ ◌>>◌
abbrev pub ◌>>=◌ : {A B : Type 0} → Result A → (A → Result B) → Result B
ok a >>= f = f a
err e >>= f = err e

abbrev pub ◌>>◌ : {B : Type 0} → Result (Unit {0}) → Result B → Result B
m >> k = m >>= λ _. k

-- if not b: raise e
abbrev pub require : Bool → LifecycleError → Result (Unit {0})
require true e = ok tt
require false e = err e

-- _ALLOWED_TRANSITIONS
unfoldable pub allowed_transitions : SemanticStatus → List SemanticStatus
allowed_transitions SemanticStatus.draft = SemanticStatus.testing ∷ []
allowed_transitions SemanticStatus.testing = SemanticStatus.draft ∷ SemanticStatus.published ∷ []
allowed_transitions SemanticStatus.published = SemanticStatus.deprecated ∷ []
allowed_transitions SemanticStatus.deprecated = []

optional : Option String → Json
optional none = null
optional (some s) = text s

-- _build_snapshot
unfoldable pub build_snapshot : MetricDefinition → ℕ → List (String × Json)
unfolding optional grain_value time_role_value policy_value
build_snapshot m now =
    ("metric_id", text m.metric_id)
    ∷ ("label", text m.label)
    ∷ ("domain", text m.domain)
    ∷ ("grain", text (grain_value m.grain))
    ∷ ("expression", text m.expression)
    ∷ ("required_filters", texts m.required_filters)
    ∷ ("dependent_columns", texts m.dependent_columns)
    ∷ ("allowed_dimensions", texts m.allowed_dimensions)
    ∷ ("time_role", text (time_role_value m.time_role))
    ∷ ("zero_denominator_policy", text (policy_value m.zero_denominator_policy))
    ∷ ("unit", optional m.unit)
    ∷ ("currency", optional m.currency)
    ∷ ("synonyms", texts m.synonyms)
    ∷ ("is_sensitive", bool m.is_sensitive)
    ∷ ("time_rule_note", optional m.time_rule_note)
    ∷ ("warning", optional m.warning)
    ∷ ("snapshot_at", time now)
    ∷ []

pub record PublishResult : Type 0 where
  pub metric_id : String
  pub version_number : ℕ
  pub previous_version : Option ℕ
  pub change_note : Option String

pub record RollbackResult : Type 0 where
  pub metric_id : String
  pub rolled_back_to_version : ℕ
  pub previous_version : ℕ

abbrev pub is_metric : String → MetricDefinition → Bool
is_metric id m = m.metric_id == id

abbrev pub is_version_of : String → MetricVersion → Bool
is_version_of id v = v.metric_id == id

abbrev pub is_active_of : String → MetricActiveVersion → Bool
is_active_of id a = a.metric_id == id

-- _get_metric_or_raise
unfoldable pub get_metric_or_raise : String → Db → Result MetricDefinition
get_metric_or_raise id db = elim (find (is_metric id) db.metrics) [
  | none ↦ err unknown_metric
  | some m ↦ ok m
]

-- Assignments to the fields of the one metric row.
abbrev pub set_metric : String → (MetricDefinition → MetricDefinition) → Db → Db
set_metric id f db = record db { metrics = update_where (is_metric id) f db.metrics }

abbrev pub moved : SemanticStatus → ℕ → MetricDefinition → MetricDefinition
moved s now m = record m { status = s; updated_at = now }

abbrev pub reviewed : String → ℕ → MetricDefinition → MetricDefinition
reviewed by now m = record m {
  status = SemanticStatus.published;
  reviewed_by = some by;
  reviewed_at = some now;
  updated_at = now;
}

abbrev pub point_to : ℕ → ℕ → MetricActiveVersion → MetricActiveVersion
point_to n now a = record a { version_number = n; updated_at = now }

-- target_status in allowed
abbrev pub in_statuses : List SemanticStatus → SemanticStatus → Bool
in_statuses xs s = any (λ x. status_beq x s) xs

unfoldable pub transition : String → SemanticStatus → ℕ → Db → Result Db
unfolding get_metric_or_raise allowed_transitions
transition id target now db = do
  metric ← get_metric_or_raise id db
  require (not (status_beq metric.status SemanticStatus.published)) published_immutable
  require (in_statuses (allowed_transitions metric.status) target)
      (invalid_transition metric.status target)
  ok (set_metric id (moved target now) db)

-- _invalidate_cache: a client is configured or not, and a failure of its `delete` is swallowed.
unfoldable pub invalidate_cache : Bool → String → Db → Db
invalidate_cache has_redis id db =
    if has_redis then record db { deleted_keys = id ∷ db.deleted_keys } else db

abbrev pub depends : String → VerifiedQuery → Bool
depends id q = is_verified q.status && contains q.dependent_metric_ids id

abbrev pub invalidated : String → ℕ → VerifiedQuery → VerifiedQuery
invalidated reason now q = record q {
  status = VerifiedQueryStatus.invalid;
  invalidation_reason = some reason;
  updated_at = now;
}

-- invalidate_dependent_queries; `reason` stands for the text built from the metric's id.
unfoldable pub invalidate_dependent_queries : String → String → ℕ → Db → Db × ℕ
invalidate_dependent_queries id reason now db = (
  record db { verified = update_where (depends id) (invalidated reason now) db.verified },
  length (filter (depends id) db.verified),
)

-- The switch of the active version: UPDATE where the metric has a row, INSERT where it has none.
unfoldable pub switch_active : String → ℕ → ℕ → List MetricActiveVersion → List MetricActiveVersion
switch_active id n now active = elim (find (is_active_of id) active) [
  | none ↦ active ++ record { metric_id = id; version_number = n; updated_at = now } ∷ []
  | some a ↦ update_where (is_active_of id) (point_to n now) active
]

abbrev pub active_number : String → List MetricActiveVersion → Option ℕ
active_number id active = elim (find (is_active_of id) active) [
  | none ↦ none
  | some a ↦ some a.version_number
]

abbrev pub next_version : String → Db → ℕ
next_version id db = max_where (is_version_of id) (λ v. v.version_number) db.versions + 1

abbrev is_missing : Option String → Bool
is_missing none = true
is_missing (some r) = false

-- The arguments of `publish` beside the metric and the session.
pub record Release : Type 0 where
  pub published_by : String
  pub regression_run_id : Option String
  pub change_note : Option String
  pub require_regression : Bool

abbrev pub version_record : String → Release → ℕ → Db → MetricDefinition → MetricVersion
version_record id r now db metric = record {
  metric_id = id;
  version_number = next_version id db;
  snapshot = build_snapshot metric now;
  change_note = r.change_note;
  regression_run_id = r.regression_run_id;
  published_by = r.published_by;
  published_at = now;
}

-- What `publish` writes before its first flush.
unfoldable pub write_release : String → Release → ℕ → MetricDefinition → Db → Db
unfolding switch_active
write_release id r now metric db = record db {
  versions = db.versions ++ version_record id r now db metric ∷ [];
  active = switch_active id (next_version id db) now db.active;
  metrics = update_where (is_metric id) (reviewed r.published_by now) db.metrics;
}

-- `has_redis` tells whether the service has a Redis client.
module _ (has_redis : Bool) (reason : String) where
  unfoldable pub publish : String → Release → ℕ → Db → Result (Db × PublishResult)
  unfolding get_metric_or_raise invalidate_cache invalidate_dependent_queries write_release
  publish id r now db = do
    metric ← get_metric_or_raise id db
    require (status_beq metric.status SemanticStatus.testing) (not_testing metric.status)
    require (not (r.require_regression && is_missing r.regression_run_id)) regression_not_passed
    let cleared = invalidate_cache has_redis id (write_release id r now metric db)
    ok (
      (invalidate_dependent_queries id reason now cleared).0,
      record {
        metric_id = id;
        version_number = next_version id db;
        previous_version = active_number id db.active;
        change_note = r.change_note;
      },
    )

  unfoldable pub rollback : String → ℕ → ℕ → Db → Result (Db × RollbackResult)
  unfolding invalidate_cache
  rollback id target now db = do
    require (any (names_version id target) db.versions) (unknown_version target)
    active_record ← elim (find (is_active_of id) db.active) [
      | none ↦ err no_active_version
      | some a ↦ ok a
    ]
    let pointed = record db {
      active = update_where (is_active_of id) (point_to target now) db.active;
    }
    ok (
      invalidate_cache has_redis id pointed,
      record {
        metric_id = id;
        rolled_back_to_version = target;
        previous_version = active_record.version_number;
      },
    )

  unfoldable pub deprecate : String → ℕ → Db → Result Db
  unfolding get_metric_or_raise invalidate_cache
  deprecate id now db = do
    metric ← get_metric_or_raise id db
    require (status_beq metric.status SemanticStatus.published) (not_published metric.status)
    ok (invalidate_cache has_redis id (set_metric id (moved SemanticStatus.deprecated now) db))
