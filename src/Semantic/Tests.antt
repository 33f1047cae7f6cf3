-- ===== src/Semantic/Tests.antt =====
-- The semantic layer run on two metrics, and its theorems at those metrics.
use atlas_sql.Common.{
  ℕ, String, true, false, none, some, List, [], ◌∷◌, ◌++◌, ◌≡◌, refl, find, lookup, insert, strip,
  max_where, update_where,
}
use atlas_sql.Semantic.Models.{
  SemanticStatus, MetricGrain, TimeRole, ZeroDenominatorPolicy, VerifiedQueryStatus,
  MetricDefinition, MetricVersion, VerifiedQuery, Db, Json,
}
use atlas_sql.Semantic.Lifecycle.{
  set_metric, Result, ok, err, unknown_version, regression_not_passed, Release, PublishResult,
  build_snapshot, transition, publish, rollback, deprecate, moved, active_number,
}
use atlas_sql.Semantic.Lifecycle.Steps.{
  Call, publish_metric, rollback_to, deprecate_metric, step, run,
}
use atlas_sql.Semantic.Lifecycle.Consistency.{IsConsistent, run-IsConsistent, run-keeps_versions}
use atlas_sql.Semantic.Lifecycle.Frozen.{IsReleased, versions_of, run-freezes}
use atlas_sql.Semantic.Lifecycle.Publishing.{IsPublication, publish-IsPublication}
use atlas_sql.Semantic.Versions.{diff_snapshots}
use atlas_sql.Semantic.Versions.{list_versions}
use atlas_sql.Semantic.Versions.Listing.{earlier, has_number, list_versions-IsSorted}
use atlas_sql.Semantic.Models.{names_version}
use atlas_sql.Common.{IsSorted, any}
use atlas_sql.Semantic.Versions.Diff.{change, lookup-diff_snapshots}
use atlas_sql.Semantic.Registry.{
  SemanticRegistry, empty_registry, register, entry_from_snapshot, entry_from_orm,
  load_active_metrics, resolve_synonym,
}
use atlas_sql.Semantic.Registry.Snapshots.{entry-snapshot, load_active_metrics-deprecate}
use atlas_sql.Semantic.Registry.Lookup.{lookup-register}

abbrev metric : String → String → SemanticStatus → MetricDefinition
metric id label s = record {
  metric_id = id;
  label = label;
  domain = "sales";
  grain = MetricGrain.order;
  expression = "SUM(order_amount)";
  required_filters = "is_test = false" ∷ [];
  dependent_columns = "fact_order.order_amount" ∷ [];
  allowed_dimensions = [];
  time_role = TimeRole.paid_at;
  zero_denominator_policy = ZeroDenominatorPolicy.not_applicable;
  unit = none;
  currency = some "CNY";
  synonyms = "营业额" ∷ [];
  is_sensitive = false;
  time_rule_note = none;
  warning = none;
  status = s;
  reviewed_by = none;
  reviewed_at = none;
  updated_at = 0;
}

abbrev question : VerifiedQuery
question = record {
  query_id = "q1";
  question = "销售额";
  sql = "SELECT 1";
  domain = "sales";
  tags = [];
  dependent_metric_ids = "net_sales" ∷ [];
  semantic_version_ref = none;
  schema_version = none;
  status = VerifiedQueryStatus.verified;
  verified_by = none;
  verified_at = none;
  invalidation_reason = none;
  is_test_locked = false;
  description = none;
  last_validation_result = none;
  last_validated_at = none;
  updated_at = 0;
}

abbrev sales : MetricDefinition
sales = metric "net_sales" "净销售额" SemanticStatus.testing

abbrev returns : MetricDefinition
returns = metric "refunds" "退款" SemanticStatus.published

abbrev returns_1 : MetricVersion
returns_1 = record {
  metric_id = "refunds";
  version_number = 1;
  snapshot = ("label", Json.text "退款") ∷ ("expression", Json.text "SUM(refund_amount)") ∷ [];
  change_note = none;
  regression_run_id = none;
  published_by = "ann";
  published_at = 1;
}

-- One metric in testing, with a verified query on it, and a published one.
abbrev db : Db
db = record {
  metrics = sales ∷ returns ∷ [];
  versions = returns_1 ∷ [];
  active = record { metric_id = "refunds"; version_number = 1; updated_at = 1 } ∷ [];
  verified = question ∷ [];
  deleted_keys = [];
}

abbrev first_release : Release
first_release = record {
  published_by = "bob";
  regression_run_id = some "run-7";
  change_note = none;
  require_regression = true;
}

abbrev calls : List (Call × ℕ)
calls =
    (publish_metric "net_sales" first_release, 5)
    ∷ (publish_metric "refunds" first_release, 6)
    ∷ (rollback_to "net_sales" 1, 7)
    ∷ (deprecate_metric "refunds", 8)
    ∷ []

abbrev value : {A : Type 0} → A → Result A → A
value a (ok b) = b
value a (err e) = a

abbrev nothing : PublishResult
nothing = record { metric_id = ""; version_number = 0; previous_version = none; change_note = none }

abbrev after_publish : Db × PublishResult
after_publish = value (db, nothing) (publish true "changed" "net_sales" first_release 5 db)

abbrev after_deprecate : Db
after_deprecate = value db (deprecate true "changed" "refunds" 8 db)

publishes_test : after_publish.1.version_number ≡ 1
unfolding publish find max_where
publishes_test = refl

without_regression_test :
    publish true "changed" "net_sales" (record first_release { regression_run_id = none }) 5 db
    ≡ err regression_not_passed
unfolding publish find
without_regression_test = refl

unknown_version_test : rollback true "changed" "refunds" 2 9 db ≡ err (unknown_version 2)
unfolding rollback
unknown_version_test = refl

run_test : active_number "net_sales" (run true "changed" calls db).active ≡ some 1
unfolding run step publish rollback deprecate find update_where max_where
run_test = refl

run-IsConsistent_example : IsConsistent (run true "changed" calls db)
run-IsConsistent_example = run-IsConsistent true "changed" calls db (refl, tt)

run-keeps_versions_example :
    (added : List MetricVersion) × ((run true "changed" calls db).versions ≡ db.versions ++ added)
run-keeps_versions_example = run-keeps_versions true "changed" calls db

run-freezes_example :
    IsReleased "refunds" (run true "changed" calls db)
    × (versions_of "refunds" (run true "changed" calls db) ≡ versions_of "refunds" db)
unfolding find
run-freezes_example =
    run-freezes true "changed" calls "refunds" db
      (record { metric = returns; found = refl; past_testing = refl })

publish-IsPublication_example :
    IsPublication "net_sales" first_release 5 db after_publish.0 after_publish.1
unfolding publish find
publish-IsPublication_example =
    publish-IsPublication true "changed" "net_sales" first_release 5 db after_publish.0
      after_publish.1 refl

-- A metric in testing is published by `transition` alone, with no version and no active pointer.
unreleased_test :
    transition "net_sales" SemanticStatus.published 5 db
    ≡ ok (set_metric "net_sales" (moved SemanticStatus.published 5) db)
unfolding find transition
unreleased_test = refl

lookup-diff_snapshots_example :
    lookup "label" (diff_snapshots (build_snapshot sales 1) (build_snapshot returns 2))
    ≡ change (build_snapshot sales 1) (build_snapshot returns 2) "label"
lookup-diff_snapshots_example =
    lookup-diff_snapshots (build_snapshot sales 1) (build_snapshot returns 2) "label"

entry-snapshot_example :
    entry_from_snapshot "net_sales" 3 (build_snapshot sales 9)
    ≡ some (record (entry_from_orm sales) { version_number = 3 })
entry-snapshot_example = entry-snapshot sales 3 9

load_active_metrics-deprecate_example :
    load_active_metrics empty_registry after_deprecate ≡ load_active_metrics empty_registry db
unfolding deprecate find
load_active_metrics-deprecate_example =
    load_active_metrics-deprecate true "changed" "refunds" 8 empty_registry db after_deprecate refl

abbrev registry : SemanticRegistry
registry = register empty_registry (entry_from_orm sales)

synonym_test : resolve_synonym registry " 营业额 " ≡ some "net_sales"
unfolding resolve_synonym register lookup entry_from_orm insert strip
synonym_test = refl

lookup-register_example :
    lookup "营业额" (register registry (entry_from_orm returns)).synonym_map ≡ some "net_sales"
unfolding register entry_from_orm lookup insert
lookup-register_example = lookup-register registry (entry_from_orm returns) "营业额" "net_sales" refl

list_versions-IsSorted_example :
    IsSorted earlier (list_versions "refunds" db)
    × ((n : ℕ)
        → any (has_number n) (list_versions "refunds" db)
          ≡ any (names_version "refunds" n) db.versions)
list_versions-IsSorted_example = list_versions-IsSorted "refunds" db
