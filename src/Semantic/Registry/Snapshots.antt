-- ===== src/Semantic/Registry/Snapshots.antt =====
-- Publishing and loading: what `_build_snapshot` writes, `_entry_from_snapshot` reads.
use atlas_sql.Common.{ℕ, String, Bool, ◌≡◌, arith, some, lookup}
use atlas_sql.Semantic.Models.{MetricDefinition, Db}
use atlas_sql.Semantic.Lifecycle.{ok, build_snapshot, deprecate}
use atlas_sql.Semantic.Registry.{
  SemanticRegistry, entry_from_snapshot, entry_from_orm, load_active_metrics,
}

-- A snapshot that `publish` takes of a metric reads back as that metric, field for field, under
-- the number of its version.
pub entry-snapshot :
    (m : MetricDefinition) (n now : ℕ)
    → entry_from_snapshot m.metric_id n (build_snapshot m now)
      ≡ some (record (entry_from_orm m) { version_number = n })
unfolding entry_from_snapshot build_snapshot entry_from_orm lookup
entry-snapshot m n now = ground arith

deprecate-history :
    (has_redis : Bool) (reason : String) (id : String) (now : ℕ) (db db' : Db)
    → deprecate has_redis reason id now db ≡ ok db'
    → (db'.versions ≡ db.versions) × (db'.active ≡ db.active)
unfolding deprecate
deprecate-history has_redis reason id now db db' h = (ground arith, ground arith)

-- A metric that was deprecated is still loaded: `load_active_metrics` gives the same registry
-- before and after a successful `deprecate`.
pub load_active_metrics-deprecate :
    (has_redis : Bool) (reason : String) (id : String) (now : ℕ) (r : SemanticRegistry)
    (db db' : Db)
    → deprecate has_redis reason id now db ≡ ok db'
    → load_active_metrics r db' ≡ load_active_metrics r db
unfolding load_active_metrics
load_active_metrics-deprecate has_redis reason id now r db db' h =
    let (vs, active) = deprecate-history has_redis reason id now db db' h in rw (vs, active)
