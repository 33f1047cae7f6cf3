-- ===== src/Semantic/Lifecycle/Steps.antt =====
-- The service as a machine: one call of the lifecycle API at a time, each committed if it returns
-- and rolled back if it raises. `Outcome` lists what a call can do to the session.
use atlas_sql.Common.{
  ℕ, String, Bool, true, false, List, [], ◌∷◌, ◌≡◌, some, arith, any, find, update_where,
}
use atlas_sql.Semantic.Models.{SemanticStatus, MetricDefinition, Db, status_beq, names_version}
use atlas_sql.Semantic.Lifecycle.{
  Result, ok, err, Release, allowed_transitions, in_statuses, is_metric, is_active_of, set_metric,
  moved, point_to, depends, invalidated, write_release, transition, publish, rollback, deprecate,
}

pub data Call : Type 0 where
  transition_to : String → SemanticStatus → Call
  publish_metric : String → Release → Call
  rollback_to : String → ℕ → Call
  deprecate_metric : String → Call

abbrev committed : {B : Type 0} → Db → Result (Db × B) → Db
committed db (ok r) = r.0
committed db (err e) = db

abbrev committed_db : Db → Result Db → Db
committed_db db (ok db') = db'
committed_db db (err e) = db

module _ (has_redis : Bool) (reason : String) where
  unfoldable pub step : Call → ℕ → Db → Db
  step (transition_to id s) now db = committed_db db (transition id s now db)
  step (publish_metric id r) now db = committed db (publish has_redis reason id r now db)
  step (rollback_to id n) now db = committed db (rollback has_redis reason id n now db)
  step (deprecate_metric id) now db = committed_db db (deprecate has_redis reason id now db)

  -- A call and the time at which it is served.
  unfoldable pub run : List (Call × ℕ) → Db → Db
  run [] db = db
  run ((c, now) ∷ cs) db = run cs (step c now db)

pub data Outcome (db : Db) : Db → Type 0 where
  refused : Outcome db db
  transitioned :
      (id : String) (s : SemanticStatus) (now : ℕ) (m : MetricDefinition)
      → find (is_metric id) db.metrics ≡ some m
      → status_beq m.status SemanticStatus.published ≡ false
      → in_statuses (allowed_transitions m.status) s ≡ true
      → Outcome db (set_metric id (moved s now) db)
  released :
      (id : String) (r : Release) (now : ℕ) (m : MetricDefinition) (reason : String)
      (keys : List String)
      → find (is_metric id) db.metrics ≡ some m
      → status_beq m.status SemanticStatus.testing ≡ true
      → Outcome db (record (write_release id r now m db) {
        verified = update_where (depends id) (invalidated reason now) db.verified;
        deleted_keys = keys;
      })
  rolled_back :
      (id : String) (n now : ℕ) (keys : List String)
      → any (names_version id n) db.versions ≡ true
      → Outcome db (record db {
        active = update_where (is_active_of id) (point_to n now) db.active;
        deleted_keys = keys;
      })
  withdrawn :
      (id : String) (now : ℕ) (m : MetricDefinition) (keys : List String)
      → find (is_metric id) db.metrics ≡ some m
      → status_beq m.status SemanticStatus.published ≡ true
      → Outcome db
          (record (set_metric id (moved SemanticStatus.deprecated now) db) { deleted_keys = keys })

module _ (has_redis : Bool) (reason : String) where
  pub step-Outcome : (c : Call) (now : ℕ) (db : Db) → Outcome db (step has_redis reason c now db)
  unfolding step transition publish rollback deprecate
  step-Outcome (transition_to id s) now db = grind (arith, refused, transitioned)
  step-Outcome (publish_metric id r) now db = grind (arith, refused, released)
  step-Outcome (rollback_to id n) now db = grind (arith, refused, rolled_back)
  step-Outcome (deprecate_metric id) now db = grind (arith, refused, withdrawn)
