-- ===== src/Semantic/Lifecycle/Frozen.antt =====
-- What the lifecycle cannot do: a metric that was published once is never published again.
use atlas_sql.Common.{
  ℕ, String, Bool, true, false, List, [], ◌∷◌, ◌≡◌, refl, sym, subst, ◌∙◌, inl, inr, Option, some,
  ◌==◌, string_eq, arith, eq_iff, find, filter, update_where, find_sound, find-update_where,
  Bool-cases, filter-append, if◌then◌else◌,
}
use mathlib.Core.List.{append-nil}
use atlas_sql.Semantic.Models.{SemanticStatus, MetricVersion, MetricDefinition, Db, status_beq}
use atlas_sql.Semantic.Lifecycle.{
  allowed_transitions, in_statuses, is_metric, is_version_of, moved, reviewed, write_release,
}
use atlas_sql.Semantic.Lifecycle.Steps.{
  Call, run, Outcome, refused, transitioned, released, rolled_back, withdrawn, step-Outcome,
}

abbrev pub is_released : SemanticStatus → Bool
is_released SemanticStatus.published = true
is_released SemanticStatus.deprecated = true
is_released _ = false

-- The metric has a row, and its status is `published` or `deprecated`.
pub record IsReleased (id : String) (db : Db) : Type 0 where
  pub metric : MetricDefinition
  pub found : find (is_metric id) db.metrics ≡ some metric
  pub past_testing : is_released metric.status ≡ true

module _ (id j : String) (f : MetricDefinition → MetricDefinition) (db : Db) where
  -- The row of one metric after an update of the row of another, or of its own.
  find-moved :
      (m : MetricDefinition)
      → ((x : MetricDefinition) → (f x).metric_id ≡ x.metric_id)
      → find (is_metric j) db.metrics ≡ some m
      → find (is_metric j) (update_where (is_metric id) f db.metrics)
        ≡ some (if m.metric_id == id then f m else m)
  find-moved m keep e =
      find-update_where (is_metric j) (is_metric id) f db.metrics (λ x. rw (keep x)) ∙ rw e

  -- The select finds the row of the metric that was asked for.
  find-same :
      (m : MetricDefinition)
      → find (is_metric j) db.metrics ≡ some m
      → (m.metric_id == id) ≡ true
      → find (is_metric id) db.metrics ≡ some m
  find-same m e q =
      let own = (eq_iff m.metric_id j).0 (find_sound (is_metric j) db.metrics m e) in
      subst (λ x. find (is_metric x) db.metrics ≡ some m) (sym own ∙ (eq_iff m.metric_id id).0 q) e

  keep-IsReleased :
      ((x : MetricDefinition) → (f x).metric_id ≡ x.metric_id)
      → ((m : MetricDefinition)
          → find (is_metric id) db.metrics ≡ some m
          → is_released m.status ≡ true
          → is_released (f m).status ≡ true)
      → IsReleased j db
      → IsReleased j (record db { metrics = update_where (is_metric id) f db.metrics })
  keep-IsReleased keep stays h = record {
    metric = if h.metric.metric_id == id then f h.metric else h.metric;
    found = find-moved h.metric keep h.found;
    past_testing = elim (Bool-cases (h.metric.metric_id == id)) [
      | inl q ↦ rw q (stays h.metric (find-same h.metric h.found q) h.past_testing)
      | inr q ↦ rw q h.past_testing
    ];
  }

-- The only transition from a released status, other than from `published`, is none at all.
released_stays :
    (a b : SemanticStatus)
    → is_released a ≡ true
    → status_beq a SemanticStatus.published ≡ false
    → in_statuses (allowed_transitions a) b ≡ true
    → is_released b ≡ true
unfolding allowed_transitions
released_stays SemanticStatus.draft b h p q = cc
released_stays _ b h p q = ground arith

same_row : {A : Type 0} {o : Option A} (a b : A) → o ≡ some a → o ≡ some b → a ≡ b
same_row a b e e' = cc

Outcome-IsReleased :
    {db db' : Db} (j : String) → Outcome db db' → IsReleased j db → IsReleased j db'
Outcome-IsReleased j refused h = h
Outcome-IsReleased {db} j (transitioned id s now m e p q) h =
    keep-IsReleased id j (moved s now) db (λ x. refl)
      (λ m' e' r.
        let same = same_row m' m e' e in released_stays m'.status s r (rw same p) (rw same q))
      h
Outcome-IsReleased {db} j (released id r now m reason keys e p) h =
    let k = keep-IsReleased id j (reviewed r.published_by now) db (λ x. refl) (λ x _ _. refl) h in
    record {
      metric = k.metric;
      found = unfold write_release in k.found;
      past_testing = k.past_testing;
    }
Outcome-IsReleased j (rolled_back id n now keys v) h = record {
  metric = h.metric;
  found = h.found;
  past_testing = h.past_testing;
}
Outcome-IsReleased {db} j (withdrawn id now m keys e p) h =
    let k =
      keep-IsReleased id j (moved SemanticStatus.deprecated now) db (λ x. refl) (λ x _ _. refl) h in
    record { metric = k.metric; found = k.found; past_testing = k.past_testing }

abbrev pub versions_of : String → Db → List MetricVersion
versions_of id db = filter (is_version_of id) db.versions

testing_not_released :
    (s : SemanticStatus) → status_beq s SemanticStatus.testing ≡ true → is_released s ≡ true → ⊥
testing_not_released s p r = ground arith

Outcome-versions_of :
    {db db' : Db} (j : String)
    → Outcome db db'
    → IsReleased j db
    → versions_of j db' ≡ versions_of j db
Outcome-versions_of j refused h = refl
Outcome-versions_of j (transitioned id s now m e p q) h = refl
Outcome-versions_of {db} j (released id r now m reason keys e p) h = elim (Bool-cases (id == j)) [
  | inl q ↦ absurd (
      testing_not_released m.status p (
        rw
          (same_row m h.metric e (
            subst (λ x. find (is_metric x) db.metrics ≡ some h.metric) (sym ((eq_iff id j).0 q))
              h.found))
          h.past_testing))
  | inr q ↦
      unfold write_release in
      filter-append (is_version_of j) db.versions _ ∙ rw q (append-nil (versions_of j db))
]
Outcome-versions_of j (rolled_back id n now keys v) h = refl
Outcome-versions_of j (withdrawn id now m keys e p) h = refl

module _ (has_redis : Bool) (reason : String) where
  -- Once a metric is published or deprecated, no sequence of calls brings it back to draft or
  -- testing, and no further version of it is ever created.
  pub run-freezes :
      (cs : List (Call × ℕ)) (id : String) (db : Db)
      → IsReleased id db
      → IsReleased id (run has_redis reason cs db)
        × (versions_of id (run has_redis reason cs db) ≡ versions_of id db)
  unfolding run
  run-freezes [] id db h = (h, refl)
  run-freezes ((c, now) ∷ cs) id db h =
      let outcome = step-Outcome has_redis reason c now db in
      let (later, same) = run-freezes cs id _ (Outcome-IsReleased id outcome h) in
      (later, same ∙ Outcome-versions_of id outcome h)
