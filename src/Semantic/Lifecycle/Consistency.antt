-- ===== src/Semantic/Lifecycle/Consistency.antt =====
-- The active pointers name existing versions, and no version is ever lost.
use mathlib.Core.List.{append-nil, append_assoc}
use atlas_sql.Common.{
  ℕ, String, Bool, true, List, [], ◌∷◌, ◌++◌, ◌≡◌, refl, sym, ap, ◌∙◌, arith, eq_iff, nat_eq,
  string_eq, All, All-append, All-map, any, any-append, any-append_last, All-update_where, find,
  inl, inr, Option-cases, beq_refl,
}
use atlas_sql.Semantic.Models.{
  MetricVersion, MetricActiveVersion, MetricDefinition, Db, names_version,
}
use atlas_sql.Semantic.Lifecycle.{
  Release, switch_active, point_to, is_active_of, next_version, version_record, write_release,
}
use atlas_sql.Semantic.Lifecycle.Steps.{
  Call, step, run, Outcome, refused, transitioned, released, rolled_back, withdrawn, step-Outcome,
}

-- The version to which a pointer points has its snapshot.
abbrev pub PointsTo : List MetricVersion → MetricActiveVersion → Type 0
PointsTo vs a = any (names_version a.metric_id a.version_number) vs ≡ true

abbrev pub IsConsistent : Db → Type 0
IsConsistent db = All (PointsTo db.versions) db.active

-- A pointer that is moved to an existing version of its metric points to it.
point_to-PointsTo :
    (vs : List MetricVersion) (id : String) (n now : ℕ) (a : MetricActiveVersion)
    → any (names_version id n) vs ≡ true
    → is_active_of id a ≡ true
    → PointsTo vs (point_to n now a)
point_to-PointsTo vs id n now a v e = rw ((eq_iff a.metric_id id).0 e) v

switch_active-PointsTo :
    (vs : List MetricVersion) (id : String) (n now : ℕ) (active : List MetricActiveVersion)
    → any (names_version id n) vs ≡ true
    → All (PointsTo vs) active
    → All (PointsTo vs) (switch_active id n now active)
unfolding switch_active
switch_active-PointsTo vs id n now active v h =
    elim (Option-cases (find (is_active_of id) active)) [
      | inl e ↦ rw (e, switch_active, All) (All-append _ active _ h (v, tt))
      | inr (a, e) ↦
          rw (e, switch_active, All)
            (All-update_where _ (is_active_of id) (point_to n now) active
              (λ x q _. point_to-PointsTo vs id n now x v q) h)
    ]

write_release-IsConsistent :
    (id : String) (r : Release) (now : ℕ) (m : MetricDefinition) (db : Db)
    → IsConsistent db
    → IsConsistent (write_release id r now m db)
unfolding write_release
write_release-IsConsistent id r now m db h =
    switch_active-PointsTo _ id (next_version id db) now db.active
      (any-append_last _ db.versions (version_record id r now db m)
        (ground (arith, beq_refl string_eq id, beq_refl nat_eq (next_version id db))))
      (All-map _ _ db.active (λ a. any-append _ db.versions _) h)

Outcome-IsConsistent : {db db' : Db} → Outcome db db' → IsConsistent db → IsConsistent db'
Outcome-IsConsistent refused h = h
Outcome-IsConsistent (transitioned id s now m e p q) h = h
Outcome-IsConsistent {db} (released id r now m reason keys e p) h =
    write_release-IsConsistent id r now m db h
Outcome-IsConsistent {db} (rolled_back id n now keys v) h =
    All-update_where _ (is_active_of id) (point_to n now) db.active
      (λ x q _. point_to-PointsTo db.versions id n now x v q) h
Outcome-IsConsistent (withdrawn id now m keys e p) h = h

-- A call adds versions at the end of the table, and changes none that was there.
Outcome-versions :
    {db db' : Db}
    → Outcome db db'
    → (added : List MetricVersion) × (db'.versions ≡ db.versions ++ added)
Outcome-versions {db} refused = ([], sym (append-nil db.versions))
Outcome-versions {db} (transitioned id s now m e p q) = ([], sym (append-nil db.versions))
Outcome-versions {db} (released id r now m reason keys e p) =
    (version_record id r now db m ∷ [], unfold write_release in refl)
Outcome-versions {db} (rolled_back id n now keys v) = ([], sym (append-nil db.versions))
Outcome-versions {db} (withdrawn id now m keys e p) = ([], sym (append-nil db.versions))

module _ (has_redis : Bool) (reason : String) where
  -- Whatever calls are served, accepted or refused, every active pointer names a version of its
  -- metric that has a snapshot, if that was so at the start.
  pub run-IsConsistent :
      (cs : List (Call × ℕ)) (db : Db) → IsConsistent db → IsConsistent (run has_redis reason cs db)
  unfolding run
  run-IsConsistent [] db h = h
  run-IsConsistent ((c, now) ∷ cs) db h =
      run-IsConsistent cs _ (Outcome-IsConsistent (step-Outcome has_redis reason c now db) h)

  -- Whatever calls are served, the versions of the start are still there, unchanged and in their
  -- order, and new ones stand behind them.
  pub run-keeps_versions :
      (cs : List (Call × ℕ)) (db : Db)
      → (added : List MetricVersion) × ((run has_redis reason cs db).versions
          ≡ db.versions ++ added)
  unfolding run
  run-keeps_versions [] db = ([], sym (append-nil db.versions))
  run-keeps_versions ((c, now) ∷ cs) db =
      let (first, e) = Outcome-versions (step-Outcome has_redis reason c now db) in
      let (rest, e') = run-keeps_versions cs (step has_redis reason c now db) in
      (first ++ rest, e' ∙ ap (λ vs. vs ++ rest) e ∙ append_assoc db.versions first rest)
