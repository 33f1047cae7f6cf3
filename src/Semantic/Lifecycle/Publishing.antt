-- ===== src/Semantic/Lifecycle/Publishing.antt =====
-- What a successful publication leaves behind.
use atlas_sql.Common.{
  ℕ, String, Bool, true, false, List, [], ◌∷◌, ◌++◌, ◌≡◌, refl, sym, ap, subst, if◌then◌else◌, ◌∙◌,
  arith, nat_eq, string_eq, ◌&&◌, any, find, update_where, find-update_where, find_sound, filter,
  filter-update_where_self, le-max_where, inl, inr, none, some, Option-cases, Bool-cases, beq_refl,
}
use atlas_sql.Semantic.Models.{
  SemanticStatus, MetricVersion, MetricActiveVersion, MetricDefinition, Db, names_version,
}
use atlas_sql.Semantic.Lifecycle.{
  ok, Release, PublishResult, is_metric, is_active_of, is_version_of, point_to, reviewed,
  build_snapshot, depends, invalidated, next_version, active_number, switch_active, version_record,
  write_release, publish, is_missing,
}

find-append_last :
    {A : Type 0} (p : A → Bool) (xs : List A) (y : A)
    → find p xs ≡ none
    → p y ≡ true
    → find p (xs ++ y ∷ []) ≡ some y
unfolding find
find-append_last p [] y e q = rw q
find-append_last p (x ∷ xs) y e q = ground (arith, find-append_last p xs y)

find-none : {A : Type 0} (p : A → Bool) (xs : List A) → any p xs ≡ false → find p xs ≡ none
unfolding find
find-none p [] e = refl
find-none p (x ∷ xs) e = ground (arith, find-none p xs)

active_number-switch_active :
    (id : String) (n now : ℕ) (active : List MetricActiveVersion)
    → active_number id (switch_active id n now active) ≡ some n
unfolding switch_active
active_number-switch_active id n now active = elim (Option-cases (find (is_active_of id) active)) [
  | inl e ↦
      let first : MetricActiveVersion = record {
        metric_id = id;
        version_number = n;
        updated_at = now;
      } in
      rw (e, switch_active)
        (rw (
          find-append_last (is_active_of id) active first e (beq_refl string_eq id),
          active_number,
        ))
  | inr (a, e) ↦
      rw (e, switch_active)
        (rw
          (
            find-update_where (is_active_of id) (is_active_of id) (point_to n now) active
                (λ x. refl),
            active_number,
          )
          (rw (e, find_sound (is_active_of id) active a e)))
]

next_version-fresh :
    (id : String) (db : Db) → any (names_version id (next_version id db)) db.versions ≡ false
next_version-fresh id db =
    elim (Bool-cases (any (names_version id (next_version id db)) db.versions)) [
      | inl e ↦ absurd (
          omega (
            arith,
            le-max_where (is_version_of id) (names_version id (next_version id db))
                (λ v. v.version_number) (next_version id db) db.versions
                (λ x q. ground (arith, nat_eq.same_iff x.version_number (next_version id db))) e,
          ))
      | inr e ↦ e
    ]

-- The row of a published metric.
pub record IsPublishedRow (id : String) (by : String) (now : ℕ) (db : Db) : Type 0 where
  pub metric : MetricDefinition
  pub found : find (is_metric id) db.metrics ≡ some metric
  pub status : metric.status ≡ SemanticStatus.published
  pub reviewed_by : metric.reviewed_by ≡ some by
  pub reviewed_at : metric.reviewed_at ≡ some now

-- The row of the version: it reads back as the metric as it was, and records the release.
pub record IsReleasedVersion (id : String) (r : Release) (now : ℕ) (db : Db) (v : MetricVersion)
    : Type 0 where
  pub metric : MetricDefinition
  pub found : find (is_metric id) db.metrics ≡ some metric
  pub snapshot : v.snapshot ≡ build_snapshot metric now
  pub change_note : v.change_note ≡ r.change_note
  pub regression_run_id : v.regression_run_id ≡ r.regression_run_id
  pub published_by : v.published_by ≡ r.published_by
  pub published_at : v.published_at ≡ now

-- What `publish` promises when it returns `res` with the new session `db'`.
pub record IsPublication (id : String) (r : Release) (now : ℕ) (db db' : Db) (res : PublishResult)
    : Type 0 where
  pub approved : (r.require_regression && is_missing r.regression_run_id) ≡ false
  pub fresh : any (names_version id res.version_number) db.versions ≡ false
  pub version : MetricVersion
  pub stored : find (names_version id res.version_number) db'.versions ≡ some version
  pub released : IsReleasedVersion id r now db version
  pub switched : active_number id db'.active ≡ some res.version_number
  pub previous : res.previous_version ≡ active_number id db.active
  pub row : IsPublishedRow id r.published_by now db'
  pub no_stale_query : filter (depends id) db'.verified ≡ []

module _ (has_redis : Bool) (reason : String) where
  -- The session after a successful `publish`.
  abbrev published_db : String → Release → ℕ → MetricDefinition → Db → Db
  published_db id r now m db = record (write_release id r now m db) {
    verified = update_where (depends id) (invalidated reason now) db.verified;
    deleted_keys = if has_redis then id ∷ db.deleted_keys else db.deleted_keys;
  }

  record PublishSteps (id : String) (r : Release) (now : ℕ) (db db' : Db) (res : PublishResult)
      : Type 0 where
    metric : MetricDefinition
    found : find (is_metric id) db.metrics ≡ some metric
    approved : (r.require_regression && is_missing r.regression_run_id) ≡ false
    session : db' ≡ published_db id r now metric db
    number : res.version_number ≡ next_version id db
    previous : res.previous_version ≡ active_number id db.active

  publish-steps :
      (id : String) (r : Release) (now : ℕ) (db db' : Db) (res : PublishResult)
      → publish has_redis reason id r now db ≡ ok (db', res)
      → PublishSteps id r now db db' res
  unfolding publish
  publish-steps id r now db db' res h = elim (Option-cases (find (is_metric id) db.metrics)) [
    | inl e ↦ absurd (ground arith)
    | inr (m, e) ↦ record {
      metric = m;
      found = e;
      approved = ground arith;
      session = ground arith;
      number = ground arith;
      previous = ground arith;
    }
  ]

  published_row :
      (id : String) (r : Release) (now : ℕ) (m : MetricDefinition) (db : Db)
      → find (is_metric id) db.metrics ≡ some m
      → IsPublishedRow id r.published_by now (published_db id r now m db)
  unfolding write_release
  published_row id r now m db e = record {
    metric = reviewed r.published_by now m;
    found =
        find-update_where (is_metric id) (is_metric id) (reviewed r.published_by now) db.metrics
          (λ x. refl)
        ∙ rw (e, find_sound (is_metric id) db.metrics m e);
    status = refl;
    reviewed_by = refl;
    reviewed_at = refl;
  }

  published_db-IsPublication :
      (id : String) (r : Release) (now : ℕ) (db db' : Db) (res : PublishResult)
      (steps : PublishSteps id r now db db' res)
      → IsPublication id r now db (published_db id r now steps.metric db) res
  unfolding write_release
  published_db-IsPublication id r now db db' res steps = record {
    approved = steps.approved;
    fresh = rw steps.number (next_version-fresh id db);
    version = version_record id r now db steps.metric;
    stored = rw steps.number (
        find-append_last (names_version id (next_version id db)) db.versions
          (version_record id r now db steps.metric)
          (find-none _ db.versions (next_version-fresh id db))
          (ground (arith, beq_refl string_eq id, beq_refl nat_eq (next_version id db))));
    released = record {
      metric = steps.metric;
      found = steps.found;
      snapshot = refl;
      change_note = refl;
      regression_run_id = refl;
      published_by = refl;
      published_at = refl;
    };
    switched =
        active_number-switch_active id (next_version id db) now db.active
        ∙ ap some (sym steps.number);
    previous = steps.previous;
    row = published_row id r now steps.metric db steps.found;
    no_stale_query =
        filter-update_where_self (depends id) (invalidated reason now) db.verified (λ x q. refl);
  }

  -- A successful `publish` was given its regression run (or told to do without), creates a version
  -- number that the metric did not have, stores under it the snapshot of the metric as it was, with
  -- the note, the regression run, the publisher and the time, points the active version to it,
  -- returns the pointer of before, marks the metric as published and reviewed, and leaves no
  -- verified query that depends on the metric.
  pub publish-IsPublication :
      (id : String) (r : Release) (now : ℕ) (db db' : Db) (res : PublishResult)
      → publish has_redis reason id r now db ≡ ok (db', res)
      → IsPublication id r now db db' res
  publish-IsPublication id r now db db' res h =
      let steps = publish-steps id r now db db' res h in
      subst (λ d. IsPublication id r now db d res) (sym steps.session)
        (published_db-IsPublication id r now db db' res steps)
