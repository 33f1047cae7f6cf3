-- ===== src/Semantic/VerifiedQueries/Review.antt =====
-- server/semantic/verified_queries.py: what VerifiedQueryRepository writes. `now` stands for the
-- readings of the clock of one call, `fresh` for the uuid of a new query.
use atlas_sql.Common.{
  ℕ, String, Bool, true, false, not, Option, none, some, List, [], ◌∷◌, ◌++◌, if◌then◌else◌, length,
  filter, find, update_where,
}
use atlas_sql.Semantic.Models.{VerifiedQueryStatus, VerifiedQuery, Db}
use atlas_sql.Semantic.Lifecycle.{depends, invalidated}
use atlas_sql.Semantic.VerifiedQueries.{
  unknown_query, ValidationResult, DraftQueryInput, SqlParser, failure, validate_syntax,
  validate_version_compat, validate_compat, is_query, status_is,
}

abbrev pub draft_of : DraftQueryInput → String → Bool → ℕ → VerifiedQuery
draft_of inp id validate now = record {
  query_id = id;
  question = inp.question;
  sql = inp.sql;
  domain = inp.domain;
  tags = inp.tags;
  dependent_metric_ids = inp.dependent_metric_ids;
  semantic_version_ref = inp.semantic_version_ref;
  schema_version = inp.schema_version;
  status = VerifiedQueryStatus.draft;
  verified_by = none;
  verified_at = none;
  invalidation_reason = none;
  is_test_locked = inp.is_test_locked;
  description = inp.description;
  last_validation_result = if validate then some "passed" else none;
  last_validated_at = if validate then some now else none;
  updated_at = now;
}

abbrev pub add_query : VerifiedQuery → Db → Db
add_query q db = record db { verified = db.verified ++ q ∷ [] }

abbrev pub set_query : String → (VerifiedQuery → VerifiedQuery) → Db → Db
set_query id f db = record db { verified = update_where (is_query id) f db.verified }

abbrev pub merged : ValidationResult → ValidationResult → ValidationResult
merged syntax compat = record {
  is_ok = true;
  errors = [];
  warnings = syntax.warnings ++ compat.warnings;
}

-- add_draft behind a syntax check that passed.
unfoldable pub add_checked :
    DraftQueryInput
    → String
    → ℕ
    → ValidationResult
    → Option (List (String × ℕ))
    → Db
    → Db × String × ValidationResult
unfolding validate_version_compat
add_checked inp fresh now syntax none db =
    (add_query (draft_of inp fresh true now) db, fresh, syntax)
add_checked inp fresh now syntax (some active) db =
    let compat = validate_version_compat inp.dependent_metric_ids inp.semantic_version_ref active in
    if not compat.is_ok
    then (db, "", compat)
    else (add_query (draft_of inp fresh true now) db, fresh, merged syntax compat)

unfoldable pub add_draft :
    SqlParser
    → DraftQueryInput
    → Bool
    → Option (List (String × ℕ))
    → String
    → ℕ
    → Db
    → Db × String × ValidationResult
unfolding validate_syntax add_checked
add_draft p inp false active fresh now db = (
  add_query (draft_of inp fresh false now) db,
  fresh,
  record { is_ok = true; errors = []; warnings = [] },
)
add_draft p inp true active fresh now db =
    let syntax = validate_syntax p inp.sql in
    if not syntax.is_ok then (db, "", syntax) else add_checked inp fresh now syntax active db

abbrev pub signed : String → ℕ → VerifiedQuery → VerifiedQuery
signed by now q = record q {
  status = VerifiedQueryStatus.verified;
  verified_by = some by;
  verified_at = some now;
  updated_at = now;
}

unfoldable pub mark_verified : String → String → ℕ → Db → Db × Bool
mark_verified id verified_by now db = elim (find (is_query id) db.verified) [
  | none ↦ (db, false)
  | some q ↦
      if status_is q.status VerifiedQueryStatus.draft
      then (set_query id (signed verified_by now) db, true)
      else (db, false)
]

-- invalidate_by_metric; `reason` stands for the one that is given or the text that is made.
unfoldable pub invalidate_by_metric : String → String → ℕ → Db → Db × ℕ
invalidate_by_metric metric_id reason now db = (
  record db { verified = update_where (depends metric_id) (invalidated reason now) db.verified },
  length (filter (depends metric_id) db.verified),
)

abbrev pub check_failed : ℕ → VerifiedQuery → VerifiedQuery
check_failed now q = record q {
  last_validation_result = some "failed";
  last_validated_at = some now;
}

abbrev pub back_to_draft : ℕ → VerifiedQuery → VerifiedQuery
back_to_draft now q = record q {
  status = VerifiedQueryStatus.draft;
  invalidation_reason = none;
  last_validation_result = some "passed";
  last_validated_at = some now;
  updated_at = now;
}

unfoldable pub re_validate :
    SqlParser → String → Option (List (String × ℕ)) → ℕ → Db → Db × ValidationResult
unfolding validate_syntax validate_version_compat
re_validate p id active now db = elim (find (is_query id) db.verified) [
  | none ↦ (db, failure (unknown_query id))
  | some q ↦
      let syntax = validate_syntax p q.sql in
      let compat = validate_compat q.dependent_metric_ids q.semantic_version_ref active in
      if not syntax.is_ok
      then (set_query id (check_failed now) db, syntax)
      else if not compat.is_ok
      then (set_query id (check_failed now) db, compat)
      else (
        set_query id (back_to_draft now) db,
        record { is_ok = true; errors = []; warnings = syntax.warnings },
      )
]
