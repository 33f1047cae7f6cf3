-- ===== src/Semantic/VerifiedQueries/Signed.antt =====
-- Every query that can be retrieved was signed, whatever the repository is asked to do.
use atlas_sql.Common.{
  ℕ, String, Bool, true, false, Option, none, some, List, [], ◌∷◌, ◌≡◌, inl, inr, refl, arith, All,
  All-append, All-update_where, All-take, All-mapped, either_branch, Bool-cases, Option-cases,
  filter, find, string_eq, contains, is_empty, ◌⊎◌, Among,
}
use atlas_sql.Semantic.Models.{VerifiedQuery, Db, is_verified}
use atlas_sql.Semantic.Lifecycle.{depends, invalidated}
use atlas_sql.Semantic.VerifiedQueries.{
  VerifiedQueryEntry, ValidationResult, DraftQueryInput, SqlParser, is_query, orm_to_entry,
  is_retrievable, load_for_retrieval, validate_syntax, validate_compat,
}
use atlas_sql.Semantic.VerifiedQueries.Review.{
  draft_of, add_query, set_query, add_checked, add_draft, signed, mark_verified,
  invalidate_by_metric, check_failed, back_to_draft, re_validate,
}

pub data Request : Type 0 where
  add : DraftQueryInput → Bool → Option (List (String × ℕ)) → String → Request
  mark : String → String → Request
  invalidate : String → String → Request
  check_again : String → Option (List (String × ℕ)) → Request

-- A verified query names who verified it.
abbrev pub IsSigned : VerifiedQuery → Type 0
IsSigned q = is_verified q.status ≡ true → (by : String) × (q.verified_by ≡ some by)

abbrev pub IsAllSigned : Db → Type 0
IsAllSigned db = All IsSigned db.verified

module _ (p : SqlParser) where
  unfoldable pub handle : Request → ℕ → Db → Db
  handle (add inp validate active fresh) now db = (add_draft p inp validate active fresh now db).0
  handle (mark id by) now db = (mark_verified id by now db).0
  handle (invalidate metric_id reason) now db = (invalidate_by_metric metric_id reason now db).0
  handle (check_again id active) now db = (re_validate p id active now db).0

  unfoldable pub handle_all : List (Request × ℕ) → Db → Db
  unfolding handle
  handle_all [] db = db
  handle_all ((r, now) ∷ rs) db = handle_all rs (handle r now db)

  add_query-IsAllSigned :
      (inp : DraftQueryInput) (id : String) (b : Bool) (now : ℕ) (db : Db)
      → IsAllSigned db
      → IsAllSigned (add_query (draft_of inp id b now) db)
  add_query-IsAllSigned inp id b now db h =
      All-append IsSigned db.verified _ h ((λ e. absurd (ground arith)), tt)

  set_query-IsAllSigned :
      (id : String) (f : VerifiedQuery → VerifiedQuery) (db : Db)
      → ((q : VerifiedQuery) → IsSigned q → IsSigned (f q))
      → IsAllSigned db
      → IsAllSigned (set_query id f db)
  set_query-IsAllSigned id f db k h =
      All-update_where IsSigned (is_query id) f db.verified (λ q e s. k q s) h

  add_checked-IsAllSigned :
      (inp : DraftQueryInput) (fresh : String) (now : ℕ) (syntax : ValidationResult)
      (active : Option (List (String × ℕ))) (db : Db)
      → IsAllSigned db
      → IsAllSigned (add_checked inp fresh now syntax active db).0
  unfolding add_checked
  add_checked-IsAllSigned inp fresh now syntax none db h =
      add_query-IsAllSigned inp fresh true now db h
  add_checked-IsAllSigned inp fresh now syntax (some active) db h =
      either_branch (λ (r : Db × String × ValidationResult). IsAllSigned r.0) _ _ _ h
        (add_query-IsAllSigned inp fresh true now db h)

  add_draft-IsAllSigned :
      (inp : DraftQueryInput) (b : Bool) (active : Option (List (String × ℕ))) (fresh : String)
      (now : ℕ) (db : Db)
      → IsAllSigned db
      → IsAllSigned (add_draft p inp b active fresh now db).0
  unfolding add_draft
  add_draft-IsAllSigned inp false active fresh now db h =
      add_query-IsAllSigned inp fresh false now db h
  add_draft-IsAllSigned inp true active fresh now db h =
      either_branch (λ (r : Db × String × ValidationResult). IsAllSigned r.0) _ _ _ h
        (add_checked-IsAllSigned inp fresh now (validate_syntax p inp.sql) active db h)

  mark_verified-IsAllSigned :
      (id by : String) (now : ℕ) (db : Db)
      → IsAllSigned db
      → IsAllSigned (mark_verified id by now db).0
  unfolding mark_verified
  mark_verified-IsAllSigned id by now db h = elim (Option-cases (find (is_query id) db.verified)) [
    | inl e ↦ rw (e, mark_verified) h
    | inr (q, e) ↦
        rw (e, mark_verified)
          (either_branch (λ (r : Db × Bool). IsAllSigned r.0) _ _ _
            (set_query-IsAllSigned id (signed by now) db (λ x k e. (by, refl)) h) h)
  ]

  re_validate-IsAllSigned :
      (id : String) (active : Option (List (String × ℕ))) (now : ℕ) (db : Db)
      → IsAllSigned db
      → IsAllSigned (re_validate p id active now db).0
  unfolding re_validate
  re_validate-IsAllSigned id active now db h =
      elim (Option-cases (find (is_query id) db.verified)) [
        | inl e ↦ rw (e, re_validate) h
        | inr (q, e) ↦
            let failed = set_query-IsAllSigned id (check_failed now) db (λ x k. k) h in
            let passed =
              set_query-IsAllSigned id (back_to_draft now) db (λ x k e. absurd (ground arith)) h in
            let syntax = validate_syntax p q.sql in
            let compat = validate_compat q.dependent_metric_ids q.semantic_version_ref active in
            elim (Bool-cases syntax.is_ok) [
              | inr bad ↦ rw (e, bad, re_validate) failed
              | inl good ↦ elim (Bool-cases compat.is_ok) [
                | inr old ↦ rw (e, good, old, re_validate) failed
                | inl new ↦ rw (e, good, new, re_validate) passed
              ]
            ]
      ]

  handle-IsAllSigned :
      (r : Request) (now : ℕ) (db : Db) → IsAllSigned db → IsAllSigned (handle r now db)
  unfolding handle invalidate_by_metric
  handle-IsAllSigned (add inp b active fresh) now db h =
      add_draft-IsAllSigned inp b active fresh now db h
  handle-IsAllSigned (mark id by) now db h = mark_verified-IsAllSigned id by now db h
  handle-IsAllSigned (invalidate metric_id reason) now db h =
      All-update_where IsSigned (depends metric_id) (invalidated reason now) db.verified
        (λ q e k l. absurd (ground arith)) h
  handle-IsAllSigned (check_again id active) now db h = re_validate-IsAllSigned id active now db h

  handle_all-IsAllSigned :
      (rs : List (Request × ℕ)) (db : Db) → IsAllSigned db → IsAllSigned (handle_all rs db)
  unfolding handle_all
  handle_all-IsAllSigned [] db h = h
  handle_all-IsAllSigned ((r, now) ∷ rs) db h =
      handle_all-IsAllSigned rs (handle r now db) (handle-IsAllSigned r now db h)

  -- An entry stands for one of the rows, which is verified, signed by someone, of the domains if any
  -- are given and, if test queries are excluded, not locked for tests.
  pub record IsReviewed (rows : List VerifiedQuery) (domains : List String)
      (exclude_test_locked : Bool) (e : VerifiedQueryEntry) : Type 0 where
    pub row : VerifiedQuery
    pub stored : Among row rows
    pub entry : e ≡ orm_to_entry row
    pub verified : is_verified row.status ≡ true
    pub by : String
    pub signature : row.verified_by ≡ some by
    pub of_domain : is_empty domains ≡ true ⊎ contains domains e.domain ≡ true
    pub unlocked : exclude_test_locked ≡ true → e.is_test_locked ≡ false

  kept_domain :
      (domains : List String) (b : Bool) (schema : Option String) (q : VerifiedQuery)
      → is_retrievable domains b schema q ≡ true
      → is_empty domains ≡ true ⊎ contains domains q.domain ≡ true
  kept_domain domains b schema q e = elim (Bool-cases (is_empty domains)) [
    | inl none_given ↦ inl none_given
    | inr given ↦ inr (ground arith)
  ]

  filter-IsReviewed :
      (rows : List VerifiedQuery) (domains : List String) (b : Bool) (schema : Option String)
      (qs : List VerifiedQuery)
      → ((q : VerifiedQuery) → Among q qs → Among q rows)
      → All IsSigned qs
      → All
          (λ q. IsReviewed rows domains b (orm_to_entry q))
          (filter (is_retrievable domains b schema) qs)
  filter-IsReviewed rows domains b schema [] k h = tt
  filter-IsReviewed rows domains b schema (q ∷ qs) k h =
      let later = filter-IsReviewed rows domains b schema qs (λ r m. k r (inr m)) h.1 in
      elim (Bool-cases (is_retrievable domains b schema q)) [
        | inr e ↦ rw e later
        | inl e ↦
            let v : is_verified q.status ≡ true = ground arith in
            let (by, s) = h.0 v in
            rw e (
              record {
                row = q;
                stored = k q (inl refl);
                entry = refl;
                verified = v;
                by = by;
                signature = s;
                of_domain = kept_domain domains b schema q e;
                unlocked = λ x. ground arith;
              },
              later,
            )
      ]

  -- Whatever requests the repository serves, from rows of which every verified one is signed: each
  -- entry that is loaded for retrieval stands for a row that is in the table then, verified and
  -- signed by someone, of the given domains if there are any, and not locked for tests if those are
  -- excluded.
  pub load_for_retrieval-IsReviewed :
      (rs : List (Request × ℕ)) (db : Db) (domains : List String) (exclude_test_locked : Bool)
      (schema : Option String) (limit : ℕ)
      → IsAllSigned db
      → All
          (IsReviewed (handle_all rs db).verified domains exclude_test_locked)
          (load_for_retrieval domains exclude_test_locked schema limit (handle_all rs db))
  unfolding load_for_retrieval
  load_for_retrieval-IsReviewed rs db domains b schema limit h =
      All-mapped orm_to_entry (IsReviewed (handle_all rs db).verified domains b) _ (
        All-take _ limit _ (
          filter-IsReviewed (handle_all rs db).verified domains b schema _ (λ q m. m)
            (handle_all-IsAllSigned rs db h)))
