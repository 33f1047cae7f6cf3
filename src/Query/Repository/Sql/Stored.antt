-- ===== src/Query/Repository/Sql/Stored.antt =====
-- What the rows of SQLAlchemyQueryRepository give back of the states that are put into them.
use atlas_sql.Common.{
  String, Bool, false, none, some, [], ◌∷◌, ◌++◌, ◌==◌, string_eq, if◌then◌else◌, any, find,
  update_where, any-append_last, ◌≡◌, refl, arith, eq_iff, ◌∙◌, ap, true, subst, Bool-cases, inl,
  inr,
}
use atlas_sql.Query.Repository.Sql.{
  QueryRecord, state_from_record, record_from_state, QueryState, apply_state, fresh_record, Table,
  has_trace, get_record, create_record, update_record, read_record,
}
use atlas_sql.Query.Repository.Sql.Codes.{read_code-stored_code}

-- A row keeps what it was created with: the sender, the question, the versions and the time limit.
abbrev pub updated_over : QueryRecord → QueryState → QueryState
updated_over r s = record s {
  trace_id = r.trace_id;
  session_id = r.session_id;
  identity = r.identity;
  question = r.question;
  data_version = r.data_version;
  schema_version = r.schema_version;
  model_version = r.model_version;
  timeout_ms = r.timeout_ms;
  created_at = r.created_at;
}

state_from_record-apply_state :
    (r : QueryRecord) (s : QueryState)
    → state_from_record (apply_state r s) ≡ some (updated_over r s)
unfolding state_from_record apply_state
state_from_record-apply_state r s = rw (state_from_record, read_code-stored_code s.error_code) refl

state_from_record-record_from_state :
    (s : QueryState) → state_from_record (record_from_state s) ≡ some s
unfolding record_from_state
state_from_record-record_from_state s = state_from_record-apply_state (fresh_record s) s

find-append_one :
    (p : QueryRecord → Bool) (rows : Table) (r : QueryRecord)
    → any p rows ≡ false
    → find p (rows ++ r ∷ []) ≡ (if p r then some r else none)
unfolding find
find-append_one p [] r h = refl
find-append_one p (q ∷ rows) r h = ground (arith, find-append_one p rows r)

find-append_other :
    (p : QueryRecord → Bool) (rows : Table) (r : QueryRecord)
    → p r ≡ false
    → find p (rows ++ r ∷ []) ≡ find p rows
unfolding find
find-append_other p [] r h = rw h refl
find-append_other p (q ∷ rows) r h = ground (arith, find-append_other p rows r)

-- The row of a request after one of its rows was changed without a change of the trace id.
find-update_self :
    (id : String) (f : QueryRecord → QueryRecord) (rows : Table) (r : QueryRecord)
    → ((q : QueryRecord) → (f q).trace_id ≡ q.trace_id)
    → find (has_trace id) rows ≡ some r
    → find (has_trace id) (update_where (has_trace id) f rows) ≡ some (f r)
unfolding find update_where
find-update_self id f [] r same h = absurd (ground arith)
find-update_self id f (q ∷ rows) r same h =
    ground (arith, find-update_self id f rows r same, same q)

find-update_other :
    (id t : String) (f : QueryRecord → QueryRecord) (rows : Table)
    → ((q : QueryRecord) → (f q).trace_id ≡ q.trace_id)
    → (id == t) ≡ false
    → find (has_trace t) (update_where (has_trace id) f rows) ≡ find (has_trace t) rows
unfolding find update_where
find-update_other id t f [] same h = refl
find-update_other id t f (q ∷ rows) same h = ground (
  arith,
  find-update_other id t f rows same,
  same q,
  eq_iff q.trace_id t,
  eq_iff q.trace_id id,
  eq_iff id t,
)

-- A state that keeps the sender, the question, the versions and the time limit of another.
abbrev pub kept_from : QueryState → QueryState → QueryState
kept_from s later = record later {
  trace_id = s.trace_id;
  session_id = s.session_id;
  identity = s.identity;
  question = s.question;
  data_version = s.data_version;
  schema_version = s.schema_version;
  model_version = s.model_version;
  timeout_ms = s.timeout_ms;
  created_at = s.created_at;
}

updated_rows : QueryState → QueryState → Table → Table
updated_rows s later rows =
    update_where (has_trace s.trace_id) (λ r. apply_state r later)
      (rows ++ record_from_state s ∷ [])

apply_state-same_trace :
    (later : QueryState) (r : QueryRecord) → (apply_state r later).trace_id ≡ r.trace_id
unfolding apply_state
apply_state-same_trace later r = refl

updated_rows-own :
    (s later : QueryState) (rows : Table)
    → any (has_trace s.trace_id) rows ≡ false
    → get_record s.trace_id (updated_rows s later rows) ≡ some (some (kept_from s later))
unfolding get_record updated_rows record_from_state apply_state
updated_rows-own s later rows h =
    let stored : find (has_trace s.trace_id) (rows ++ record_from_state s ∷ [])
        ≡ some (record_from_state s) =
      find-append_one (has_trace s.trace_id) rows (record_from_state s) h
      ∙ ground (arith, eq_iff s.trace_id s.trace_id) in
    ap read_record (
      find-update_self s.trace_id (λ r. apply_state r later) (rows ++ record_from_state s ∷ [])
        (record_from_state s) (apply_state-same_trace later) stored)
    ∙ ap (λ o. elim o [ none ↦ none | some x ↦ some (some x) ])
        (state_from_record-apply_state (record_from_state s) later)

updated_rows-other :
    (s later : QueryState) (rows : Table) (t : String)
    → (s.trace_id == t) ≡ false
    → get_record t (updated_rows s later rows) ≡ get_record t rows
unfolding get_record updated_rows record_from_state apply_state
updated_rows-other s later rows t h = ap read_record (
    find-update_other s.trace_id t (λ r. apply_state r later) (rows ++ record_from_state s ∷ [])
      (apply_state-same_trace later) h
    ∙ find-append_other (has_trace t) rows (record_from_state s) h)

update_known :
    (s later : QueryState) (rows : Table)
    → later.trace_id ≡ s.trace_id
    → any (has_trace s.trace_id) rows ≡ true
    → (update_record later rows).1
      ≡ update_where (has_trace s.trace_id) (λ r. apply_state r later) rows
unfolding update_record
update_known s later rows e k =
    subst
      (λ (id : String).
        any (has_trace id) rows ≡ true
        → (update_record later rows).1
          ≡ update_where (has_trace id) (λ r. apply_state r later) rows)
      e (λ known. rw (update_record, known) refl) k

created_rows :
    (s : QueryState) (rows : Table)
    → any (has_trace s.trace_id) rows ≡ false
    → (create_record s rows).1 ≡ rows ++ record_from_state s ∷ []
unfolding create_record
created_rows s rows h = rw (create_record, h) refl

created-is_known :
    (s : QueryState) (rows : Table)
    → any (has_trace s.trace_id) (rows ++ record_from_state s ∷ []) ≡ true
unfolding record_from_state apply_state
created-is_known s rows =
    any-append_last (has_trace s.trace_id) rows (record_from_state s)
      (ground (arith, eq_iff s.trace_id s.trace_id))

updated_rows-read :
    (s later : QueryState) (rows : Table) (t : String)
    → any (has_trace s.trace_id) rows ≡ false
    → get_record t (updated_rows s later rows)
      ≡ (if s.trace_id == t then some (some (kept_from s later)) else get_record t rows)
updated_rows-read s later rows t free = elim (Bool-cases (s.trace_id == t)) [
  | inl own ↦ rw own (
      subst (λ id. get_record id (updated_rows s later rows) ≡ some (some (kept_from s later)))
        ((eq_iff s.trace_id t).0 own) (updated_rows-own s later rows free))
  | inr other ↦ rw other (updated_rows-other s later rows t other)
]

-- After a request is created and then updated, its row gives back the later state with the sender, the
-- question, the versions and the time limit of the first one, the version of the model included; every
-- other request reads as before.
pub create_record-update_record :
    (s later : QueryState) (rows : Table) (t : String)
    → later.trace_id ≡ s.trace_id
    → (create_record s rows).0 ≡ true
    → get_record t (update_record later (create_record s rows).1).1
      ≡ (if s.trace_id == t then some (some (kept_from s later)) else get_record t rows)
unfolding create_record updated_rows
create_record-update_record s later rows t e h =
    elim (Bool-cases (any (has_trace s.trace_id) rows)) [
      | inl used ↦ absurd (ground arith)
      | inr free ↦
          let after : (update_record later (create_record s rows).1).1 ≡ updated_rows s later rows =
            ap (λ l. (update_record later l).1) (created_rows s rows free)
            ∙ update_known s later (rows ++ record_from_state s ∷ []) e (created-is_known s rows) in
          ap (get_record t) after ∙ updated_rows-read s later rows t free
    ]
