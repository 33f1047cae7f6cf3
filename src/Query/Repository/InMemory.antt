-- ===== src/Query/Repository/InMemory.antt =====
-- InMemoryQueryRepository, and that it is a lawful repository.
use atlas_sql.Common.{
  String, Bool, true, false, Option, some, List, ◌≡◌, ◌≢◌, arith, eq_iff, string_eq, if◌then◌else◌,
  lookup, insert, has_key, lookup-insert, Option-cases, inl, inr,
}
use atlas_sql.Query.Types.{QueryState}
use atlas_sql.Query.Repository.{QueryRepository, IsLawful, IsRepository}

abbrev pub Records : Type 0
Records = List (String × QueryState)

-- A trace id that is there raises ValueError.
unfoldable pub create : QueryState → Records → Bool × Records
create s records =
    if has_key s.trace_id records then (false, records) else (true, insert s.trace_id s records)

-- A trace id that is not there raises KeyError.
unfoldable pub update : QueryState → Records → Bool × Records
update s records =
    if has_key s.trace_id records then (true, insert s.trace_id s records) else (false, records)

unfoldable pub get : String → Records → Option QueryState
get trace_id records = lookup trace_id records

abbrev pub in_memory : QueryRepository
in_memory = record { Store = Records; create = create; update = update; get = get }

insert_self :
    (s : QueryState) (records : Records) → get s.trace_id (insert s.trace_id s records) ≡ some s
unfolding get
insert_self s records =
    ground (arith, lookup-insert s.trace_id s.trace_id s records, eq_iff s.trace_id s.trace_id)

insert-other :
    (s : QueryState) (records : Records) (t : String)
    → s.trace_id ≢ t
    → get t (insert s.trace_id s records) ≡ get t records
unfolding get
insert-other s records t h =
    ground (arith, lookup-insert s.trace_id t s records, eq_iff s.trace_id t)

pub in_memory-IsLawful : IsLawful in_memory
unfolding create update
in_memory-IsLawful = record {
  create_stores = λ s st h. ground (arith, insert_self s st);
  update_stores = λ s st h. ground (arith, insert_self s st);
  create_others = λ s st t h. ground (arith, insert-other s st t);
  update_others = λ s st t h. ground (arith, insert-other s st t);
  create_raises = λ s st h. ground arith;
  update_raises = λ s st h. ground arith;
}

-- With the in-memory repository, a call that returns has stored the state under its trace id and has
-- left the other requests alone, and a call that raises has stored nothing; create returns exactly
-- where there is no request under the trace id, and update exactly where there is one.
pub in_memory-IsRepository : IsRepository in_memory
unfolding create update get
in_memory-IsRepository = record {
  lawful = in_memory-IsLawful;
  keyed = record {
    creates = λ s st. elim (Option-cases (lookup s.trace_id st)) [
      | inl e ↦ ground arith
      | inr (t, e) ↦ ground arith
    ];
    updates = λ s st. elim (Option-cases (lookup s.trace_id st)) [
      | inl e ↦ ground arith
      | inr (t, e) ↦ ground arith
    ];
  };
}

pub create-used :
    (s : QueryState) (records : Records)
    → has_key s.trace_id records ≡ true
    → create s records ≡ (false, records)
unfolding create
create-used s records h = rw h

pub create-unused :
    (s : QueryState) (records : Records)
    → has_key s.trace_id records ≡ false
    → create s records ≡ (true, insert s.trace_id s records)
unfolding create
create-unused s records h = rw h

pub update-used :
    (s : QueryState) (records : Records)
    → has_key s.trace_id records ≡ true
    → update s records ≡ (true, insert s.trace_id s records)
unfolding update
update-used s records h = rw h
