-- ===== src/Query/Repository.antt =====
-- server/query/repository.py: the persistence port, and the in-memory repository. A call may raise:
-- it returns whether it did not, with the store that it leaves.
pub mod InMemory
pub mod Sql
mod Tests
use atlas_sql.Common.{String, Bool, true, false, Option, none, some, ◌≡◌, ◌≢◌, ◌↔◌}
use atlas_sql.Query.Types.{QueryState}

-- The protocol QueryRepository.
pub record QueryRepository : Type 1 where
  pub Store : Type 0
  pub create : QueryState → Store → Bool × Store
  pub update : QueryState → Store → Bool × Store
  pub get : String → Store → Option QueryState

-- What a caller relies on: a call that returns has stored the state under its trace id and has
-- left the other requests alone, and a call that raises has stored nothing.
pub record IsLawful (repo : QueryRepository) : Type 1 where
  pub create_stores :
      (s : QueryState) (st : repo.Store)
      → (repo.create s st).0 ≡ true
      → repo.get s.trace_id (repo.create s st).1 ≡ some s
  pub update_stores :
      (s : QueryState) (st : repo.Store)
      → (repo.update s st).0 ≡ true
      → repo.get s.trace_id (repo.update s st).1 ≡ some s
  pub create_others :
      (s : QueryState) (st : repo.Store) (t : String)
      → s.trace_id ≢ t
      → repo.get t (repo.create s st).1 ≡ repo.get t st
  pub update_others :
      (s : QueryState) (st : repo.Store) (t : String)
      → s.trace_id ≢ t
      → repo.get t (repo.update s st).1 ≡ repo.get t st
  pub create_raises :
      (s : QueryState) (st : repo.Store) → (repo.create s st).0 ≡ false → (repo.create s st).1 ≡ st
  pub update_raises :
      (s : QueryState) (st : repo.Store) → (repo.update s st).0 ≡ false → (repo.update s st).1 ≡ st

-- One record for each trace id: create returns exactly where there is none under the trace id, and
-- update exactly where there is one.
pub record IsKeyed (repo : QueryRepository) : Type 1 where
  pub creates :
      (s : QueryState) (st : repo.Store)
      → ((repo.create s st).0 ≡ true) ↔ (repo.get s.trace_id st ≡ none)
  pub updates :
      (s : QueryState) (st : repo.Store)
      → ((repo.update s st).0 ≡ true) ↔ (repo.get s.trace_id st ≢ none)

pub record IsRepository (repo : QueryRepository) : Type 1 where
  pub lawful : IsLawful repo
  pub keyed : IsKeyed repo
