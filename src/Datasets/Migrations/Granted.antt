-- ===== src/Datasets/Migrations/Granted.antt =====
-- What a run of the grants that ends without an exception leaves, and that another run needs no new
-- role.
use atlas_sql.Common.{
  String, Bool, true, false, Option, none, some, List, [], ◌∷◌, ◌++◌, ◌≡◌, inl, inr, refl, ap,
  arith, eq_iff, Bool-cases, Option-cases, contains, if◌then◌else◌, string_eq, All,
}
use atlas_sql.Datasets.Ddl.{Identifier, quote_identifier}
use atlas_sql.Datasets.Roles.{
  BusinessDatabase, RoleStatement, creates_role, grants, role_statements, with_statement,
  execute_all, grant_reader,
}

-- The statements of a run for a reader whose role is there.
unfoldable pub repairs : Option String → List RoleStatement
unfolding quote_identifier
repairs none = []
repairs (some name) = elim (quote_identifier name) [ none ↦ [] | some role ↦ grants role ]

repairs-some :
    (name : String) (role : Identifier)
    → quote_identifier name ≡ some role
    → repairs (some name) ≡ grants role
unfolding repairs
repairs-some name role e = rw (repairs, e) refl

append_one : {A : Type 0} (xs : List A) (y : A) (ys : List A) → (xs ++ y ∷ []) ++ ys ≡ xs ++ y ∷ ys
append_one [] y ys = refl
append_one (x ∷ xs) y ys = ap (λ zs. x ∷ zs) (append_one xs y ys)

append_none : {A : Type 0} (xs : List A) → xs ++ [] ≡ xs
append_none [] = refl
append_none (x ∷ xs) = ap (λ zs. x ∷ zs) (append_none xs)

module _ (accepts : RoleStatement → Bool) (name : String) where
  abbrev roles_after : List RoleStatement → List String → List String
  roles_after [] roles = roles
  roles_after (s ∷ ss) roles = roles_after ss (if creates_role s then name ∷ roles else roles)

  record IsExecuted (ss : List RoleStatement) (db db' : BusinessDatabase) : Type 0 where
    accepted : All (λ s. accepts s ≡ true) ss
    versions : db'.versions ≡ db.versions
    roles : db'.roles ≡ roles_after ss db.roles

  execute_all-IsExecuted :
      (ss : List RoleStatement) (db db' : BusinessDatabase)
      → execute_all accepts name ss db ≡ (db', true)
      → IsExecuted ss db db'
  unfolding execute_all
  execute_all-IsExecuted [] db db' h = record {
    accepted = tt;
    versions = ground arith;
    roles = ground arith;
  }
  execute_all-IsExecuted (s ∷ ss) db db' h = elim (Bool-cases (accepts s)) [
    | inr e ↦ absurd (ground arith)
    | inl e ↦
        let rest =
          execute_all-IsExecuted ss (with_statement accepts name s db) db' (ground arith) in
        record { accepted = (e, rest.accepted); versions = rest.versions; roles = rest.roles }
  ]

  -- Accepted statements that create no role leave the statements behind and nothing else.
  execute_all-accepted :
      (ss : List RoleStatement) (db : BusinessDatabase)
      → All (λ s. accepts s ≡ true) ss
      → All (λ s. creates_role s ≡ false) ss
      → execute_all accepts name ss db ≡ (record db { statements = db.statements ++ ss }, true)
  unfolding execute_all
  execute_all-accepted [] db h k = rw (append_none db.statements) refl
  execute_all-accepted (s ∷ ss) db h k =
      rw
        (
          h.0,
          execute_all,
          execute_all-accepted ss (with_statement accepts name s db) h.1 k.1,
          k.0,
          append_one db.statements s ss,
        )
        refl

grants_accepted :
    (accepts : RoleStatement → Bool) (b : Bool) (role : Identifier) (password : Option String)
    → All (λ s. accepts s ≡ true) (role_statements b role password)
    → All (λ s. accepts s ≡ true) (grants role)
grants_accepted accepts true role password h = h
grants_accepted accepts false role none h = h.1
grants_accepted accepts false role (some p) h = h.1.1

has_role :
    (accepts : RoleStatement → Bool) (name : String) (b : Bool) (role : Identifier)
    (password : Option String) (roles : List String)
    → contains roles name ≡ b
    → contains (roles_after accepts name (role_statements b role password) roles) name ≡ true
has_role accepts name true role password roles e = e
has_role accepts name false role none roles e = ground (arith, eq_iff name name)
has_role accepts name false role (some p) roles e = ground (arith, eq_iff name name)

module _ (accepts : RoleStatement → Bool) where
  -- The versions are as they were, and a reader that is named has its role.
  pub record IsGranted (role : Option String) (db db' : BusinessDatabase) : Type 0 where
    pub versions : db'.versions ≡ db.versions

  pub granted :
      (role password : Option String) (db db' : BusinessDatabase)
      → grant_reader accepts role password db ≡ (db', true)
      → IsGranted role db db'
  unfolding grant_reader
  granted none password db db' h = record { versions = ground arith }
  granted (some name) password db db' h = elim (Option-cases (quote_identifier name)) [
    | inl e ↦ absurd (ground arith)
    | inr (role, e) ↦
        let ran =
          execute_all-IsExecuted accepts name
            (role_statements (contains db.roles name) role password) db db'
            (rw (grant_reader, e) at h) in
        record { versions = ran.versions }
  ]

  pub repaired :
      (role password : Option String) (db db' : BusinessDatabase)
      → grant_reader accepts role password db ≡ (db', true)
      → grant_reader accepts role password db'
        ≡ (record db' { statements = db'.statements ++ repairs role }, true)
  unfolding grant_reader repairs
  repaired none password db db' h = rw (append_none db'.statements) refl
  repaired (some name) password db db' h = elim (Option-cases (quote_identifier name)) [
    | inl e ↦ absurd (ground arith)
    | inr (role, e) ↦
        let ss = role_statements (contains db.roles name) role password in
        let ran = execute_all-IsExecuted accepts name ss db db' (rw (grant_reader, e) at h) in
        let there : contains db'.roles name ≡ true =
          rw ran.roles
            (has_role accepts name (contains db.roles name) role password db.roles refl) in
        rw (repairs-some name role e, grant_reader, e, there)
          (execute_all-accepted accepts name (grants role) db'
            (grants_accepted accepts (contains db.roles name) role password ran.accepted)
            (refl, (refl, (refl, (refl, (refl, tt))))))
  ]
