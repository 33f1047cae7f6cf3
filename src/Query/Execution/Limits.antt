-- ===== src/Query/Execution/Limits.antt =====
-- How many rows an execution shows, and when it says that it shows all.
use atlas_sql.Common.{
  ℕ, suc, zero, ◌+◌, ◌≤◌, ◌<◌, min, String, true, List, [], ◌∷◌, map, ◌≡◌, ◌↔◌, inl, inr, refl, ◌∙◌,
  ap, subst, arith, length, take, length-take, length-map,
}
use atlas_sql.Query.Execution.{
  ValidatedSql, ExecutionResult, DbValue, serialize_cell, returned, Attempt-cases, LimitedQuery,
  Fetched, Driver, ExecutorSettings, limited, visible, execute,
}

-- LIMIT: where `rows_of` has the rows of every query, the driver returns the first ones, as many as
-- the limit allows.
abbrev pub HonoursLimit : (String → List (List DbValue)) → Driver → Type 0
HonoursLimit rows_of driver =
    (q : LimitedQuery) (f : Fetched)
    → driver q ≡ returned f
    → f.records ≡ take q.limit (rows_of q.sql)

-- What is shown of a query that has the rows `available`.
pub record IsShown (cfg : ExecutorSettings) (driver : Driver) (query : ValidatedSql)
    (timeout_ms : ℕ) (available : List (List DbValue)) (r : ExecutionResult) : Type 0 where
  pub sent : LimitedQuery
  pub fetched : Fetched
  pub ran : driver sent ≡ returned fetched
  pub sql : sent.sql ≡ query.sql
  pub within_request : sent.statement_timeout ≤ timeout_ms
  pub within_settings : sent.statement_timeout ≤ cfg.statement_timeout_ms
  pub columns : r.columns ≡ fetched.attributes
  pub rows : r.rows ≡ map (map serialize_cell) (take cfg.max_rows available)
  pub at_most : length r.rows ≤ cfg.max_rows
  pub truncated : (r.truncated ≡ true) ↔ (cfg.max_rows < length available)

take-take_one_more : {A : Type 0} (n : ℕ) (xs : List A) → take n (take (suc n) xs) ≡ take n xs
take-take_one_more zero [] = refl
take-take_one_more zero (x ∷ xs) = refl
take-take_one_more (suc n) [] = refl
take-take_one_more (suc n) (x ∷ xs) = ap (λ ys. x ∷ ys) (take-take_one_more n xs)

take_one_more : {A : Type 0} (n : ℕ) (xs : List A) → take n (take (n + 1) xs) ≡ take n xs
take_one_more n xs = let same : n + 1 ≡ suc n = omega arith in rw same (take-take_one_more n xs)

-- With a driver that honours LIMIT, an execution that returns has sent the validated SQL with a
-- timeout within both bounds. Of the rows that the query has it shows the first `max_rows`, and it
-- says that they are truncated exactly if the query has more.
pub execute-IsShown :
    (rows_of : String → List (List DbValue)) (cfg : ExecutorSettings) (driver : Driver)
    (query : ValidatedSql) (timeout_ms : ℕ) (r : ExecutionResult)
    → HonoursLimit rows_of driver
    → execute cfg driver query timeout_ms ≡ returned r
    → IsShown cfg driver query timeout_ms (rows_of query.sql) r
unfolding execute
execute-IsShown rows_of cfg driver query timeout_ms r honours h =
    elim (Attempt-cases (driver (limited cfg query timeout_ms))) [
      | inl e ↦ absurd (ground arith)
      | inr (inl (k, e)) ↦ absurd (ground arith)
      | inr (inr (f, e)) ↦
          let same : visible cfg f ≡ r = ground arith in
          subst (IsShown cfg driver query timeout_ms (rows_of query.sql)) same
            (shown f e (honours (limited cfg query timeout_ms) f e))
    ]
  where
    shown :
        (f : Fetched)
        → driver (limited cfg query timeout_ms) ≡ returned f
        → f.records ≡ take (cfg.max_rows + 1) (rows_of query.sql)
        → IsShown cfg driver query timeout_ms (rows_of query.sql) (visible cfg f)
    shown f e k =
        let fetched : length f.records ≡ min (cfg.max_rows + 1) (length (rows_of query.sql)) =
          ap length k ∙ length-take (cfg.max_rows + 1) (rows_of query.sql) in
        record {
          sent = limited cfg query timeout_ms;
          fetched = f;
          ran = e;
          sql = refl;
          within_request = omega arith;
          within_settings = omega arith;
          columns = refl;
          rows =
              ap (λ rs. map (map serialize_cell) (take cfg.max_rows rs)) k
              ∙ ap (map (map serialize_cell)) (take_one_more cfg.max_rows (rows_of query.sql));
          at_most = omega (
            arith,
            length-map (map serialize_cell) (take cfg.max_rows f.records),
            length-take cfg.max_rows f.records,
          );
          truncated = ground (arith, fetched);
        }
