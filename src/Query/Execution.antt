-- ===== src/Query/Execution.antt =====
-- server/execution/postgres.py and server/generation/answer.py: the read-only execution of a
-- validated query, and the summary of its result. The driver is an argument: it runs a query under
-- a timeout. The semaphore and the connection pool are left out.
pub mod Limits
use atlas_sql.Common.{
  ℕ, suc, ◌+◌, ◌≤◌, min, String, Bool, true, false, ◌&&◌, Option, none, some, List, [], ◌∷◌, map,
  ◌≡◌, ◌⊎◌, inl, inr, refl, ap, ◌∙◌, arith, if◌then◌else◌, length, take, leb, ltb, length-take,
  length-map, ◌==◌, nat_eq,
}
use atlas_sql.Query.Types.{QueryColumn, QueryCell, QueryErrorCode}

pub record ValidatedSql : Type 0 where
  pub sql : String
  pub tables : List String
  pub columns : List String

pub data ExecutionErrorKind : Type 0 where
  timed_out busy database : ExecutionErrorKind

-- QueryExecutionError.code
unfoldable pub error_code : ExecutionErrorKind → QueryErrorCode
error_code ExecutionErrorKind.timed_out = QueryErrorCode.execution_timeout
error_code ExecutionErrorKind.busy = QueryErrorCode.execution_busy
error_code ExecutionErrorKind.database = QueryErrorCode.execution_error

pub record ExecutionResult : Type 0 where
  pub columns : List QueryColumn
  pub rows : List (List QueryCell)
  pub truncated : Bool
  pub duration : ℕ

-- A call that returns, one that ends in an error with a kind, one that raises anything else.
pub data Attempt (E A : Type 0) : Type 0 where
  returned : A → Attempt E A
  refused : E → Attempt E A
  raised : Attempt E A

pub Attempt-cases :
    {E A : Type 0} (a : Attempt E A)
    → (a ≡ raised) ⊎ ((e : E) × (a ≡ refused e)) ⊎ ((x : A) × (a ≡ returned x))
Attempt-cases raised = inl refl
Attempt-cases (refused e) = inr (inl (e, refl))
Attempt-cases (returned x) = inr (inr (x, refl))

-- One step after another; the first that does not return ends them.
infixl 5 ◌>>=◌ ◌>>◌
abbrev pub ◌>>=◌ : {E A B : Type 0} → Attempt E A → (A → Attempt E B) → Attempt E B
returned x >>= f = f x
refused e >>= f = refused e
raised >>= f = raised

abbrev pub ◌>>◌ : {E B : Type 0} → Attempt E (Unit {0}) → Attempt E B → Attempt E B
m >> k = m >>= λ _. k

-- if not b: raise e
abbrev pub demand : {E : Type 0} → Bool → E → Attempt E (Unit {0})
demand true e = returned tt
demand false e = refused e

pub bind_returned :
    {E A B : Type 0} (m : Attempt E A) (f : A → Attempt E B) (y : B)
    → (m >>= f) ≡ returned y
    → (x : A) × (m ≡ returned x) × (f x ≡ returned y)
bind_returned (returned x) f y h = (x, refl, h)
bind_returned (refused e) f y h = absurd (ground arith)
bind_returned raised f y h = absurd (ground arith)

-- A value of the database: one that JSON knows, or the text that is made of any other.
pub data DbValue : Type 0 where
  plain : QueryCell → DbValue
  rendered : String → DbValue

-- _serialize_cell
abbrev pub serialize_cell : DbValue → QueryCell
serialize_cell (plain c) = c
serialize_cell (rendered s) = QueryCell.text s

-- SELECT * FROM (sql) AS atlas_limited_result LIMIT limit
pub record LimitedQuery : Type 0 where
  pub sql : String
  pub limit : ℕ
  pub statement_timeout : ℕ

pub record Fetched : Type 0 where
  pub attributes : List QueryColumn
  pub records : List (List DbValue)
  pub duration : ℕ

abbrev pub Driver : Type 0
Driver = LimitedQuery → Attempt ExecutionErrorKind Fetched

pub record ExecutorSettings : Type 0 where
  pub statement_timeout_ms : ℕ
  pub max_rows : ℕ

abbrev pub limited : ExecutorSettings → ValidatedSql → ℕ → LimitedQuery
limited cfg query timeout_ms = record {
  sql = query.sql;
  limit = cfg.max_rows + 1;
  statement_timeout = min timeout_ms cfg.statement_timeout_ms;
}

abbrev pub visible : ExecutorSettings → Fetched → ExecutionResult
visible cfg f = record {
  columns = f.attributes;
  rows = map (map serialize_cell) (take cfg.max_rows f.records);
  truncated = ltb cfg.max_rows (length f.records);
  duration = f.duration;
}

unfoldable pub execute :
    ExecutorSettings → Driver → ValidatedSql → ℕ → Attempt ExecutionErrorKind ExecutionResult
execute cfg driver query timeout_ms = elim (driver (limited cfg query timeout_ms)) [
  | returned f ↦ returned (visible cfg f)
  | refused k ↦ refused k
  | raised ↦ raised
]

-- The texts of ResultSummaryBuilder, with what is put into them.
pub data Summary : Type 0 where
  no_rows : Summary
  null_value : QueryColumn → Summary
  one_value : QueryColumn → QueryCell → Summary
  many_rows : ℕ → ℕ → Bool → Summary

-- rows[0][0] is read where there is one row and one column; a row without cells would raise.
unfoldable pub build_summary : List QueryColumn → List (List QueryCell) → Bool → Option Summary
build_summary columns [] truncated = some no_rows
build_summary (c ∷ []) ((QueryCell.null ∷ cells) ∷ []) truncated = some (null_value c)
build_summary (c ∷ []) ((v ∷ cells) ∷ []) truncated = some (one_value c v)
build_summary (c ∷ []) ([] ∷ []) truncated = none
build_summary columns rows truncated = some (many_rows (length rows) (length columns) truncated)
