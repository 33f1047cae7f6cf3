-- ===== src/Semantic/VerifiedQueries.antt =====
-- server/semantic/verified_queries.py: the validator and the repository of verified queries. The
-- parser and the upper case of a text are arguments; the messages are data that hold what is put
-- into them. The detection of near duplicates compares floating-point numbers and is left out.
pub mod Review
pub mod Signed
mod Tests
use atlas_sql.Common.{
  ℕ, String, Bool, true, false, not, ◌&&◌, ◌||◌, Option, none, some, List, [], ◌∷◌, ◌++◌, map, ◌==◌,
  string_eq, if◌then◌else◌, filter, contains, take, length, is_empty, is_blank, strip, split_commas,
  contains_text, has_key, find, update_where,
}
use atlas_sql.Semantic.Models.{VerifiedQueryStatus, VerifiedQuery, Db, is_verified}

pub data Message : Type 0 where
  empty_sql parse_failed nothing_parsed invalid_statement : Message
  forbidden_statement unpublished_metric unknown_query odd_version_ref : String → Message
  avoid_star add_limit : Message

pub record ValidationResult : Type 0 where
  pub is_ok : Bool
  pub errors : List Message
  pub warnings : List Message

pub record DraftQueryInput : Type 0 where
  pub question : String
  pub sql : String
  pub domain : String
  pub tags : List String
  pub dependent_metric_ids : List String
  pub semantic_version_ref : Option String
  pub schema_version : Option String
  pub is_test_locked : Bool
  pub description : Option String

pub record VerifiedQueryEntry : Type 0 where
  pub query_id : String
  pub question : String
  pub sql : String
  pub domain : String
  pub tags : List String
  pub dependent_metric_ids : List String
  pub semantic_version_ref : Option String
  pub schema_version : Option String
  pub is_test_locked : Bool

abbrev pub failure : Message → ValidationResult
failure m = record { is_ok = false; errors = m ∷ []; warnings = [] }

-- _FORBIDDEN_STATEMENT_TYPES
abbrev pub forbidden_statement_types : List String
forbidden_statement_types =
    "INSERT" ∷ "UPDATE" ∷ "DELETE" ∷ "CREATE" ∷ "DROP" ∷ "ALTER" ∷ "TRUNCATE" ∷ "GRANT" ∷ "REVOKE"
    ∷ "CALL" ∷ "EXECUTE" ∷ []

-- _orm_to_entry
abbrev pub orm_to_entry : VerifiedQuery → VerifiedQueryEntry
orm_to_entry q = record {
  query_id = q.query_id;
  question = q.question;
  sql = q.sql;
  domain = q.domain;
  tags = q.tags;
  dependent_metric_ids = q.dependent_metric_ids;
  semantic_version_ref = q.semantic_version_ref;
  schema_version = q.schema_version;
  is_test_locked = q.is_test_locked;
}

-- `parse` gives the upper-case names of the kinds of the statements of a text (none for an empty
-- one), or none where it raises; `upper` is the upper case of a text.
pub record SqlParser : Type 0 where
  pub parse : String → Option (List (Option String))
  pub upper : String → String

style_warnings : String → List Message
style_warnings sql_upper =
    (if contains_text "SELECT *" sql_upper || contains_text "SELECT\t*" sql_upper
      then avoid_star ∷ []
      else [])
    ++ (if contains_text "LIMIT" sql_upper then [] else add_limit ∷ [])

validate_statement : Option String → String → ValidationResult
unfolding style_warnings
validate_statement none sql_upper = failure invalid_statement
validate_statement (some kind) sql_upper =
    if contains forbidden_statement_types kind
    then failure (forbidden_statement kind)
    else record { is_ok = true; errors = []; warnings = style_warnings sql_upper }

unfoldable pub validate_syntax : SqlParser → String → ValidationResult
unfolding validate_statement
validate_syntax p sql =
    if is_blank sql || is_blank (strip sql) then failure empty_sql else elim (p.parse sql) [
      | none ↦ failure parse_failed
      | some [] ↦ failure nothing_parsed
      | some (statement ∷ rest) ↦ validate_statement statement (p.upper sql)
    ]

unpublished : List (String × ℕ) → List String → List Message
unpublished active [] = []
unpublished active (id ∷ ids) =
    let rest = unpublished active ids in
    if has_key id active then rest else unpublished_metric id ∷ rest

odd_parts : List String → List Message
odd_parts [] = []
odd_parts (part ∷ parts) =
    let rest = odd_parts parts in
    let stripped = strip part in
    if not (is_blank stripped) && not (contains_text ":" stripped)
    then odd_version_ref stripped ∷ rest
    else rest

version_warnings : Option String → List Message
unfolding odd_parts
version_warnings none = []
version_warnings (some ref) = if is_blank ref then [] else odd_parts (split_commas ref)

unfoldable pub validate_version_compat :
    List String → Option String → List (String × ℕ) → ValidationResult
unfolding unpublished version_warnings
validate_version_compat metric_ids version_ref active =
    let errors = unpublished active metric_ids in
    record { is_ok = is_empty errors; errors = errors; warnings = version_warnings version_ref }

-- The version check where active versions are given, and nothing where they are not.
abbrev pub validate_compat :
    List String → Option String → Option (List (String × ℕ)) → ValidationResult
validate_compat metric_ids version_ref none = record { is_ok = true; errors = []; warnings = [] }
validate_compat metric_ids version_ref (some active) =
    validate_version_compat metric_ids version_ref active

abbrev pub is_query : String → VerifiedQuery → Bool
is_query id q = q.query_id == id

abbrev pub status_is : VerifiedQueryStatus → VerifiedQueryStatus → Bool
status_is VerifiedQueryStatus.draft VerifiedQueryStatus.draft = true
status_is VerifiedQueryStatus.verified VerifiedQueryStatus.verified = true
status_is VerifiedQueryStatus.invalid VerifiedQueryStatus.invalid = true
status_is _ _ = false

-- The filters of load_for_retrieval: none, and an empty list or text, stand for no filter.
abbrev in_domains : List String → VerifiedQuery → Bool
in_domains domains q = is_empty domains || contains domains q.domain

abbrev has_schema : Option String → VerifiedQuery → Bool
has_schema none q = true
has_schema (some v) q = is_blank v || elim q.schema_version [ none ↦ false | some w ↦ w == v ]

abbrev pub is_retrievable : List String → Bool → Option String → VerifiedQuery → Bool
is_retrievable domains exclude_test_locked schema_version q =
    is_verified q.status
    && not (exclude_test_locked && q.is_test_locked)
    && in_domains domains q
    && has_schema schema_version q

unfoldable pub load_for_retrieval :
    List String → Bool → Option String → ℕ → Db → List VerifiedQueryEntry
load_for_retrieval domains exclude_test_locked schema_version limit db =
    map orm_to_entry
      (take limit (filter (is_retrievable domains exclude_test_locked schema_version) db.verified))

unfoldable pub get_by_id : String → Db → Option VerifiedQueryEntry
get_by_id id db = elim (find (is_query id) db.verified) [
  | none ↦ none
  | some q ↦ some (orm_to_entry q)
]
