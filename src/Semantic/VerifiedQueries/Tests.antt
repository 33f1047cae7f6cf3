-- ===== src/Semantic/VerifiedQueries/Tests.antt =====
-- A verified query from its draft to its retrieval.
use atlas_sql.Common.{
  ℕ, String, Bool, true, false, Option, none, some, List, [], ◌∷◌, ◌≡◌, refl, All, is_empty, length,
}
use atlas_sql.Semantic.Models.{Db}
use atlas_sql.Semantic.VerifiedQueries.{
  ValidationResult, DraftQueryInput, SqlParser, VerifiedQueryEntry, Message, load_for_retrieval,
  validate_syntax, validate_version_compat, forbidden_statement, failure, odd_version_ref,
}
use atlas_sql.Semantic.VerifiedQueries.Review.{add_draft, mark_verified}
use atlas_sql.Semantic.VerifiedQueries.Signed.{
  Request, add, mark, invalidate, check_again, handle_all, IsReviewed,
  load_for_retrieval-IsReviewed,
}

abbrev parser : SqlParser
parser = record { parse = λ s. some (some "SELECT" ∷ []); upper = λ s. s }

abbrev dropping : SqlParser
dropping = record { parse = λ s. some (some "DROP" ∷ []); upper = λ s. s }

abbrev input : DraftQueryInput
input = record {
  question = "销售额";
  sql = "SELECT 1 LIMIT 1";
  domain = "sales";
  tags = [];
  dependent_metric_ids = "net_sales" ∷ [];
  semantic_version_ref = some "net_sales:v1, oops";
  schema_version = none;
  is_test_locked = false;
  description = none;
}

abbrev empty : Db
empty = record { metrics = []; versions = []; active = []; verified = []; deleted_keys = [] }

abbrev requests : List (Request × ℕ)
requests =
    (add input true none "q1", 1)
    ∷ (mark "q1" "ann", 2)
    ∷ (add input true none "q2", 3)
    ∷ (mark "q2" "ann", 4)
    ∷ (invalidate "refunds" "changed", 5)
    ∷ (check_again "q2" none, 6)
    ∷ []

drop_test : validate_syntax dropping "drop table t" ≡ failure (forbidden_statement "DROP")
unfolding validate_syntax atlas_sql.Common.strip
drop_test = refl

odd_version_test :
    (validate_version_compat [] (some "net_sales:v1, oops") []).warnings
    ≡ odd_version_ref "oops" ∷ []
unfolding validate_version_compat atlas_sql.Common.split_commas atlas_sql.Common.strip
    atlas_sql.Common.contains_text
odd_version_test = refl

retrieved_test : length (load_for_retrieval [] true none 500 (handle_all parser requests empty)) ≡ 1
unfolding load_for_retrieval handle_all atlas_sql.Semantic.VerifiedQueries.Review.re_validate
    atlas_sql.Common.find atlas_sql.Semantic.VerifiedQueries.Review.invalidate_by_metric
    atlas_sql.Common.update_where mark_verified add_draft atlas_sql.Common.strip
retrieved_test = refl

load_for_retrieval-IsReviewed_example :
    All
      (IsReviewed parser (handle_all parser requests empty).verified ("sales" ∷ []) true)
      (load_for_retrieval ("sales" ∷ []) true none 500 (handle_all parser requests empty))
load_for_retrieval-IsReviewed_example =
    load_for_retrieval-IsReviewed parser requests empty ("sales" ∷ []) true none 500 tt
