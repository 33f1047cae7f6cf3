-- ===== src/Query/Repository/Sql/Codes.antt =====
-- The texts of the error codes can be read back.
use atlas_sql.Common.{Option, none, some, ◌≡◌, refl, false, is_blank}
use atlas_sql.Query.Repository.Sql.{code_of, code_value, read_code, QueryErrorCode, stored_code}

code_of-code_value : (c : QueryErrorCode) → code_of (code_value c) ≡ some c
unfolding code_of code_value
code_of-code_value QueryErrorCode.out_of_scope = refl
code_of-code_value QueryErrorCode.ambiguous_metric = refl
code_of-code_value QueryErrorCode.llm_timeout = refl
code_of-code_value QueryErrorCode.llm_rate_limited = refl
code_of-code_value QueryErrorCode.llm_invalid_output = refl
code_of-code_value QueryErrorCode.llm_no_sql = refl
code_of-code_value QueryErrorCode.llm_provider_error = refl
code_of-code_value QueryErrorCode.sql_parse_error = refl
code_of-code_value QueryErrorCode.sql_security_violation = refl
code_of-code_value QueryErrorCode.sql_out_of_scope = refl
code_of-code_value QueryErrorCode.execution_timeout = refl
code_of-code_value QueryErrorCode.execution_busy = refl
code_of-code_value QueryErrorCode.execution_error = refl
code_of-code_value QueryErrorCode.internal_error = refl

code_not_blank : (c : QueryErrorCode) → is_blank (code_value c) ≡ false
unfolding code_value
code_not_blank QueryErrorCode.out_of_scope = refl
code_not_blank QueryErrorCode.ambiguous_metric = refl
code_not_blank QueryErrorCode.llm_timeout = refl
code_not_blank QueryErrorCode.llm_rate_limited = refl
code_not_blank QueryErrorCode.llm_invalid_output = refl
code_not_blank QueryErrorCode.llm_no_sql = refl
code_not_blank QueryErrorCode.llm_provider_error = refl
code_not_blank QueryErrorCode.sql_parse_error = refl
code_not_blank QueryErrorCode.sql_security_violation = refl
code_not_blank QueryErrorCode.sql_out_of_scope = refl
code_not_blank QueryErrorCode.execution_timeout = refl
code_not_blank QueryErrorCode.execution_busy = refl
code_not_blank QueryErrorCode.execution_error = refl
code_not_blank QueryErrorCode.internal_error = refl

pub read_code-stored_code : (o : Option QueryErrorCode) → read_code (stored_code o) ≡ some o
unfolding read_code
read_code-stored_code none = refl
read_code-stored_code (some c) = rw (code_not_blank c, code_of-code_value c) refl
