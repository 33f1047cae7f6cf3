-- ===== src/Query/Context/Assembled.antt =====
-- What a context holds: no forbidden metric, every key, and no more than the budget where that can be
-- kept.
use atlas_sql.Common.{ℕ, ◌≤◌, Bool, true, List, [], ◌++◌, filter, length, any, All, ◌≡◌, ◌⊎◌}
use atlas_sql.Query.Context.{
  Fixed, Pattern, VerifiedExample, ContextSettings, Payload, ContextRequest, Trimmed,
  estimate_tokens, SemanticContext, fixed_part, is_safe_metric, safe_columns, is_protected,
}
use atlas_sql.Query.Context.Trimming.{IsPrefix, AreKept}

-- What the trimming leaves: the columns and the examples, and whether they fit.
record IsTrimmed (f : Fixed) (examples : List VerifiedExample) (columns : List Payload) (budget : ℕ)
    (t : Trimmed) : Type 0 where
  kept : AreKept columns t.columns
  first : IsPrefix t.examples examples
  within :
      (estimate_tokens f t.columns t.examples ≤ budget)
      ⊎ ((t.examples ≡ []) × All (λ c. is_protected c ≡ true) t.columns)

module _ {W : Type 0} (patterns : List Pattern) where
  -- A context that was assembled for a request.
  pub record IsAssembled (s : ContextSettings) (r : ContextRequest W) (c : SemanticContext)
      : Type 0 where
    pub permitted : All (λ m. is_safe_metric s.allowed_domains m ≡ true) c.metric_entries
    pub keys_kept :
        filter is_protected c.schema_columns ≡ filter is_protected (safe_columns patterns s r)
    pub taken :
        (q : Payload → Bool)
        → any q c.schema_columns ≡ true
        → any q (safe_columns patterns s r) ≡ true
    pub first : (rest : List VerifiedExample) × (r.verified_examples ≡ c.verified_examples ++ rest)
    pub few : length c.verified_examples ≤ s.max_examples
    pub estimated :
        c.estimated_tokens
        ≡ estimate_tokens (fixed_part patterns s r) c.schema_columns c.verified_examples
    pub within :
        (c.estimated_tokens ≤ s.budget)
        ⊎ ((c.verified_examples ≡ []) × All (λ p. is_protected p ≡ true) c.schema_columns)
