-- ===== src/Semantic/Registry/Lookup.antt =====
-- What a registration makes visible, and which metric a synonym stands for.
use atlas_sql.Common.{
  String, List, [], ◌∷◌, ◌≡◌, ◌∙◌, arith, some, ◌==◌, string_eq, if◌then◌else◌, lookup, insert,
  lookup-insert, eq_iff, inl, inr, Option-cases,
}
use atlas_sql.Semantic.Registry.{
  MetricEntry, SemanticRegistry, get, register_synonym, register_synonyms, register,
}

-- After a registration, the metric is found under its id, and every other id as before.
pub get-register :
    (r : SemanticRegistry) (e : MetricEntry) (id : String)
    → get (register r e) id ≡ (if e.metric_id == id then some e else get r id)
unfolding get register
get-register r e id = lookup-insert e.metric_id id e r.metric_map

-- A text that stands for a metric stands for the same metric after the synonyms of another, or of
-- the same, are registered.
lookup-register_synonym :
    (id syn t other : String) (m : List (String × String))
    → lookup t m ≡ some other
    → lookup t (register_synonym id syn m) ≡ some other
unfolding register_synonym
lookup-register_synonym id syn t other m h = elim (Option-cases (lookup syn m)) [
  | inl e ↦ ground (arith, lookup-insert syn t id m, eq_iff syn t)
  | inr (owner, e) ↦ ground (arith, lookup-insert syn t id m, eq_iff syn t, eq_iff owner id)
]

lookup-register_synonyms :
    (id t other : String) (syns : List String) (m : List (String × String))
    → lookup t m ≡ some other
    → lookup t (register_synonyms id syns m) ≡ some other
unfolding register_synonyms
lookup-register_synonyms id t other [] m h = h
lookup-register_synonyms id t other (syn ∷ rest) m h =
    lookup-register_synonyms id t other rest _ (lookup-register_synonym id syn t other m h)

-- A registration leaves a text that stands for another metric alone, unless it is the label of the
-- new metric: the label always goes to the new metric, and a synonym never changes hands.
pub lookup-register :
    (r : SemanticRegistry) (e : MetricEntry) (t other : String)
    → lookup t r.synonym_map ≡ some other
    → lookup t (register r e).synonym_map ≡ some (if e.label == t then e.metric_id else other)
unfolding register
lookup-register r e t other h =
    lookup-register_synonyms e.metric_id t (if e.label == t then e.metric_id else other) e.synonyms
      (insert e.label e.metric_id r.synonym_map)
      (lookup-insert e.label t e.metric_id r.synonym_map ∙ ground arith)
