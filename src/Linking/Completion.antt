-- ===== src/Linking/Completion.antt =====
-- server/linking/join_graph.py: complete_schema and check_fan_out. A dict with a pair of tables as
-- its key is an association list; the texts for the user are data that hold what is put into them.
pub mod Accounted
pub mod Covering
use atlas_sql.Common.{
  ℕ, String, Bool, true, false, not, ◌&&◌, ◌||◌, Option, none, some, List, [], ◌∷◌, ◌++◌, ◌==◌,
  string_eq, if◌then◌else◌, length, head?, is_empty, filter, contains, dedup, sort, text_leb, leb,
  ltb,
}
use text.Mathlib.Text.{starts_with}
use atlas_sql.Linking.Relations.{GraphEdge, JoinPath, is_many_to_many}
use atlas_sql.Linking.JoinGraph.{JoinGraph, edges_from, find_paths}

pub data Clarification : Type 0 where
  no_join_path : List (String × String) → Clarification
  many_facts : List String → Clarification

pub record JoinGraphResult : Type 0 where
  pub complete_tables : List String
  pub paths : List ((String × String) × JoinPath)
  pub pre_aggregation_required : List (String × String)
  pub missing_paths : List (String × String)
  pub requires_clarification : Bool
  pub clarification_prompt : Option (List Clarification)

-- The default of max_depth.
abbrev pub default_depth : ℕ
default_depth = 5

abbrev same_pair : String × String → String × String → Bool
same_pair (a, b) (c, d) = a == c && b == d

-- paths[(src, tgt)] = path
unfoldable pub set_path :
    String × String
    → JoinPath
    → List ((String × String) × JoinPath)
    → List ((String × String) × JoinPath)
set_path k p [] = (k, p) ∷ []
set_path k p ((j, q) ∷ ps) = if same_pair j k then (k, p) ∷ ps else (j, q) ∷ set_path k p ps

-- The locals of complete_schema.
pub record Completion : Type 0 where
  pub paths : List ((String × String) × JoinPath)
  pub missing : List (String × String)
  pub pre_agg_required : List (String × String)
  pub bridge_tables : List String

-- The first path that is found, backwards where there is none forwards.
unfoldable pub best_path : JoinGraph → String → String → Option JoinPath
best_path g src tgt = elim (head? (find_paths g src tgt default_depth)) [
  | some p ↦ some p
  | none ↦ head? (find_paths g tgt src default_depth)
]

abbrev pub bridges : List String → JoinPath → List String
bridges selected p = filter (λ t. not (contains selected t)) p.tables

-- One pair of the loops.
unfoldable pub join_pair : JoinGraph → List String → String → String → Completion → Completion
unfolding best_path set_path
join_pair g selected src tgt c = elim (best_path g src tgt) [
  | none ↦ record c { missing = c.missing ++ (src, tgt) ∷ [] }
  | some p ↦ record c {
    paths = set_path (src, tgt) p c.paths;
    bridge_tables = c.bridge_tables ++ bridges selected p;
    pre_agg_required =
        if p.requires_pre_aggregation
        then c.pre_agg_required ++ (src, tgt) ∷ []
        else c.pre_agg_required;
  }
]

unfoldable pub join_row : JoinGraph → List String → String → List String → Completion → Completion
unfolding join_pair
join_row g selected src [] c = c
join_row g selected src (tgt ∷ rest) c =
    join_row g selected src rest (join_pair g selected src tgt c)

unfoldable pub join_all : JoinGraph → List String → List String → Completion → Completion
unfolding join_row
join_all g selected [] c = c
join_all g selected (src ∷ rest) c = join_all g selected rest (join_row g selected src rest c)

abbrev pub nothing_joined : Completion
nothing_joined = record { paths = []; missing = []; pre_agg_required = []; bridge_tables = [] }

-- [t for t in tables if t.startswith("fact_")]
unfoldable pub fact_tables : List String → List String
fact_tables tables = filter (λ t. starts_with t "fact_") tables

abbrev prompt : List (String × String) → List String → Option (List Clarification)
prompt missing facts =
    let about_facts = if ltb 1 (length facts) then many_facts facts ∷ [] else [] in
    let parts = if is_empty missing then about_facts else no_join_path missing ∷ about_facts in
    if not (is_empty missing) || ltb 1 (length facts) then some parts else none

unfoldable pub complete_with : List String → Completion → JoinGraphResult
unfolding fact_tables
complete_with selected c = record {
  complete_tables = selected ++ sort text_leb (dedup c.bridge_tables);
  paths = c.paths;
  pre_aggregation_required = c.pre_agg_required;
  missing_paths = c.missing;
  requires_clarification = not (is_empty c.missing) || ltb 1 (length (fact_tables selected));
  clarification_prompt = prompt c.missing (fact_tables selected);
}

unfoldable pub complete_schema : JoinGraph → List String → JoinGraphResult
unfolding join_all complete_with
complete_schema g selected =
    if leb (length selected) 1
    then record {
      complete_tables = selected;
      paths = [];
      pre_aggregation_required = [];
      missing_paths = [];
      requires_clarification = false;
      clarification_prompt = none;
    }
    else complete_with selected (join_all g selected selected nothing_joined)

pub data FanOutWarning : Type 0 where
  several_facts : List String → FanOutWarning
  product : String → String → FanOutWarning

-- The loop over the edges of one table.
unfoldable pub edge_warnings : List String → String → List GraphEdge → List FanOutWarning
edge_warnings tables table [] = []
edge_warnings tables table (e ∷ es) =
    let rest = edge_warnings tables table es in
    if contains tables e.to_table && is_many_to_many e
    then product table e.to_table ∷ rest
    else rest

unfoldable pub table_warnings : JoinGraph → List String → List String → List FanOutWarning
unfolding edge_warnings edges_from
table_warnings g tables [] = []
table_warnings g tables (t ∷ ts) =
    edge_warnings tables t (edges_from g t) ++ table_warnings g tables ts

unfoldable pub check_fan_out : JoinGraph → List String → List FanOutWarning
unfolding table_warnings fact_tables
check_fan_out g tables =
    let rest = table_warnings g tables tables in
    if ltb 1 (length (fact_tables tables)) then several_facts (fact_tables tables) ∷ rest else rest
