-- ===== src/Linking/Tests.antt =====
-- A graph of four tables, and the theorems on the search at it.
use atlas_sql.Common.{
  ℕ, ◌≤◌, String, true, false, List, [], ◌∷◌, ◌≡◌, refl, map, All, is_empty, length, inl, arith,
  lookup, insert, sort,
}
use atlas_sql.Linking.Relations.{
  TableRelationship, GraphEdge, JoinPath, RelationshipCardinality, RelationshipPurpose,
}
use atlas_sql.Linking.JoinGraph.{JoinGraph, load_from_records, find_paths, search, edges_from}
use atlas_sql.Linking.JoinGraph.Termination.{search-ends}
use atlas_sql.Linking.JoinGraph.Soundness.{Walk, IsJoinPath, find_paths_sound}
use atlas_sql.Linking.JoinGraph.Shortest.{find_paths_complete, find_paths-shortest}
use atlas_sql.Linking.Completion.{complete_schema}
use atlas_sql.Linking.Completion.Covering.{IsCompleted, complete_schema-IsCompleted}

abbrev relationship : ℕ → String → String → TableRelationship
relationship n a b = record {
  id = n;
  from_table = a;
  to_table = b;
  from_column = "id";
  to_column = "id";
  cardinality = RelationshipCardinality.many_to_one;
  purpose = RelationshipPurpose.join;
  is_active = true;
}

abbrev relationships : List TableRelationship
relationships =
    relationship 1 "fact_order" "dim_store"
    ∷ relationship 2 "dim_store" "dim_city"
    ∷ relationship 3 "dim_city" "dim_region"
    ∷ relationship 4 "fact_order" "dim_channel"
    ∷ relationship 5 "dim_channel" "dim_city"
    ∷ []

abbrev graph : JoinGraph
graph = load_from_records relationships

abbrev edge : ℕ → String → String → GraphEdge
edge n a b = record {
  from_table = a;
  to_table = b;
  from_column = "id";
  to_column = "id";
  cardinality = RelationshipCardinality.many_to_one;
  purpose = RelationshipPurpose.join;
  relationship_id = n;
}

abbrev way : List GraphEdge
way = edge 1 "fact_order" "dim_store" ∷ edge 2 "dim_store" "dim_city" ∷ []

two_ways_test :
    map (λ (p : JoinPath). p.tables) (find_paths graph "fact_order" "dim_city" 5)
    ≡ ("fact_order" ∷ "dim_store" ∷ "dim_city" ∷ [])
      ∷ ("fact_order" ∷ "dim_channel" ∷ "dim_city" ∷ [])
      ∷ []
unfolding find_paths load_from_records sort insert lookup
two_ways_test = refl

completed_test :
    (complete_schema graph ("fact_order" ∷ "dim_region" ∷ [])).complete_tables
    ≡ "fact_order" ∷ "dim_region" ∷ "dim_city" ∷ "dim_store" ∷ []
unfolding complete_schema load_from_records sort find_paths insert lookup
completed_test = refl

way-Walk : Walk graph "fact_order" way "dim_city"
unfolding load_from_records edges_from lookup insert
way-Walk = (inl refl, (inl refl, refl))

search-ends_example : (search graph "fact_order" "dim_city" 5).queue ≡ []
search-ends_example = search-ends graph "fact_order" "dim_city" 5

find_paths_sound_example :
    All (IsJoinPath graph "fact_order" "dim_city" 5) (find_paths graph "fact_order" "dim_city" 5)
find_paths_sound_example = find_paths_sound graph "fact_order" "dim_city" 5

find_paths_complete_example : is_empty (find_paths graph "fact_order" "dim_city" 5) ≡ false
unfolding load_from_records
find_paths_complete_example =
    find_paths_complete graph "fact_order" "dim_city" 5 way refl refl way-Walk (omega arith)

find_paths-shortest_example :
    All (λ (p : JoinPath). length p.edges ≤ 2) (find_paths graph "fact_order" "dim_city" 5)
find_paths-shortest_example = find_paths-shortest graph "fact_order" "dim_city" 5 way way-Walk

complete_schema-IsCompleted_example :
    IsCompleted graph
      ("fact_order" ∷ "dim_region" ∷ [])
      (complete_schema graph ("fact_order" ∷ "dim_region" ∷ []))
complete_schema-IsCompleted_example =
    complete_schema-IsCompleted graph ("fact_order" ∷ "dim_region" ∷ [])
