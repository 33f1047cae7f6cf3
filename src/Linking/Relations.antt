-- ===== src/Linking/Relations.antt =====
-- server/linking/join_graph.py: relationships, the edges made of them, and paths. The texts of the
-- warnings are data that hold what is put into them.
use atlas_sql.Common.{
  ℕ, String, Bool, true, false, not, ◌&&◌, ◌||◌, Option, none, some, List, [], any, is_empty,
  if◌then◌else◌,
}

pub data RelationshipCardinality : Type 0 where
  one_to_one one_to_many many_to_one many_to_many : RelationshipCardinality

pub data RelationshipPurpose : Type 0 where
  join lookup aggregate_join bridge : RelationshipPurpose

-- The columns of TableRelationship that the graph reads.
pub record TableRelationship : Type 0 where
  pub id : ℕ
  pub from_table : String
  pub to_table : String
  pub from_column : String
  pub to_column : String
  pub cardinality : RelationshipCardinality
  pub purpose : RelationshipPurpose
  pub is_active : Bool

pub record GraphEdge : Type 0 where
  pub from_table : String
  pub to_table : String
  pub from_column : String
  pub to_column : String
  pub cardinality : RelationshipCardinality
  pub purpose : RelationshipPurpose
  pub relationship_id : ℕ

abbrev pub is_many_to_many : GraphEdge → Bool
is_many_to_many e = elim e.cardinality [ RelationshipCardinality.many_to_many ↦ true | _ ↦ false ]

abbrev is_aggregate_join : RelationshipPurpose → Bool
is_aggregate_join RelationshipPurpose.aggregate_join = true
is_aggregate_join _ = false

abbrev pub requires_pre_aggregation : GraphEdge → Bool
requires_pre_aggregation e = is_many_to_many e || is_aggregate_join e.purpose

pub data PathWarning : Type 0 where
  fan_out pre_aggregation : List String → PathWarning

pub record JoinPath : Type 0 where
  pub tables : List String
  pub edges : List GraphEdge
  pub has_fan_out_risk : Bool
  pub requires_pre_aggregation : Bool
  pub missing_tables : List String
  pub warning : Option PathWarning

-- is_valid
abbrev pub path_is_valid : JoinPath → Bool
path_is_valid p = not (is_empty p.tables) && not p.requires_pre_aggregation

-- _build_path
unfoldable pub build_path : List String → List GraphEdge → JoinPath
build_path tables edges =
    let has_fan_out = any is_many_to_many edges in
    let requires_pre_agg = any requires_pre_aggregation edges in
    record {
      tables = tables;
      edges = edges;
      has_fan_out_risk = has_fan_out;
      requires_pre_aggregation = requires_pre_agg;
      missing_tables = [];
      warning =
          if has_fan_out
          then some (fan_out tables)
          else if requires_pre_agg
          then some (pre_aggregation tables)
          else none;
    }
