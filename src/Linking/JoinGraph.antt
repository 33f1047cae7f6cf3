-- ===== src/Linking/JoinGraph.antt =====
-- server/linking/join_graph.py: the graph of the table relationships and the search for join paths.
-- A set is the list of its elements.
pub mod Termination
pub mod Soundness
pub mod Growth
pub mod Levels
pub mod Settling
pub mod Shortest
use atlas_sql.Common.{
  ℕ, zero, suc, ◌+◌, ◌*◌, String, Bool, true, false, not, ◌&&◌, ◌||◌, Option, none, some, List, [],
  ◌∷◌, ◌++◌, ◌==◌, string_eq, if◌then◌else◌, length, is_empty, contains, filter, any, dedup, sort,
  text_leb, lookup, insert, leb, ltb,
}
use text.Mathlib.Text.{starts_with}
use atlas_sql.Linking.Relations.{
  TableRelationship, GraphEdge, JoinPath, RelationshipCardinality, is_many_to_many, build_path,
}

-- _adj and _nodes
pub record JoinGraph : Type 0 where
  pub adj : List (String × List GraphEdge)
  pub nodes : List String

abbrev pub empty_graph : JoinGraph
empty_graph = record { adj = []; nodes = [] }

-- self._adj.get(table, [])
unfoldable pub edges_from : JoinGraph → String → List GraphEdge
edges_from g table = elim (lookup table g.adj) [ none ↦ [] | some es ↦ es ]

abbrev add_node : String → List String → List String
add_node t ts = if contains ts t then ts else ts ++ t ∷ []

-- _adj.setdefault(from_table, []).append(edge), and the two nodes.
unfoldable pub add_edge : JoinGraph → GraphEdge → JoinGraph
unfolding edges_from
add_edge g e = record {
  adj = insert e.from_table (edges_from g e.from_table ++ e ∷ []) g.adj;
  nodes = add_node e.to_table (add_node e.from_table g.nodes);
}

abbrev edge_of : TableRelationship → GraphEdge
edge_of r = record {
  from_table = r.from_table;
  to_table = r.to_table;
  from_column = r.from_column;
  to_column = r.to_column;
  cardinality = r.cardinality;
  purpose = r.purpose;
  relationship_id = r.id;
}

load_into : JoinGraph → List TableRelationship → JoinGraph
unfolding add_edge
load_into g [] = g
load_into g (r ∷ rs) = load_into (if r.is_active then add_edge g (edge_of r) else g) rs

unfoldable pub load_from_records : List TableRelationship → JoinGraph
unfolding load_into
load_from_records rs = load_into empty_graph rs

abbrev pub has_table : JoinGraph → String → Bool
has_table g t = contains g.nodes t

unfoldable pub edge_count : List (String × List GraphEdge) → ℕ
edge_count [] = 0
edge_count ((t, es) ∷ rest) = length es + edge_count rest

-- (current, path, edges)
pub record Item : Type 0 where
  pub current : String
  pub path : List String
  pub edges : List GraphEdge

-- The locals of find_paths; the queue's head is popped.
pub record Search : Type 0 where
  pub queue : List Item
  pub visited_at_depth : List (String × ℕ)
  pub found_paths : List JoinPath
  pub shortest_len : Option ℕ

-- neighbor in visited_at_depth and visited_at_depth[neighbor] < depth
abbrev pub was_seen : List (String × ℕ) → String → ℕ → Bool
was_seen visited neighbor depth = elim (lookup neighbor visited) [
  | none ↦ false
  | some d ↦ ltb d depth
]

abbrev pub extended : Item → GraphEdge → Item
extended item e = record {
  current = e.to_table;
  path = item.path ++ e.to_table ∷ [];
  edges = item.edges ++ e ∷ [];
}

-- One neighbor of the loop over the edges.
unfoldable pub visit : Item → GraphEdge → Search → Search
visit item e s =
    let depth = length item.path in
    if was_seen s.visited_at_depth e.to_table depth then s else record s {
      queue = s.queue ++ extended item e ∷ [];
      visited_at_depth = insert e.to_table depth s.visited_at_depth;
    }

unfoldable pub expand : Item → List GraphEdge → Search → Search
unfolding visit
expand item [] s = s
expand item (e ∷ es) s = expand item es (visit item e s)

-- shortest_len is not None and len(path) >= shortest_len
abbrev pub is_too_long : Option ℕ → List String → Bool
is_too_long none path = false
is_too_long (some n) path = leb n (length path)

abbrev pub or_length : Option ℕ → List String → Option ℕ
or_length none path = some (length path)
or_length (some n) path = some n

module _ (g : JoinGraph) (target : String) (max_depth : ℕ) where
  -- What the loop does with an item that it popped; `s` has the rest of the queue.
  unfoldable pub process : Item → Search → Search
  unfolding build_path expand edges_from
  process item s =
      if ltb (max_depth + 1) (length item.path)
      then s
      else if item.current == target
      then record s {
        found_paths = s.found_paths ++ build_path item.path item.edges ∷ [];
        shortest_len = or_length s.shortest_len item.path;
      }
      else if is_too_long s.shortest_len item.path
      then s
      else expand item (edges_from g item.current) s

  -- while queue: the loop on fuel.
  unfoldable pub search_loop : ℕ → Search → Search
  unfolding process
  search_loop zero s = s
  search_loop (suc n) s = elim s.queue [
    | [] ↦ s
    | item ∷ rest ↦ search_loop n (process item (record s { queue = rest }))
  ]

-- The turns that an item with `n` more turns to live can cause, if a table has at most `d` edges.
unfoldable pub turns : ℕ → ℕ → ℕ
turns d zero = 1
turns d (suc n) = 1 + d * turns d n

abbrev pub start : String → Search
start source = record {
  queue = record { current = source; path = source ∷ []; edges = [] } ∷ [];
  visited_at_depth = (source, 0) ∷ [];
  found_paths = [];
  shortest_len = none;
}

abbrev pub shorter : JoinPath → JoinPath → Bool
shorter p q = leb (length p.tables) (length q.tables)

unfoldable pub search : JoinGraph → String → String → ℕ → Search
unfolding search_loop turns edge_count
search g source target max_depth =
    search_loop g target max_depth (turns (edge_count g.adj) (max_depth + 1)) (start source)

unfoldable pub find_paths : JoinGraph → String → String → ℕ → List JoinPath
unfolding search
find_paths g source target max_depth =
    if source == target
    then record {
      tables = source ∷ [];
      edges = [];
      has_fan_out_risk = false;
      requires_pre_aggregation = false;
      missing_tables = [];
      warning = none;
    }
      ∷ []
    else if not (has_table g source && has_table g target)
    then []
    else sort shorter (search g source target max_depth).found_paths
