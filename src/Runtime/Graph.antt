-- ===== src/Runtime/Graph.antt =====
-- `DependencyGraph` (include/fluidloom/runtime/dependency/DependencyGraph.h,
-- src/runtime/dependency/DependencyGraphBuilder.cpp): the constructor, which indexes the nodes,
-- builds the adjacency lists, sorts and validates, and the accessors.
pub mod Kahn
pub mod Build
pub mod Cycles
pub mod Valid
use Kahn.{GraphError, cycles, out_of_range, not_validated, out_of_fuel, compute_topological_order}
use Build.{IndexMap, Adjacency, index_nodes, build_adjacency_lists}
use Cycles.{has_cycles}
use fluidloom.Prelude.{
  ℕ, List, [], Bool, true, false, not, Option, none, some, length, get_elem?, get_or, ℤ, Result, ok,
  err, ◌>>=◌, ◌==◌, ltb, if◌then◌else◌,
}
use fluidloom.Runtime.Node.{Heap}

pub record DependencyGraph : Type 0 where
  pub nodes : List ℕ
  pub node_id_to_index : IndexMap
  pub adjacency : Adjacency
  pub topological_order : List ℕ
  pub is_valid : Bool

abbrev lift_fuel : Option Bool → Result GraphError Bool
lift_fuel none = err out_of_fuel
lift_fuel (some b) = ok b

-- `validate`: the order's length, then the search for a cycle.
unfoldable pub validate : ℕ → List (List ℕ) → List ℕ → Result GraphError Bool
validate n successors order =
    let cyclic = has_cycles n successors in
    if length order == n then (lift_fuel cyclic >>= λ found. ok (not found)) else ok false

unfoldable pub construct : Heap → List ℕ → Result GraphError DependencyGraph
construct h nodes = do
  let adj = build_adjacency_lists h nodes
  order ← compute_topological_order (length nodes) adj.successors adj.in_degree
  valid ← validate (length nodes) adj.successors order
  ok (record {
    nodes = nodes;
    node_id_to_index = index_nodes h nodes;
    adjacency = adj;
    topological_order = order;
    is_valid = valid;
  })

unfoldable pub get_topological_order : DependencyGraph → Result GraphError (List ℕ)
get_topological_order g = if g.is_valid then ok g.topological_order else err not_validated

unfoldable pub get_node : DependencyGraph → ℕ → Result GraphError ℕ
get_node g index = elim (get_elem? g.nodes index) [ none ↦ err out_of_range | some p ↦ ok p ]

-- `nullptr` is `none`.
unfoldable pub get_node_by_id : DependencyGraph → ℤ → Option ℕ
get_node_by_id g id = elim (g.node_id_to_index id) [
  | none ↦ none
  | some index ↦ get_elem? g.nodes index
]
