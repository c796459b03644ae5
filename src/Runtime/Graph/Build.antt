-- ===== src/Runtime/Graph/Build.antt =====
-- The constructor's index map and `DependencyGraph::buildAdjacencyLists`
-- (src/runtime/dependency/DependencyGraphBuilder.cpp).
pub mod Edges
pub mod Links
pub mod Index
use fluidloom.Prelude.{
  ℕ, zero, suc, ◌+◌, List, [], ◌∷◌, ◌++◌, Option, none, some, length, get_or, set, replicate, ℤ,
  eqb_ℤ, if◌then◌else◌,
}
use fluidloom.Runtime.Node.{Heap, ExecutionNode}

-- `node_id_to_index`: a later node with the same id replaces an earlier one.
abbrev pub IndexMap : Type 0
IndexMap = ℤ → Option ℕ

unfoldable pub index_from : Heap → ℕ → List ℕ → IndexMap → IndexMap
index_from h i [] map = map
index_from h i (p ∷ ps) map =
    index_from h (suc i) ps (λ id. if eqb_ℤ (h.node p).node_id id then some i else map id)

unfoldable pub index_nodes : Heap → List ℕ → IndexMap
index_nodes h nodes = index_from h 0 nodes (λ id. none)

pub record Adjacency : Type 0 where
  pub predecessors : List (List ℕ)
  pub successors : List (List ℕ)
  pub in_degree : List ℕ
  pub num_edges : ℕ

abbrev pub push_at : List (List ℕ) → ℕ → ℕ → List (List ℕ)
push_at lists i v = set lists i (get_or lists i [] ++ v ∷ [])

unfoldable pub add_edge : Adjacency → ℕ → ℕ → Adjacency
add_edge adj i succ_idx = record {
  successors = push_at adj.successors i succ_idx;
  predecessors = push_at adj.predecessors succ_idx i;
  in_degree = set adj.in_degree succ_idx (get_or adj.in_degree succ_idx 0 + 1);
  num_edges = adj.num_edges + 1;
}

-- `lock` and `find` for one weak pointer.
unfoldable pub resolve : Heap → IndexMap → ℕ → Option ℕ
resolve h map p = if h.alive p then map (h.node p).node_id else none

-- The test on the iterator, and the edge from node `i`.
abbrev pub link : ℕ → Adjacency → Option ℕ → Adjacency
link i adj none = adj
link i adj (some succ_idx) = add_edge adj i succ_idx

-- The inner loop over the successors of node `i`.
unfoldable pub add_successors : Heap → IndexMap → ℕ → List ℕ → Adjacency → Adjacency
add_successors h map i [] adj = adj
add_successors h map i (p ∷ ps) adj = add_successors h map i ps (link i adj (resolve h map p))

unfoldable pub add_nodes : Heap → IndexMap → ℕ → List ℕ → Adjacency → Adjacency
add_nodes h map i [] adj = adj
add_nodes h map i (p ∷ ps) adj =
    add_nodes h map (suc i) ps (add_successors h map i (h.node p).successors adj)

unfoldable pub empty_adjacency : ℕ → Adjacency
empty_adjacency n = record {
  predecessors = replicate n [];
  successors = replicate n [];
  in_degree = replicate n 0;
  num_edges = 0;
}

unfoldable pub build_adjacency_lists : Heap → List ℕ → Adjacency
build_adjacency_lists h nodes =
    add_nodes h (index_nodes h nodes) 0 nodes (empty_adjacency (length nodes))
