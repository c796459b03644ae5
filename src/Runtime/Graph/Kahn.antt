-- ===== src/Runtime/Graph/Kahn.antt =====
-- `DependencyGraph::computeTopologicalOrder` (src/runtime/dependency/DependencyGraphBuilder.cpp):
-- Kahn's algorithm over the successor lists. The `while` loop runs on fuel.
pub mod Release
pub mod Invariant
pub mod Order
pub mod Correct
use fluidloom.Prelude.{
  ℕ, zero, suc, ◌+◌, ◌-◌, ◌^◌, List, [], ◌∷◌, ◌++◌, Option, none, some, length, get_or, set, ◌==◌,
  if◌then◌else◌, Result, ok, err,
}

pub data GraphError : Type 0 where
  cycles out_of_range not_validated out_of_fuel : GraphError

-- `--` on a `size_t`.
unfoldable pub dec_size : ℕ → ℕ
dec_size zero = 2 ^ 64 - 1
dec_size (suc n) = n

pub record Search : Type 0 where
  pub temp_in_degree : List ℕ
  pub ready_queue : List ℕ
  pub topological_order : List ℕ

abbrev pub degree : Search → ℕ → ℕ
degree s v = get_or s.temp_in_degree v 0

-- The body of the inner loop over the successors of the node at the head of the queue.
unfoldable pub release : Search → ℕ → Search
release s succ_idx =
    let lowered = set s.temp_in_degree succ_idx (dec_size (degree s succ_idx)) in
    record s {
      temp_in_degree = lowered;
      ready_queue =
          if get_or lowered succ_idx 0 == 0 then s.ready_queue ++ succ_idx ∷ [] else s.ready_queue;
    }

unfoldable pub release_all : Search → List ℕ → Search
release_all s [] = s
release_all s (succ_idx ∷ rest) = release_all (release s succ_idx) rest

-- One round of the `while` loop, after `node_idx` left the head of the queue.
unfoldable pub process : List (List ℕ) → Search → ℕ → List ℕ → Search
process successors s node_idx rest =
    release_all
      (record s { ready_queue = rest; topological_order = s.topological_order ++ node_idx ∷ [] })
      (get_or successors node_idx [])

unfoldable pub loop : List (List ℕ) → ℕ → Search → Option Search
loop successors zero s = elim s.ready_queue [ [] ↦ some s | _ ∷ _ ↦ none ]
loop successors (suc fuel) s = elim s.ready_queue [
  | [] ↦ some s
  | node_idx ∷ rest ↦ loop successors fuel (process successors s node_idx rest)
]

-- The indices, from `i` on, of the nodes whose in-degree is 0.
unfoldable pub ready_from : ℕ → List ℕ → List ℕ
ready_from i [] = []
ready_from i (d ∷ ds) = let later = ready_from (suc i) ds in if d == 0 then i ∷ later else later

unfoldable pub start : List ℕ → Search
start in_degree = record {
  temp_in_degree = in_degree;
  ready_queue = ready_from 0 in_degree;
  topological_order = [];
}

-- The exception for a cycle is raised where the order misses a node. `node_count` rounds suffice.
unfoldable pub finish : ℕ → Option Search → Result GraphError (List ℕ)
finish node_count none = err out_of_fuel
finish node_count (some s) =
    if length s.topological_order == node_count then ok s.topological_order else err cycles

unfoldable pub compute_topological_order : ℕ → List (List ℕ) → List ℕ → Result GraphError (List ℕ)
compute_topological_order node_count successors in_degree =
    finish node_count (loop successors node_count (start in_degree))
