-- ===== src/Tests/Planning.antt =====
-- The planner and the scheduler on the three kernels, and the graph of two nodes that are each
-- other's successors.
use fluidloom.Prelude.{
  ℕ, ◌≡◌, refl, ◌↔◌, String, ◌-◌, position, true, false, List, [], ◌∷◌, map, some, pos,
  if◌then◌else◌, ◌==◌, ok, err, In,
}
use fluidloom.Runtime.Node.{
  kernel, execution_node, set_id, add_successor, add_predecessor, modify, Heap,
}
use fluidloom.Runtime.Hazards.{hazard, raw, analyze_nodes, enforce, enforce_hazards}
use fluidloom.Runtime.Hazards.Exact.{Conflict, analyze_nodes_exact}
use fluidloom.Runtime.Hazards.Enforce.{Enforced, enforce_hazards-Enforced}
use fluidloom.Runtime.Graph.{DependencyGraph, construct, validate}
use fluidloom.Runtime.Graph.Build.{
  build_adjacency_lists, add_nodes, add_successors, index_nodes, index_from, resolve, add_edge,
  empty_adjacency,
}
use fluidloom.Runtime.Graph.Build.Edges.{IsAdjacency}
use fluidloom.Runtime.Graph.Build.Links.{build-IsAdjacency, build-IsGraph, build-CountsEdges}
use fluidloom.Runtime.Graph.Cycles.{has_cycles, search_from, dfs_cycle, scan}
use fluidloom.Runtime.Graph.Cycles.Ranked.{has_cycles-ranked}
use fluidloom.Runtime.Graph.Kahn.{
  cycles, compute_topological_order, loop, process, release_all, release, start, ready_from, finish,
  dec_size,
}
use fluidloom.Runtime.Graph.Kahn.Order.{IsRanked, IsSchedule}
use fluidloom.Runtime.Graph.Kahn.Correct.{compute-IsSchedule, compute_throws_iff}
use fluidloom.Runtime.Graph.Valid.{IsSound, construct-IsSound, construct_throws_iff}
use fluidloom.Runtime.Plan.{Respects, schedule-Respects}
use fluidloom.Runtime.Scheduler.{Run, execute, drain, execute_in_order}
use fluidloom.Runtime.Scheduler.Waits.{AllWait}
use fluidloom.Runtime.Scheduler.Serial.{execute_serial}
use fluidloom.Tests.Pipeline.{sample, steps, sample-Prepared, device, device-Confined}

abbrev start_memory : String → ℕ
start_memory f = 5

execute_serial_example :
    (h' : Heap) × (g : DependencyGraph) × (r : Run device) × (enforce_hazards sample steps
        (analyze_nodes sample steps)
      ≡ some h')
    × (construct h' steps ≡ ok g)
    × (execute device h' g ≡ ok r)
    × (drain device r.queue start_memory ≡ execute_in_order device steps start_memory)
    × AllWait device h' [] r.queue
execute_serial_example =
    execute_serial device sample steps start_memory device-Confined sample-Prepared

schedule-Respects_example :
    (h' : Heap) × (g : DependencyGraph) × (enforce_hazards sample steps (analyze_nodes sample steps)
      ≡ some h')
    × (construct h' steps ≡ ok g)
    × Respects (map sample.node steps) g.topological_order
schedule-Respects_example = schedule-Respects sample steps sample-Prepared

analyze_nodes_exact_example :
    In (hazard 0 2 "rho" raw) (analyze_nodes sample steps)
    ↔ Conflict (map sample.node steps) (hazard 0 2 "rho" raw)
analyze_nodes_exact_example = analyze_nodes_exact sample steps 0 2 "rho" raw

-- Node 0 before node 1.
abbrev chain : Heap
chain = record {
  node = λ p.
      let n = set_id (pos p) (execution_node kernel "step") in
      if p == 0 then add_successor 1 n else n;
  alive = λ p. true;
}

abbrev pair : List ℕ
pair = 0 ∷ 1 ∷ []

abbrev chain_successors : List (List ℕ)
chain_successors = (build_adjacency_lists chain pair).successors

abbrev chain_graph : DependencyGraph
chain_graph = record {
  nodes = pair;
  node_id_to_index = index_nodes chain pair;
  adjacency = build_adjacency_lists chain pair;
  topological_order = 0 ∷ 1 ∷ [];
  is_valid = true;
}

chain_constructs : construct chain pair ≡ ok chain_graph
unfolding construct build_adjacency_lists add_nodes add_successors index_nodes index_from resolve
    add_edge empty_adjacency compute_topological_order loop process release_all release start
    ready_from finish validate has_cycles dec_size search_from dfs_cycle scan
chain_constructs = refl

construct-IsSound_example : IsSound chain pair chain_graph
construct-IsSound_example = construct-IsSound chain pair chain_graph chain_constructs

chain_sorts :
    compute_topological_order 2
      (build_adjacency_lists chain pair).successors
      (build_adjacency_lists chain pair).in_degree
    ≡ ok (0 ∷ 1 ∷ [])
unfolding build_adjacency_lists add_nodes add_successors index_nodes index_from resolve add_edge
    empty_adjacency compute_topological_order loop process release_all release start ready_from
    finish dec_size
chain_sorts = refl

compute-IsSchedule_example : IsSchedule chain_successors 2 (0 ∷ 1 ∷ [])
compute-IsSchedule_example =
    compute-IsSchedule (build_adjacency_lists chain pair).successors 2
      (build_adjacency_lists chain pair).in_degree (build-IsGraph chain pair)
      (build-CountsEdges chain pair) (0 ∷ 1 ∷ []) chain_sorts

chain-IsRanked : IsRanked chain_successors (λ v. position v (0 ∷ 1 ∷ []))
chain-IsRanked = (construct-IsSound chain pair chain_graph chain_constructs).schedule.behind

has_cycles-ranked_example : has_cycles 2 chain_successors ≡ some false
has_cycles-ranked_example =
    has_cycles-ranked chain_successors 2 (λ v. position v (0 ∷ 1 ∷ [])) (build-IsGraph chain pair)
      chain-IsRanked

-- Nodes 0 and 1 are each other's successors.
abbrev knot : Heap
knot = record {
  node = λ p. add_successor (1 - p) (set_id (pos p) (execution_node kernel "step"));
  alive = λ p. true;
}

compute_throws_iff_example :
    (compute_topological_order 2
        (build_adjacency_lists knot pair).successors
        (build_adjacency_lists knot pair).in_degree
      ≡ err cycles)
    ↔ ¬ ((rank : ℕ → ℕ) × IsRanked (build_adjacency_lists knot pair).successors rank)
compute_throws_iff_example =
    compute_throws_iff (build_adjacency_lists knot pair).successors 2
      (build_adjacency_lists knot pair).in_degree (build-IsGraph knot pair)
      (build-CountsEdges knot pair)

construct_throws_iff_example :
    (construct knot pair ≡ err cycles)
    ↔ ¬ ((rank : ℕ → ℕ) × IsRanked (build_adjacency_lists knot pair).successors rank)
construct_throws_iff_example = construct_throws_iff knot pair

knot_throws : construct knot pair ≡ err cycles
unfolding construct build_adjacency_lists add_nodes add_successors index_nodes index_from resolve
    add_edge empty_adjacency compute_topological_order loop process release_all release start
    ready_from finish dec_size
knot_throws = refl

build-IsAdjacency_example : IsAdjacency 2 (build_adjacency_lists knot pair)
build-IsAdjacency_example = build-IsAdjacency knot pair

abbrev joined : Heap
joined = modify 1 (add_predecessor 0) (modify 0 (add_successor 1) sample)

one_enforced : enforce_hazards sample steps (hazard 0 1 "rho" raw ∷ []) ≡ some joined
unfolding enforce_hazards enforce
one_enforced = refl

enforce_hazards-Enforced_example : Enforced steps (hazard 0 1 "rho" raw ∷ []) sample joined
enforce_hazards-Enforced_example =
    enforce_hazards-Enforced steps (hazard 0 1 "rho" raw ∷ []) sample joined one_enforced
