-- ===== src/Runtime/Graph/Valid.antt =====
-- The constructor of `DependencyGraph` either throws for a cycle or returns a valid graph.
use fluidloom.Prelude.{
  ℕ, ◌≡◌, refl, sym, subst, ◌⊎◌, inl, inr, true, List, arith, length, count, ==_iff, position, ok,
  err, ◌↔◌, length-eq-sum_below, sum_below-eq,
}
use fluidloom.Runtime.Node.{Heap}
use fluidloom.Runtime.Graph.{DependencyGraph, validate, construct, get_topological_order}
use fluidloom.Runtime.Graph.Build.{Adjacency, index_nodes, build_adjacency_lists}
use fluidloom.Runtime.Graph.Build.Edges.{IsAdjacency}
use fluidloom.Runtime.Graph.Build.Links.{build-IsAdjacency, build-IsGraph, build-CountsEdges}
use fluidloom.Runtime.Graph.Cycles.Ranked.{has_cycles-ranked}
use fluidloom.Runtime.Graph.Kahn.{cycles}
use fluidloom.Runtime.Graph.Kahn.Order.{sum_below_const, IsRanked, IsSchedule}
use fluidloom.Runtime.Graph.Kahn.Correct.{compute-Outcome}

-- What a client of a graph may rely on.
pub record IsSound (h : Heap) (nodes : List ℕ) (g : DependencyGraph) : Type 0 where
  pub nodes_kept : g.nodes ≡ nodes
  pub built : g.adjacency ≡ build_adjacency_lists h nodes
  pub indexed : g.node_id_to_index ≡ index_nodes h nodes
  pub adjacency : IsAdjacency (length nodes) g.adjacency
  pub schedule : IsSchedule g.adjacency.successors (length nodes) g.topological_order
  pub valid : g.is_valid ≡ true

module _ (h : Heap) (nodes : List ℕ) where
  abbrev n : ℕ
  n = length nodes

  abbrev adj : Adjacency
  adj = build_adjacency_lists h nodes

  schedule_length : (order : List ℕ) → IsSchedule adj.successors n order → length order ≡ n
  schedule_length order s = omega (
    arith,
    length-eq-sum_below n order (λ v le. ground (arith, s.once v)),
    sum_below-eq n (λ v. count v order) (λ v. 1) (λ v lt. ground (arith, s.once v)),
    sum_below_const n,
  )

  validate_lem :
      (order : List ℕ)
      → IsSchedule adj.successors n order
      → validate n adj.successors order ≡ ok true
  unfolding validate
  validate_lem order s =
      let quiet =
        has_cycles-ranked adj.successors n (λ v. position v order) (build-IsGraph h nodes)
          s.behind in
      simp (quiet, (==_iff _ _).1 (schedule_length order s))

  pub construct_outcome :
      ((g : DependencyGraph) × (construct h nodes ≡ ok g) × IsSound h nodes g)
      ⊎ ((construct h nodes ≡ err cycles) × ((rank : ℕ → ℕ) → ¬ IsRanked adj.successors rank))
  unfolding construct
  construct_outcome =
      elim (compute-Outcome adj.successors n adj.in_degree (build-IsGraph h nodes)
        (build-CountsEdges h nodes)) [
          | inl (order, e, schedule) ↦ inl (
            record {
              nodes = nodes;
              node_id_to_index = index_nodes h nodes;
              adjacency = adj;
              topological_order = order;
              is_valid = true;
            },
            simp (e, validate_lem order schedule),
            record {
              nodes_kept = refl;
              built = refl;
              indexed = refl;
              adjacency = build-IsAdjacency h nodes;
              schedule = schedule;
              valid = refl;
            },
          )
          | inr (e, unranked) ↦ inr (simp e, unranked)
        ]

  IsRanked-by :
      {g : DependencyGraph}
      → IsSound h nodes g
      → IsRanked adj.successors (λ v. position v g.topological_order)
  IsRanked-by {g} sound u v edge = sound.schedule.behind u v (rw (sym sound.built) at edge)

  -- A graph that the constructor returns has the given nodes, their index map, adjacency lists that
  -- mirror each other and count their edges, an order that holds every node once and puts each
  -- behind its predecessors, and is marked valid.
  pub construct-IsSound : (g : DependencyGraph) → construct h nodes ≡ ok g → IsSound h nodes g
  construct-IsSound g e = elim construct_outcome [
    | inl (found, same, sound) ↦ let eq : found ≡ g = cc in subst (IsSound h nodes) eq sound
    | inr (thrown, _) ↦ absurd (cc)
  ]

  -- The constructor throws for cycles exactly where no ranking of the nodes goes up along every
  -- successor edge that it found.
  pub construct_throws_iff :
      (construct h nodes ≡ err cycles) ↔ ¬ ((rank : ℕ → ℕ) × IsRanked adj.successors rank)
  construct_throws_iff = (
    λ e (rank, ranked). elim construct_outcome [
      | inl (found, same, _) ↦ cc
      | inr (_, unranked) ↦ unranked rank ranked
    ],
    λ none_ranks. elim construct_outcome [
      | inl (found, _, sound) ↦
          absurd (none_ranks ((λ v. position v found.topological_order), IsRanked-by sound))
      | inr (thrown, _) ↦ thrown
    ],
  )

-- `getTopologicalOrder` never throws on a graph that the constructor returned.
pub get_topological_order_returns :
    (h : Heap) (nodes : List ℕ) (g : DependencyGraph)
    → construct h nodes ≡ ok g
    → get_topological_order g ≡ ok g.topological_order
unfolding get_topological_order
get_topological_order_returns h nodes g e = simp ((construct-IsSound h nodes g e).valid)
