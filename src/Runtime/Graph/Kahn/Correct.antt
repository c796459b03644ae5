-- ===== src/Runtime/Graph/Kahn/Correct.antt =====
-- What `computeTopologicalOrder` returns, and when it throws.
use fluidloom.Prelude.{
  ℕ, suc, ◌≡◌, sym, ◌⊎◌, inl, inr, List, arith, length, ◌==◌, Bool-cases, position, Result, ok, err,
  ◌↔◌,
}
use fluidloom.Runtime.Graph.Kahn.{GraphError, finish, compute_topological_order, cycles}
use fluidloom.Runtime.Graph.Kahn.Invariant.{IsGraph, CountsEdges}
use fluidloom.Runtime.Graph.Kahn.Order.{
  IsRanked, IsSchedule, search_ends, stuck_node, not_stuck, end_IsSchedule,
}

module _ (successors : List (List ℕ)) (n : ℕ) (in_degree : List ℕ) (graph : IsGraph successors n)
    (sums : CountsEdges successors n in_degree) where
  -- The two outcomes: a schedule, or a cycle and no ranking.
  abbrev Outcome : Result GraphError (List ℕ) → Type 0
  Outcome r =
      ((order : List ℕ) × (r ≡ ok order) × IsSchedule successors n order)
      ⊎ ((r ≡ err cycles) × ((rank : ℕ → ℕ) → ¬ IsRanked successors rank))

  pub compute-Outcome : Outcome (compute_topological_order n successors in_degree)
  unfolding compute_topological_order finish
  compute-Outcome =
      let (t, ends, inv, empty) = search_ends successors n graph in_degree sums in
      elim (Bool-cases (length t.topological_order == n)) [
        | inl full ↦ inl (
          t.topological_order,
          simp (ends, full, finish),
          end_IsSchedule successors n graph t inv empty (ground (arith, full)),
        )
        | inr short ↦ inr (
          simp (ends, short, finish),
          λ rank ranked.
              let (v, lt, stuck) =
                stuck_node successors n graph t inv empty (λ e. ground (arith, short, e)) in
              not_stuck successors n graph rank t ranked inv empty (suc (rank v)) v (omega arith)
                stuck,
        )
      ]

  -- On successor lists that stay inside the graph, with the in-degrees that count their edges, an
  -- order that is returned holds every node once and puts each behind its predecessors.
  pub compute-IsSchedule :
      (order : List ℕ)
      → compute_topological_order n successors in_degree ≡ ok order
      → IsSchedule successors n order
  compute-IsSchedule order e = elim compute-Outcome [
    | inl (found, same, schedule) ↦ let eq : found ≡ order = cc in rw (sym eq) schedule
    | inr (thrown, _) ↦ absurd (cc)
  ]

  -- On successor lists that stay inside the graph, with the in-degrees that count their edges, the
  -- exception for cycles is thrown exactly where no ranking of the nodes goes up along every edge.
  pub compute_throws_iff :
      (compute_topological_order n successors in_degree ≡ err cycles)
      ↔ ¬ ((rank : ℕ → ℕ) × IsRanked successors rank)
  compute_throws_iff = (
    λ e (rank, ranked). elim compute-Outcome [
      | inl (found, same, _) ↦ cc
      | inr (_, none_ranks) ↦ none_ranks rank ranked
    ],
    λ unranked. elim compute-Outcome [
      | inl (found, _, schedule) ↦ absurd (unranked ((λ v. position v found), schedule.behind))
      | inr (thrown, _) ↦ thrown
    ],
  )

  -- For a ranked graph the order is returned.
  pub compute_returns :
      (rank : ℕ → ℕ)
      → IsRanked successors rank
      → (order : List ℕ) × (compute_topological_order n successors in_degree ≡ ok order)
        × IsSchedule successors n order
  compute_returns rank ranked = elim compute-Outcome [
    | inl (found, same, schedule) ↦ (found, same, schedule)
    | inr (_, none_ranks) ↦ absurd (none_ranks rank ranked)
  ]
