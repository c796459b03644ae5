-- ===== src/Runtime/Graph/Kahn/Order.antt =====
-- Kahn's algorithm ends, and what its result says of the graph.
use fluidloom.Prelude.{
  ℕ, zero, suc, ◌+◌, ◌≤◌, ◌<◌, ◌≡◌, ◌≢◌, refl, ap, ◌⊎◌, inl, inr, List, [], ◌∷◌, arith, length,
  count, some, ◌==◌, ltb, if◌then◌else◌, length-append, sum_below, sum_below-le, sum_below-eq,
  length-eq-sum_below, Bool-cases, List-cases, position, sum_below-add,
}
use fluidloom.Runtime.Graph.Kahn.{Search, degree, process, loop, start}
use fluidloom.Runtime.Graph.Kahn.Invariant.{
  edges, IsTopological, IsGraph, CountsEdges, released, Inv, process-Inv, process-order, start-Inv,
}

pub sum_below_const : (n : ℕ) → sum_below n (λ v. 1) ≡ n
sum_below_const zero = refl
sum_below_const (suc n) = omega (arith, sum_below_const n)

-- Where a sum of terms of at most 1 misses the bound, one of the terms is 0.
zero_of_sum_below :
    (n : ℕ) (f : ℕ → ℕ) → ((v : ℕ) → f v ≤ 1) → sum_below n f < n → (v : ℕ) × (v < n) × (f v ≡ 0)
zero_of_sum_below zero f le lt = absurd (omega arith)
zero_of_sum_below (suc n) f le lt = elim (Bool-cases (f n == 0)) [
  | inl e ↦ (n, omega arith, ground arith)
  | inr ne ↦
      let (v, below, e) = zero_of_sum_below n f le (ground (arith, le n)) in (v, omega arith, e)
]

pos_of_sum_below : (n : ℕ) (f : ℕ → ℕ) → 0 < sum_below n f → (v : ℕ) × (v < n) × (0 < f v)
pos_of_sum_below zero f h = absurd (omega arith)
pos_of_sum_below (suc n) f h = elim (Bool-cases (ltb 0 (f n))) [
  | inl up ↦ (n, omega arith, ground arith)
  | inr down ↦ let (v, lt, up) = pos_of_sum_below n f (ground arith) in (v, omega arith, up)
]

full_of_sum_below :
    (n : ℕ) (f : ℕ → ℕ) → ((v : ℕ) → f v ≤ 1) → n ≤ sum_below n f → (v : ℕ) → v < n → f v ≡ 1
full_of_sum_below zero f le full v lt = absurd (omega arith)
full_of_sum_below (suc n) f le full v lt =
    let bound = sum_below-le n f (λ i. 1) (λ i below. le i) in
    elim (Bool-cases (v == n)) [
      | inl last ↦
          let e : v ≡ n = ground arith in omega (arith, le n, bound, sum_below_const n, ap f e)
      | inr earlier ↦ full_of_sum_below n f le (omega (arith, le n)) v (ground arith)
    ]

-- `rank` goes up along every edge, so the graph has no cycle.
abbrev pub IsRanked : List (List ℕ) → (ℕ → ℕ) → Type 0
IsRanked successors rank = (u v : ℕ) → 0 < edges successors u v → rank u < rank v

-- Every node once, and every node behind those that it is a successor of.
pub record IsSchedule (successors : List (List ℕ)) (n : ℕ) (order : List ℕ) : Type 0 where
  pub once : (v : ℕ) → count v order ≡ (if ltb v n then 1 else 0)
  pub behind : (u v : ℕ) → 0 < edges successors u v → position u order < position v order

position_of_sorted :
    (successors : List (List ℕ)) (seen vs : List ℕ) (u v : ℕ)
    → IsTopological successors seen vs
    → 0 < edges successors u v
    → 0 < count v vs
    → (0 < count u seen) ⊎ (position u vs < position v vs)
position_of_sorted successors seen [] u v t e h = absurd (omega arith)
position_of_sorted successors seen (w ∷ vs) u v t e h = elim (Bool-cases (w == v)) [
  | inl here ↦ let same : w ≡ v = ground arith in inl (t.0 u (rw same e))
  | inr there ↦ ground (arith, there, position_of_sorted successors (w ∷ seen) vs u v t.1 e)
]

module _ (successors : List (List ℕ)) (n : ℕ) (graph : IsGraph successors n) where
  -- The queue and the order together hold each released node once, and nothing else.
  placed_length :
      (s : Search)
      → Inv successors n s
      → length s.ready_queue + length s.topological_order ≡ sum_below n (released n s)
  placed_length s inv = omega (
    arith,
    length-eq-sum_below n s.ready_queue (λ v le. ground (arith, inv.placed v)),
    length-eq-sum_below n s.topological_order (λ v le. ground (arith, inv.placed v)),
    sum_below-add n (λ v. count v s.ready_queue) (λ v. count v s.topological_order),
    sum_below-eq n (λ v. count v s.ready_queue + count v s.topological_order) (released n s)
        (λ v lt. inv.placed v),
  )

  released-le : (s : Search) (v : ℕ) → released n s v ≤ 1
  released-le s v = ground arith

  placed_length-le :
      (s : Search) → Inv successors n s → length s.ready_queue + length s.topological_order ≤ n
  placed_length-le s inv = omega (
    arith,
    placed_length s inv,
    sum_below-le n (released n s) (λ v. 1) (λ v lt. released-le s v),
    sum_below_const n,
  )

  loop_ends :
      (fuel : ℕ) (s : Search)
      → Inv successors n s
      → n ≤ fuel + length s.topological_order
      → (t : Search) × (loop successors fuel s ≡ some t) × Inv successors n t × (t.ready_queue ≡ [])
  unfolding loop
  loop_ends zero s inv enough = elim (List-cases s.ready_queue) [
    | inl empty ↦ (s, simp (empty, loop), inv, empty)
    | inr (u, rest, e) ↦ absurd (omega (arith, placed_length-le s inv, ap length e))
  ]
  loop_ends (suc fuel) s inv enough = elim (List-cases s.ready_queue) [
    | inl empty ↦ (s, simp (empty, loop), inv, empty)
    | inr (u, rest, e) ↦
        let (t, ends, invariant, empty) =
          loop_ends fuel (process successors s u rest)
            (process-Inv successors n graph s u rest inv e)
            (omega (
              arith,
              ap length (process-order successors n graph s u rest inv e),
              length-append s.topological_order (u ∷ []),
            )) in
        (t, simp (e, loop) ends, invariant, empty)
  ]

  -- The search ends within `n` rounds, in a state that keeps the invariant and has an empty queue.
  pub search_ends :
      (in_degree : List ℕ)
      → CountsEdges successors n in_degree
      → (t : Search) × (loop successors n (start in_degree) ≡ some t)
        × Inv successors n t
        × (t.ready_queue ≡ [])
  search_ends in_degree sums =
      loop_ends n (start in_degree) (start-Inv successors n in_degree sums) (omega arith)

  -- With an empty queue the order holds exactly the released nodes.
  end_count :
      (t : Search) (v : ℕ)
      → Inv successors n t
      → t.ready_queue ≡ []
      → count v t.topological_order ≡ released n t v
  end_count t v inv e = omega (arith, inv.placed v, ap (count v) e)

  -- An order that misses a node leaves a node with a degree that is not 0.
  pub stuck_node :
      (t : Search)
      → Inv successors n t
      → t.ready_queue ≡ []
      → length t.topological_order ≢ n
      → (v : ℕ) × (v < n) × (0 < degree t v)
  stuck_node t inv e missing =
      let total = placed_length t inv in
      let (v, lt, z) =
        zero_of_sum_below n (released n t) (released-le t)
          (omega (arith, total, placed_length-le t inv, ap length e)) in
      (v, lt, ground arith)

  -- A stuck node is a successor of another stuck node.
  stuck_predecessor :
      (t : Search) (v : ℕ)
      → Inv successors n t
      → t.ready_queue ≡ []
      → 0 < degree t v
      → (u : ℕ) × (u < n) × (0 < degree t u) × (0 < edges successors u v)
  stuck_predecessor t v inv e stuck =
      let f = λ (u : ℕ). if count u t.topological_order == 0 then edges successors u v else 0 in
      let (u, lt, up) = pos_of_sum_below n f (omega (arith, inv.degrees v)) in
      (u, lt, ground (arith, up, end_count t u inv e), ground (arith, up))

  -- No node of a ranked graph is stuck: its predecessors would go down in rank for ever.
  pub not_stuck :
      (rank : ℕ → ℕ) (t : Search)
      → IsRanked successors rank
      → Inv successors n t
      → t.ready_queue ≡ []
      → (k v : ℕ) → rank v < k
      → ¬ (0 < degree t v)
  not_stuck rank t ranked inv e zero v low stuck = absurd (omega arith)
  not_stuck rank t ranked inv e (suc k) v low stuck =
      let (u, lt, up, edge) = stuck_predecessor t v inv e stuck in
      not_stuck rank t ranked inv e k u (omega (arith, ranked u v edge)) up

  pub end_IsSchedule :
      (t : Search)
      → Inv successors n t
      → t.ready_queue ≡ []
      → length t.topological_order ≡ n
      → IsSchedule successors n t.topological_order
  end_IsSchedule t inv e full =
      let all =
        full_of_sum_below n (released n t) (released-le t)
          (omega (arith, placed_length t inv, ap length e)) in
      let once : (v : ℕ) → count v t.topological_order ≡ (if ltb v n then 1 else 0) =
        λ v. ground (arith, end_count t v inv e, all v) in
      record {
        once = once;
        behind = λ u v edge. ground (
          arith,
          position_of_sorted successors [] t.topological_order u v inv.sorted edge,
          once v,
          graph.targets u v,
        );
      }
