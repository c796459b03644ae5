-- ===== src/Runtime/Graph/Kahn/Invariant.antt =====
-- The invariant of the outer loop, and that a round keeps it.
use fluidloom.Prelude.{
  ℕ, zero, suc, ◌+◌, ◌≤◌, ◌<◌, ◌≡◌, refl, ap, List, [], ◌∷◌, ◌++◌, arith, length, get_or, count,
  ◌==◌, ltb, if◌then◌else◌, get_or_out, count-append, sum_below, le-sum_below, sum_below-point,
}
use fluidloom.Runtime.Graph.Kahn.{Search, degree, process, ready_from, start}
use fluidloom.Runtime.Graph.Kahn.Release.{Released, release_all-Released, lt-length_of_degree}

-- How often `v` is listed as a successor of `u`.
abbrev pub edges : List (List ℕ) → ℕ → ℕ → ℕ
edges successors u v = count v (get_or successors u [])

-- The edges into `v` from the nodes that `done` does not hold.
abbrev pub pending : List (List ℕ) → ℕ → List ℕ → ℕ → ℕ
pending successors n done v =
    sum_below n (λ u. if count u done == 0 then edges successors u v else 0)

-- Every node stands behind all nodes that it is a successor of, which are in `seen` or before it.
abbrev pub IsTopological : List (List ℕ) → List ℕ → List ℕ → Type 0
IsTopological successors seen [] = Unit
IsTopological successors seen (v ∷ vs) =
    ((u : ℕ) → 0 < edges successors u v → 0 < count u seen) × IsTopological successors (v ∷ seen) vs

pub IsTopological-snoc :
    (successors : List (List ℕ)) (seen vs : List ℕ) (v : ℕ)
    → IsTopological successors seen vs
    → ((u : ℕ) → 0 < edges successors u v → 0 < count u seen + count u vs)
    → IsTopological successors seen (vs ++ v ∷ [])
IsTopological-snoc successors seen [] v t h = (λ u e. omega (arith, h u e), tt)
IsTopological-snoc successors seen (w ∷ vs) v t h =
    (t.0, IsTopological-snoc successors (w ∷ seen) vs v t.1 (λ u e. omega (arith, h u e)))

-- The lists of a graph over the nodes 0 … n - 1.
pub record IsGraph (successors : List (List ℕ)) (n : ℕ) : Type 0 where
  pub size : length successors ≡ n
  pub targets : (u v : ℕ) → n ≤ v → edges successors u v ≡ 0

-- The in-degrees that the constructor computes.
pub record CountsEdges (successors : List (List ℕ)) (n : ℕ) (in_degree : List ℕ) : Type 0 where
  pub size : length in_degree ≡ n
  pub sums : (v : ℕ) → get_or in_degree v 0 ≡ sum_below n (λ u. edges successors u v)

-- 1 for a node whose predecessors are all placed.
abbrev pub released : ℕ → Search → ℕ → ℕ
released n s v = if ltb v n then (if degree s v == 0 then 1 else 0) else 0

pub record Inv (successors : List (List ℕ)) (n : ℕ) (s : Search) : Type 0 where
  pub size : length s.temp_in_degree ≡ n
  pub degrees : (v : ℕ) → degree s v ≡ pending successors n s.topological_order v
  pub placed : (v : ℕ) → count v s.ready_queue + count v s.topological_order ≡ released n s v
  pub sorted : IsTopological successors [] s.topological_order

module _ (successors : List (List ℕ)) (n : ℕ) (graph : IsGraph successors n) where
  edges_out : (u v : ℕ) → n ≤ u → edges successors u v ≡ 0
  edges_out u v h = ap (count v) (get_or_out successors u [] (omega (arith, graph.size)))

  pending-snoc :
      (done : List ℕ) (u v : ℕ)
      → u < n
      → count u done ≡ 0
      → pending successors n (done ++ u ∷ []) v + edges successors u v ≡ pending successors n done v
  pending-snoc done u v lt fresh =
      let f = λ (w : ℕ). if count w (done ++ u ∷ []) == 0 then edges successors w v else 0 in
      let g = λ (w : ℕ). if count w done == 0 then edges successors w v else 0 in
      ground (
        arith,
        sum_below-point n u f g lt (λ i ne. ground (arith, ne, count-append i done (u ∷ []))),
        count-append u done (u ∷ []),
      )

  edges-le-pending :
      (done : List ℕ) (u v : ℕ)
      → u < n
      → count u done ≡ 0
      → edges successors u v ≤ pending successors n done v
  edges-le-pending done u v lt fresh =
      ground
        (arith, le-sum_below n u (λ w. if count w done == 0 then edges successors w v else 0) lt)

  -- With no pending edge into `v`, each node that it is a successor of is done.
  done_of_pending :
      (done : List ℕ) (u v : ℕ)
      → pending successors n done v ≡ 0
      → 0 < edges successors u v
      → 0 < count u done
  done_of_pending done u v none_left e = ground (
    arith,
    le-sum_below n u (λ w. if count w done == 0 then edges successors w v else 0),
    edges_out u v,
  )

  -- The node at the head of the queue is a node of the graph, with degree 0, and not yet placed.
  head_facts :
      (s : Search) (u : ℕ) (rest : List ℕ)
      → Inv successors n s
      → s.ready_queue ≡ u ∷ rest
      → (u < n) × (degree s u ≡ 0) × (count u s.topological_order ≡ 0)
  head_facts s u rest inv e = ground (arith, inv.placed u, ap (count u) e)

  abbrev popped : Search → ℕ → List ℕ → Search
  popped s u rest = record s {
    ready_queue = rest;
    topological_order = s.topological_order ++ u ∷ [];
  }

  process-Released :
      (s : Search) (u : ℕ) (rest : List ℕ)
      → Inv successors n s
      → s.ready_queue ≡ u ∷ rest
      → Released (popped s u rest) (process successors s u rest) (get_or successors u [])
  unfolding process
  process-Released s u rest inv e =
      let (lt, ripe, fresh) = head_facts s u rest inv e in
      release_all-Released (popped s u rest) (get_or successors u [])
        (λ v. omega (arith, edges-le-pending s.topological_order u v lt fresh, inv.degrees v))

  pub process-order :
      (s : Search) (u : ℕ) (rest : List ℕ)
      → Inv successors n s
      → s.ready_queue ≡ u ∷ rest
      → (process successors s u rest).topological_order ≡ s.topological_order ++ u ∷ []
  process-order s u rest inv e = (process-Released s u rest inv e).order

  pub process-Inv :
      (s : Search) (u : ℕ) (rest : List ℕ)
      → Inv successors n s
      → s.ready_queue ≡ u ∷ rest
      → Inv successors n (process successors s u rest)
  process-Inv s u rest inv e =
      let (lt, ripe, fresh) = head_facts s u rest inv e in
      let order = s.topological_order in
      let r = process-Released s u rest inv e in
      record {
        size = omega (arith, r.size, inv.size);
        degrees = λ v.
            rw r.order (omega (arith, r.degrees v, pending-snoc order u v lt fresh, inv.degrees v));
        placed = λ v. rw r.order (
            ground (
              arith,
              r.queue v,
              r.degrees v,
              count-append v order (u ∷ []),
              inv.placed v,
              ap (count v) e,
              lt-length_of_degree s v,
              inv.size,
            ));
        sorted = rw r.order (
            IsTopological-snoc successors [] order u inv.sorted (λ w edge.
              omega (arith, done_of_pending order w u (omega (arith, inv.degrees u)) edge)));
      }

ready_from_below : (i v : ℕ) (ds : List ℕ) → v < i → count v (ready_from i ds) ≡ 0
unfolding ready_from
ready_from_below i v [] h = refl
ready_from_below i v (d ∷ ds) h = ground (arith, ready_from_below (suc i) v ds)

count-ready_from :
    (i k v : ℕ) (ds : List ℕ)
    → v ≡ i + k
    → count v (ready_from i ds)
      ≡ (if ltb k (length ds) then (if get_or ds k 0 == 0 then 1 else 0) else 0)
unfolding ready_from
count-ready_from i k v [] e = ground arith
count-ready_from i zero v (d ∷ ds) e = ground (arith, ready_from_below (suc i) v ds)
count-ready_from i (suc k) v (d ∷ ds) e = ground (arith, count-ready_from (suc i) k v ds)

pub start-Inv :
    (successors : List (List ℕ)) (n : ℕ) (in_degree : List ℕ)
    → CountsEdges successors n in_degree
    → Inv successors n (start in_degree)
unfolding start
start-Inv successors n in_degree sums = record {
  size = sums.size;
  degrees = λ v. sums.sums v;
  placed = λ v. ground (arith, count-ready_from 0 v v in_degree, sums.size);
  sorted = tt;
}
