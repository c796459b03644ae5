-- ===== src/Runtime/Graph/Build/Links.antt =====
-- The whole construction: it keeps the adjacency invariant, and the successors of a node are the
-- indices of the nodes that its live pointers lead to.
use fluidloom.Prelude.{
  ℕ, zero, suc, ◌+◌, ◌≤◌, ◌<◌, ◌≡◌, refl, ap, sym, ◌⊎◌, inl, inr, List, [], ◌∷◌, ◌++◌, arith,
  length, get_or, get_elem?, count, replicate, Option, none, some, ℤ, eqb_ℤ, ◌==◌, if◌then◌else◌,
  append-nil, append_assoc, sum_below, Bool-cases, Option-cases, get_or-set, length-replicate,
  get_or-replicate, ◌∙◌,
}
use fluidloom.Runtime.Node.{Heap}
use fluidloom.Runtime.Graph.Build.{
  IndexMap, index_from, index_nodes, Adjacency, add_edge, resolve, add_successors, add_nodes,
  empty_adjacency, build_adjacency_lists,
}
use fluidloom.Runtime.Graph.Kahn.Invariant.{edges, IsGraph, CountsEdges}
use fluidloom.Runtime.Graph.Build.Edges.{IsAdjacency, add_edge-IsAdjacency}

index_from-lt :
    (h : Heap) (i : ℕ) (ps : List ℕ) (map : IndexMap) (id : ℤ) (j : ℕ)
    → index_from h i ps map id ≡ some j
    → (map id ≡ some j) ⊎ (i ≤ j) × (j < i + length ps)
unfolding index_from
index_from-lt h i [] map id j e = inl e
index_from-lt h i (p ∷ ps) map id j e = ground (
  arith,
  index_from-lt h (suc i) ps (λ id'. if eqb_ℤ (h.node p).node_id id' then some i else map id') id j
      e,
)

-- The index map leads to nodes of the graph only.
pub index_nodes-lt :
    (h : Heap) (nodes : List ℕ) (id : ℤ) (j : ℕ)
    → index_nodes h nodes id ≡ some j
    → j < length nodes
unfolding index_nodes
index_nodes-lt h nodes id j e = ground (arith, index_from-lt h 0 nodes (λ x. none) id j e)

pub resolve-lt :
    (h : Heap) (nodes : List ℕ) (p j : ℕ)
    → resolve h (index_nodes h nodes) p ≡ some j
    → j < length nodes
unfolding resolve
resolve-lt h nodes p j e = ground (arith, e, index_nodes-lt h nodes (h.node p).node_id j)

abbrev pub to_list : Option ℕ → List ℕ
to_list none = []
to_list (some j) = j ∷ []

-- The indices that a list of weak pointers leads to.
unfoldable pub resolve_all : Heap → IndexMap → List ℕ → List ℕ
resolve_all h map [] = []
resolve_all h map (p ∷ ps) = to_list (resolve h map p) ++ resolve_all h map ps

add_edge-successors :
    (adj : Adjacency) (i j u : ℕ)
    → i < length adj.successors
    → get_or (add_edge adj i j).successors u []
      ≡ (if i == u then get_or adj.successors u [] ++ j ∷ [] else get_or adj.successors u [])
unfolding add_edge
add_edge-successors adj i j u h = elim (Bool-cases (i == u)) [
  | inl here ↦
      let e : i ≡ u = ground arith in get_or-set adj.successors i u _ [] h ∙ rw (here, e) refl
  | inr there ↦ get_or-set adj.successors i u _ [] h ∙ rw there refl
]

sum_below_zero : (k : ℕ) (f : ℕ → ℕ) → ((i : ℕ) → f i ≡ 0) → sum_below k f ≡ 0
sum_below_zero zero f h = refl
sum_below_zero (suc k) f h = omega (arith, h k, sum_below_zero k f h)

module _ (h : Heap) (nodes : List ℕ) where
  abbrev n : ℕ
  n = length nodes

  abbrev index : IndexMap
  index = index_nodes h nodes

  add_successors-IsAdjacency :
      (i : ℕ) (ps : List ℕ) (adj : Adjacency)
      → i < n
      → IsAdjacency n adj
      → IsAdjacency n (add_successors h index i ps adj)
  unfolding add_successors
  add_successors-IsAdjacency i [] adj lt inv = inv
  add_successors-IsAdjacency i (p ∷ ps) adj lt inv = elim (Option-cases (resolve h index p)) [
    | inl e ↦ rw e (add_successors-IsAdjacency i ps adj lt inv)
    | inr (j, e) ↦ rw e (
        add_successors-IsAdjacency i ps (add_edge adj i j) lt
          (add_edge-IsAdjacency n adj i j inv lt (resolve-lt h nodes p j e)))
  ]

  add_successors-list :
      (i : ℕ) (ps : List ℕ) (adj : Adjacency) (u : ℕ)
      → i < n
      → IsAdjacency n adj
      → get_or (add_successors h index i ps adj).successors u [] ≡ (
          if i == u
          then get_or adj.successors u [] ++ resolve_all h index ps
          else get_or adj.successors u [])
  unfolding add_successors resolve_all
  add_successors-list i [] adj u lt inv = ground (arith, append-nil (get_or adj.successors u []))
  add_successors-list i (p ∷ ps) adj u lt inv = elim (Option-cases (resolve h index p)) [
    | inl e ↦ ground (arith, e, add_successors-list i ps adj u lt inv)
    | inr (j, e) ↦ ground (
      arith,
      e,
      add_edge-successors adj i j u,
      inv.out_size,
      append_assoc (get_or adj.successors u []) (j ∷ []) (resolve_all h index ps),
      add_successors-list i ps (add_edge adj i j) u lt
          (add_edge-IsAdjacency n adj i j inv lt (resolve-lt h nodes p j e)),
    )
  ]

  add_nodes-IsAdjacency :
      (i : ℕ) (ps : List ℕ) (adj : Adjacency)
      → i + length ps ≤ n
      → IsAdjacency n adj
      → IsAdjacency n (add_nodes h index i ps adj)
  unfolding add_nodes
  add_nodes-IsAdjacency i [] adj le inv = inv
  add_nodes-IsAdjacency i (p ∷ ps) adj le inv =
      add_nodes-IsAdjacency (suc i) ps _ (omega arith)
        (add_successors-IsAdjacency i (h.node p).successors adj (omega arith) inv)

  -- The nodes that are already passed keep their lists.
  add_nodes_before :
      (i : ℕ) (ps : List ℕ) (adj : Adjacency) (u : ℕ)
      → i + length ps ≤ n
      → u < i
      → IsAdjacency n adj
      → get_or (add_nodes h index i ps adj).successors u [] ≡ get_or adj.successors u []
  unfolding add_nodes
  add_nodes_before i [] adj u le before inv = refl
  add_nodes_before i (p ∷ ps) adj u le before inv =
      let kept = add_successors-IsAdjacency i (h.node p).successors adj (omega arith) inv in
      ground (
        arith,
        add_nodes_before (suc i) ps (add_successors h index i (h.node p).successors adj) u
            (omega arith) (omega arith) kept,
        add_successors-list i (h.node p).successors adj u,
      )

  add_nodes-list :
      (i k : ℕ) (ps : List ℕ) (adj : Adjacency) (u p : ℕ)
      → i + length ps ≤ n
      → u ≡ i + k
      → get_elem? ps k ≡ some p
      → ((w : ℕ) → i ≤ w → get_or adj.successors w [] ≡ [])
      → IsAdjacency n adj
      → get_or (add_nodes h index i ps adj).successors u []
        ≡ resolve_all h index (h.node p).successors
  unfolding add_nodes
  add_nodes-list i k [] adj u p le at found blank inv = cc
  add_nodes-list i zero (q ∷ ps) adj u p le at found blank inv =
      let list = (h.node q).successors in
      let kept = add_successors-IsAdjacency i list adj (omega arith) inv in
      let same : u ≡ i = omega arith in
      ground (
        arith,
        found,
        add_nodes_before (suc i) ps (add_successors h index i list adj) u (omega arith)
            (omega arith) kept,
        add_successors-list i list adj u,
        blank u,
      )
  add_nodes-list i (suc k) (q ∷ ps) adj u p le at found blank inv =
      let list = (h.node q).successors in
      let kept = add_successors-IsAdjacency i list adj (omega arith) inv in
      add_nodes-list (suc i) k ps (add_successors h index i list adj) u p (omega arith)
        (omega arith) found
        (λ w later.
          ground (arith, add_successors-list i list adj w (omega arith) inv, blank w, later))
        kept

  empty-IsAdjacency : IsAdjacency n (empty_adjacency n)
  unfolding empty_adjacency
  empty-IsAdjacency = record {
    out_size = length-replicate n [];
    in_size = length-replicate n [];
    degree_size = length-replicate {A = ℕ} n 0;
    targets = λ u v le. ap (count v) (get_or-replicate n u []);
    sums = λ v. omega (
      arith,
      get_or-replicate {A = ℕ} n v 0,
      sum_below_zero n (λ u. edges (replicate n []) u v)
          (λ u. ap (count v) (get_or-replicate n u [])),
    );
    transposed = λ u v.
        ap (count u) (get_or-replicate n v []) ∙ sym (ap (count v) (get_or-replicate n u []));
    total = omega (
      arith,
      sum_below_zero n (λ v. get_or {A = ℕ} (replicate n 0) v 0)
          (λ v. get_or-replicate {A = ℕ} n v 0),
    );
  }

  -- The lists that are built have one entry for each node, lead to nodes of the graph only and
  -- mirror each other, and the in-degrees and the number of edges count what they hold.
  pub build-IsAdjacency : IsAdjacency n (build_adjacency_lists h nodes)
  unfolding build_adjacency_lists
  build-IsAdjacency =
      add_nodes-IsAdjacency 0 nodes (empty_adjacency n) (omega arith) empty-IsAdjacency

  -- A node's successors are the nodes that its live pointers lead to, in their order.
  pub build-list :
      (u p : ℕ)
      → get_elem? nodes u ≡ some p
      → get_or (build_adjacency_lists h nodes).successors u []
        ≡ resolve_all h index (h.node p).successors
  unfolding build_adjacency_lists
  build-list u p found =
      add_nodes-list 0 u nodes (empty_adjacency n) u p (omega arith) (omega arith) found
        (λ w le. unfold empty_adjacency in get_or-replicate n w []) empty-IsAdjacency

  pub build-IsGraph : IsGraph (build_adjacency_lists h nodes).successors n
  build-IsGraph =
      let inv = build-IsAdjacency in record { size = inv.out_size; targets = inv.targets }

  pub build-CountsEdges :
      CountsEdges
        (build_adjacency_lists h nodes).successors
        n
        (build_adjacency_lists h nodes).in_degree
  build-CountsEdges =
      let inv = build-IsAdjacency in record { size = inv.degree_size; sums = inv.sums }
