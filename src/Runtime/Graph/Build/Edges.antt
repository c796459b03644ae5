-- ===== src/Runtime/Graph/Build/Edges.antt =====
-- The adjacency lists that the constructor builds describe one graph.
use fluidloom.Prelude.{
  ℕ, ◌+◌, ◌≤◌, ◌<◌, ◌≡◌, refl, inl, inr, List, [], ◌∷◌, ◌++◌, arith, length, get_or, ◌==◌,
  if◌then◌else◌, count-append, sum_below, sum_below-point, Bool-cases, get_or-set, length-set, ◌∙◌,
}
use fluidloom.Runtime.Graph.Build.{Adjacency, push_at, add_edge}
use fluidloom.Runtime.Graph.Kahn.Invariant.{edges}

pub record IsAdjacency (n : ℕ) (adj : Adjacency) : Type 0 where
  pub out_size : length adj.successors ≡ n
  pub in_size : length adj.predecessors ≡ n
  pub degree_size : length adj.in_degree ≡ n
  pub targets : (u v : ℕ) → n ≤ v → edges adj.successors u v ≡ 0
  pub sums : (v : ℕ) → get_or adj.in_degree v 0 ≡ sum_below n (λ u. edges adj.successors u v)
  pub transposed : (u v : ℕ) → edges adj.predecessors v u ≡ edges adj.successors u v
  pub total : adj.num_edges ≡ sum_below n (λ v. get_or adj.in_degree v 0)

edges-push_at :
    (lists : List (List ℕ)) (i a u v : ℕ)
    → i < length lists
    → edges (push_at lists i a) u v
      ≡ edges lists u v + (if i == u then (if a == v then 1 else 0) else 0)
edges-push_at lists i a u v h =
    let written = get_or-set lists i u (get_or lists i [] ++ a ∷ []) [] in
    elim (Bool-cases (i == u)) [
      | inl here ↦
          let e : i ≡ u = ground arith in
          rw (written h, here, count-append v (get_or lists i []) (a ∷ [])) (rw e (omega arith))
      | inr there ↦ rw (written h, there) (omega arith)
    ]

module _ (n : ℕ) (adj : Adjacency) (i j : ℕ) (inv : IsAdjacency n adj) (from : i < n)
    (to : j < n) where
  edges-add_edge :
      (u v : ℕ)
      → edges (add_edge adj i j).successors u v
        ≡ edges adj.successors u v + (if i == u then (if j == v then 1 else 0) else 0)
  unfolding add_edge
  edges-add_edge u v = edges-push_at adj.successors i j u v (omega (arith, inv.out_size))

  degree-add_edge :
      (v : ℕ)
      → get_or (add_edge adj i j).in_degree v 0
        ≡ get_or adj.in_degree v 0 + (if j == v then 1 else 0)
  unfolding add_edge
  degree-add_edge v =
      ground (arith, get_or-set adj.in_degree j v (get_or adj.in_degree j 0 + 1) 0, inv.degree_size)

  sums-add_edge :
      (v : ℕ)
      → sum_below n (λ u. edges (add_edge adj i j).successors u v)
        ≡ sum_below n (λ u. edges adj.successors u v) + (if j == v then 1 else 0)
  sums-add_edge v = ground (
    arith,
    sum_below-point n i (λ u. edges (add_edge adj i j).successors u v)
        (λ u. edges adj.successors u v) from (λ u ne. ground (arith, ne, edges-add_edge u v)),
    edges-add_edge i v,
  )

  total-add_edge :
      sum_below n (λ v. get_or (add_edge adj i j).in_degree v 0)
      ≡ sum_below n (λ v. get_or adj.in_degree v 0) + 1
  total-add_edge = ground (
    arith,
    sum_below-point n j (λ v. get_or (add_edge adj i j).in_degree v 0)
        (λ v. get_or adj.in_degree v 0) to (λ v ne. ground (arith, ne, degree-add_edge v)),
    degree-add_edge j,
  )

  transposed-add_edge :
      (u v : ℕ)
      → edges (add_edge adj i j).predecessors v u ≡ edges (add_edge adj i j).successors u v
  unfolding add_edge
  transposed-add_edge u v = ground (
    arith,
    edges-push_at adj.predecessors j i v u,
    edges-push_at adj.successors i j u v,
    inv.in_size,
    inv.out_size,
    inv.transposed u v,
  )

  sizes-add_edge :
      (length (add_edge adj i j).successors ≡ n)
      × (length (add_edge adj i j).predecessors ≡ n)
      × (length (add_edge adj i j).in_degree ≡ n)
      × ((add_edge adj i j).num_edges ≡ adj.num_edges + 1)
  unfolding add_edge
  sizes-add_edge = (
    length-set adj.successors i _ ∙ inv.out_size,
    length-set adj.predecessors j _ ∙ inv.in_size,
    length-set adj.in_degree j _ ∙ inv.degree_size,
    refl,
  )

  pub add_edge-IsAdjacency : IsAdjacency n (add_edge adj i j)
  add_edge-IsAdjacency =
      let (out, in_, deg, number) = sizes-add_edge in
      record {
        out_size = out;
        in_size = in_;
        degree_size = deg;
        targets = λ u v le. ground (arith, le, edges-add_edge u v, inv.targets u v);
        sums = λ v. omega (arith, sums-add_edge v, degree-add_edge v, inv.sums v);
        transposed = transposed-add_edge;
        total = omega (arith, number, total-add_edge, inv.total);
      }
