-- ===== src/Runtime/Plan.antt =====
-- The three steps that order a list of nodes, one after the other: `analyzeNodes`, `enforceHazards`
-- (src/runtime/dependency/HazardAnalyzer.cpp) and the constructor of `DependencyGraph`
-- (src/runtime/dependency/DependencyGraphBuilder.cpp).
use fluidloom.Prelude.{
  ℕ, zero, suc, ◌<◌, ◌≡◌, refl, sym, ◌∙◌, inl, inr, true, List, [], ◌∷◌, map, arith, get_elem?,
  some, String, In, ok, position,
}
use fluidloom.Runtime.Node.{ExecutionNode, Heap}
use fluidloom.Runtime.Hazards.{HazardType, Hazard, hazard, analyze_nodes, enforce_hazards}
use fluidloom.Runtime.Hazards.Exact.{Conflict, analyze_nodes_exact}
use fluidloom.Runtime.Hazards.Enforce.{
  Joins, Enforced, enforce_hazards-Enforced, enforce_hazards_returns,
}
use fluidloom.Runtime.Graph.{DependencyGraph, construct}
use fluidloom.Runtime.Graph.Valid.{construct_outcome}
use fluidloom.Runtime.Graph.Build.{build_adjacency_lists}
use fluidloom.Runtime.Graph.Build.Index.{
  DistinctIds, resolve_found, edge_source, edge_pointer, pointer_edge,
}
use fluidloom.Runtime.Graph.Kahn.Invariant.{edges}
use fluidloom.Runtime.Graph.Kahn.Order.{IsRanked}

-- The nodes of a list that is ready to be analysed: owned, with ids of their own and no edges yet.
pub record Prepared (h : Heap) (nodes : List ℕ) : Type 0 where
  pub live : (i p : ℕ) → get_elem? nodes i ≡ some p → h.alive p ≡ true
  pub fresh : (i p : ℕ) → get_elem? nodes i ≡ some p → (h.node p).successors ≡ []
  pub distinct : DistinctIds h nodes

-- Of every two nodes that conflict, the earlier one of the list comes first in the order.
abbrev pub Respects : List ExecutionNode → List ℕ → Type 0
Respects nodes order =
    (i j : ℕ) (f : String) (t : HazardType)
    → Conflict nodes (hazard i j f t)
    → position i order < position j order

get_elem?-map :
    (h : Heap) (nodes : List ℕ) (i : ℕ) (a : ExecutionNode)
    → get_elem? (map h.node nodes) i ≡ some a
    → (p : ℕ) × (get_elem? nodes i ≡ some p)
get_elem?-map h [] i a e = absurd (cc)
get_elem?-map h (p ∷ ps) zero a e = (p, refl)
get_elem?-map h (p ∷ ps) (suc i) a e = get_elem?-map h ps i a e

module _ (h : Heap) (nodes : List ℕ) (prepared : Prepared h nodes) where
  abbrev hazards : List Hazard
  hazards = analyze_nodes h nodes

  hazard_inside :
      (z : Hazard)
      → In z hazards
      → (z.from_node_idx < z.to_node_idx) × ((p q : ℕ) × Joins nodes z p q)
  hazard_inside z m =
      let (a, b, fa, fb, lt, clash) =
        (analyze_nodes_exact h nodes z.from_node_idx z.to_node_idx z.field_name z.type).0 m in
      let (p, ep) = get_elem?-map h nodes z.from_node_idx a fa in
      let (q, eq) = get_elem?-map h nodes z.to_node_idx b fb in (lt, (p, q, (ep, eq)))

  module _ (h' : Heap) (added : Enforced nodes hazards h h') where
    distinct_after : DistinctIds h' nodes
    distinct_after i j p q fp fq e =
        prepared.distinct i j p q fp fq (sym ((added.node_kept p).0) ∙ e ∙ (added.node_kept q).0)

    live_after : (j q : ℕ) → get_elem? nodes j ≡ some q → h'.alive q ≡ true
    live_after j q e = added.alive_kept q ∙ prepared.live j q e

    -- Every edge goes from an earlier to a later node.
    edges_ascend : IsRanked (build_adjacency_lists h' nodes).successors (λ v. v)
    edges_ascend u v edge =
        let (p, at) = edge_source h' nodes u v edge in
        let (q, m, e) = edge_pointer h' nodes u p v at edge in
        elim ((added.successors p q).0 m) [
          | inl old ↦ absurd (rw (prepared.fresh u p at) at old)
          | inr (z, reported, (fp, fq)) ↦
              let (lt, _) = hazard_inside z reported in
              let from = prepared.distinct z.from_node_idx u p p fp at refl in
              let to =
                resolve_found h' nodes z.to_node_idx q distinct_after
                  (live_after z.to_node_idx q fq) fq in
              let same : z.to_node_idx ≡ v = cc in omega arith
        ]

    edge_of_Conflict :
        (i j : ℕ) (f : String) (t : HazardType)
        → Conflict (map h.node nodes) (hazard i j f t)
        → 0 < edges (build_adjacency_lists h' nodes).successors i j
    edge_of_Conflict i j f t c =
        let z = hazard i j f t in
        let reported = (analyze_nodes_exact h nodes i j f t).1 c in
        let (lt, (p, q, (fp, fq))) = hazard_inside z reported in
        pointer_edge h' nodes i p j q fp ((added.successors p q).1 (inr (z, reported, (fp, fq))))
          (resolve_found h' nodes j q distinct_after (live_after j q fq) fq)

-- For live nodes with distinct ids and no successors yet, analysing, enforcing the hazards that are
-- found and building the graph neither leaves the vector nor throws, and in the order of the graph
-- every node stands behind each earlier one that it conflicts with.
pub schedule-Respects :
    (h : Heap) (nodes : List ℕ)
    → Prepared h nodes
    → (h' : Heap) × (g : DependencyGraph) × (enforce_hazards h nodes (analyze_nodes h nodes)
        ≡ some h')
      × (construct h' nodes ≡ ok g)
      × Respects (map h.node nodes) g.topological_order
schedule-Respects h nodes prepared =
    let (h', enforced) =
      enforce_hazards_returns nodes (analyze_nodes h nodes) h
        (λ z m. (hazard_inside h nodes prepared z m).1) in
    let added = enforce_hazards-Enforced nodes (analyze_nodes h nodes) h h' enforced in
    elim (construct_outcome h' nodes) [
      | inl (g, built, sound) ↦ (
        h',
        g,
        enforced,
        built,
        λ i j f t c.
            sound.schedule.behind i j
              (rw sound.built (edge_of_Conflict h nodes prepared h' added i j f t c)),
      )
      | inr (_, unranked) ↦ absurd (unranked (λ v. v) (edges_ascend h nodes prepared h' added))
    ]
