-- ===== src/Runtime/Graph/Build/Index.antt =====
-- With distinct ids the index map leads from a node's id back to the node, and an edge is a
-- pointer of one node to another.
use fluidloom.Prelude.{
  ℕ, zero, suc, ◌+◌, ◌<◌, ◌≡◌, refl, sym, ap, ◌∙◌, ◌⊎◌, inl, inr, true, false, List, [], ◌∷◌, arith,
  get_elem?, count, none, some, ℤ, eqb_ℤ, eqb_ℤ_iff, eqb_ℤ_refl, ◌==◌, if◌then◌else◌, Bool-cases,
  Option-cases, In, count-append, get_or_out, length-le_of_get_elem?,
}
use native.Mathlib.Nat.{zero-add}
use fluidloom.Runtime.Node.{Heap}
use fluidloom.Runtime.Graph.Build.{
  IndexMap, index_from, index_nodes, resolve, build_adjacency_lists,
}
use fluidloom.Runtime.Graph.Build.Links.{resolve_all, to_list, build-list, build-IsGraph}
use fluidloom.Runtime.Graph.Kahn.Invariant.{edges}

-- No two places of the list hold nodes of the same id.
abbrev pub DistinctIds : Heap → List ℕ → Type 0
DistinctIds h nodes =
    (i j p q : ℕ)
    → get_elem? nodes i ≡ some p
    → get_elem? nodes j ≡ some q
    → (h.node p).node_id ≡ (h.node q).node_id
    → i ≡ j

module _ (h : Heap) where
  abbrev insert : ℕ → ℕ → IndexMap → IndexMap
  insert p i map id = if eqb_ℤ (h.node p).node_id id then some i else map id

  index_from_absent :
      (i : ℕ) (ps : List ℕ) (map : IndexMap) (id : ℤ)
      → ((k p : ℕ) → get_elem? ps k ≡ some p → eqb_ℤ (h.node p).node_id id ≡ false)
      → index_from h i ps map id ≡ map id
  unfolding index_from
  index_from_absent i [] map id absent = refl
  index_from_absent i (p ∷ ps) map id absent =
      index_from_absent (suc i) ps (insert p i map) id (λ k. absent (suc k))
      ∙ simp (absent 0 p refl)

  other_id :
      {a b : ℤ} → ((eqb_ℤ a b ≡ true) ⊎ (eqb_ℤ a b ≡ false)) → (a ≡ b → ⊥) → eqb_ℤ a b ≡ false
  other_id {a} {b} (inl e) differ = absurd (differ ((eqb_ℤ_iff a b).0 e))
  other_id (inr e) differ = e

  index_from_found :
      (i k : ℕ) (ps : List ℕ) (map : IndexMap) (q : ℕ)
      → DistinctIds h ps
      → get_elem? ps k ≡ some q
      → index_from h i ps map (h.node q).node_id ≡ some (i + k)
  unfolding index_from
  index_from_found i k [] map q distinct found = cc
  index_from_found i zero (p ∷ ps) map q distinct found =
      let same : p ≡ q = ground arith in
      index_from_absent (suc i) ps (insert p i map) (h.node q).node_id (λ l r at.
        other_id (Bool-cases (eqb_ℤ (h.node r).node_id (h.node q).node_id))
          (λ (e : (h.node r).node_id ≡ (h.node q).node_id).
            absurd (omega (arith, distinct 0 (suc l) q r found at (sym e)))))
      ∙ rw same (simp (eqb_ℤ_refl (h.node q).node_id) (ap some (omega arith)))
  index_from_found i (suc k) (p ∷ ps) map q distinct found =
      index_from_found (suc i) k ps (insert p i map) q
        (λ a b x y fa fb e. ground (arith, distinct (suc a) (suc b) x y fa fb e)) found
      ∙ ap some (omega arith)

  -- A live pointer to the `j`-th node resolves to `j`.
  pub resolve_found :
      (nodes : List ℕ) (j q : ℕ)
      → DistinctIds h nodes
      → h.alive q ≡ true
      → get_elem? nodes j ≡ some q
      → resolve h (index_nodes h nodes) q ≡ some j
  unfolding resolve index_nodes
  resolve_found nodes j q distinct live found =
      rw live (index_from_found 0 j nodes (λ id. none) q distinct found ∙ ap some (omega arith))

  resolve_all_sound :
      (map : IndexMap) (ps : List ℕ) (v : ℕ)
      → 0 < count v (resolve_all h map ps)
      → (q : ℕ) × In q ps × (resolve h map q ≡ some v)
  unfolding resolve_all
  resolve_all_sound map [] v up = absurd (omega arith)
  resolve_all_sound map (p ∷ ps) v up = elim (Option-cases (resolve h map p)) [
    | inl e ↦ let (q, m, found) = resolve_all_sound map ps v (rw e at up) in (q, inr m, found)
    | inr (j, e) ↦ elim (Bool-cases (j == v)) [
      | inl here ↦ let same : j ≡ v = ground (arith, here) in (p, inl refl, e ∙ ap some same)
      | inr there ↦
          let (q, m, found) = resolve_all_sound map ps v (simp (e, there, zero-add) at up) in
          (q, inr m, found)
    ]
  ]

  resolve_all_complete :
      (map : IndexMap) (ps : List ℕ) (v q : ℕ)
      → In q ps
      → resolve h map q ≡ some v
      → 0 < count v (resolve_all h map ps)
  unfolding resolve_all
  resolve_all_complete map [] v q m e = absurd m
  resolve_all_complete map (p ∷ ps) v q (inl same) e =
      rw (ap (resolve h map) same ∙ e) (ground arith)
  resolve_all_complete map (p ∷ ps) v q (inr m) e = ground (
    arith,
    count-append v (to_list (resolve h map p)) (resolve_all h map ps),
    resolve_all_complete map ps v q m e,
  )

  -- An edge starts at a node of the list.
  pub edge_source :
      (nodes : List ℕ) (u v : ℕ)
      → 0 < edges (build_adjacency_lists h nodes).successors u v
      → (p : ℕ) × (get_elem? nodes u ≡ some p)
  edge_source nodes u v edge = elim (Option-cases (get_elem? nodes u)) [
    | inl e ↦
        let size = (build-IsGraph h nodes).size in
        let out = length-le_of_get_elem? nodes u e in
        let empty =
          get_or_out (build_adjacency_lists h nodes).successors u [] (omega (arith, size, out)) in
        absurd (omega (arith, ap (count v) empty))
    | inr found ↦ found
  ]

  -- An edge of the built graph is a live pointer between two of its nodes.
  pub edge_pointer :
      (nodes : List ℕ) (u p v : ℕ)
      → get_elem? nodes u ≡ some p
      → 0 < edges (build_adjacency_lists h nodes).successors u v
      → (q : ℕ) × In q (h.node p).successors × (resolve h (index_nodes h nodes) q ≡ some v)
  edge_pointer nodes u p v at edge =
      resolve_all_sound (index_nodes h nodes) (h.node p).successors v
        (rw (build-list h nodes u p at) at edge)

  pub pointer_edge :
      (nodes : List ℕ) (u p v q : ℕ)
      → get_elem? nodes u ≡ some p
      → In q (h.node p).successors
      → resolve h (index_nodes h nodes) q ≡ some v
      → 0 < edges (build_adjacency_lists h nodes).successors u v
  pointer_edge nodes u p v q at m e =
      rw (build-list h nodes u p at)
        (resolve_all_complete (index_nodes h nodes) (h.node p).successors v q m e)
