-- ===== src/Runtime/Hazards/Exact.antt =====
-- The hazards that are reported are exactly the conflicts between an earlier and a later node.
use fluidloom.Prelude.{
  ℕ, ◌<◌, ◌≡◌, sym, subst, ◌⊎◌, inl, inr, ◌↔◌, true, false, List, [], arith, get_elem?, some,
  String, eqb_ℤ, In, map,
}
use fluidloom.Runtime.Node.{ExecutionNode, Heap, has_name, reads_field, writes_field}
use fluidloom.Runtime.Hazards.{
  HazardType, raw, waw, war, level_barrier, Hazard, hazard, detect, detect_raw, detect_waw,
  detect_war, negative, barriers_from, detect_level_barriers, analyze, analyze_nodes,
}
use fluidloom.Runtime.Hazards.Fields.{detect_sound, detect_keeps, detect_complete}
use fluidloom.Runtime.Hazards.Levels.{barriers_sound, barriers_keeps, barriers_complete}

-- What makes an earlier node `a` and a later node `b` conflict.
abbrev pub Clash : HazardType → String → ExecutionNode → ExecutionNode → Type 0
Clash raw f a b = (writes_field a f ≡ true) × (reads_field b f ≡ true)
Clash waw f a b = (writes_field a f ≡ true) × (writes_field b f ≡ true)
Clash war f a b = (reads_field a f ≡ true) × (writes_field b f ≡ true)
Clash level_barrier f a b =
    (f ≡ "")
    × (negative a.amr_level ≡ false)
    × (negative b.amr_level ≡ false)
    × (eqb_ℤ a.amr_level b.amr_level ≡ false)

abbrev pub Conflict : List ExecutionNode → Hazard → Type 0
Conflict nodes z =
    (a b : ExecutionNode) × (get_elem? nodes z.from_node_idx ≡ some a)
    × (get_elem? nodes z.to_node_idx ≡ some b)
    × (z.from_node_idx < z.to_node_idx)
    × Clash z.type z.field_name a b

module _ (nodes : List ExecutionNode) (i j : ℕ) (f : String) (t : HazardType) where
  abbrev z : Hazard
  z = hazard i j f t

  detect-Conflict :
      (t' : HazardType) (first second : ExecutionNode → List String) (acc : List Hazard)
      → ((a b : ExecutionNode)
          → has_name f (first a) ≡ true
          → has_name f (second b) ≡ true
          → Clash t' f a b)
      → In z (detect t' first second 0 nodes acc)
      → In z acc ⊎ Conflict nodes z
  detect-Conflict t' first second acc clash m =
      elim (detect_sound i j f t t' first second 0 nodes acc m) [
        | inl old ↦ inl old
        | inr (k, l, a, b, ei, ej, lt, fa, fb, et, hf, hs) ↦
            let ki : k ≡ i = omega arith in
            let lj : l ≡ j = omega arith in
            inr (
              a,
              b,
              rw ki at fa,
              rw lj at fb,
              omega arith,
              subst (λ x. Clash x f a b) et (clash a b hf hs),
            )
      ]

  barrier-Conflict :
      (acc : List Hazard) → In z (barriers_from 0 nodes acc) → In z acc ⊎ Conflict nodes z
  barrier-Conflict acc m = elim (barriers_sound i j f t 0 nodes acc m) [
    | inl old ↦ inl old
    | inr (k, l, a, b, ei, ej, lt, fa, fb, ef, et, sa, sb, differ) ↦
        let ki : k ≡ i = omega arith in
        let lj : l ≡ j = omega arith in
        inr (
          a,
          b,
          rw ki at fa,
          rw lj at fb,
          omega arith,
          subst (λ x. Clash x f a b) (sym et) (ef, sa, sb, differ),
        )
  ]

  analyze_sound : In z (analyze nodes) → Conflict nodes z
  unfolding analyze detect_raw detect_waw detect_war detect_level_barriers
  analyze_sound m = elim (barrier-Conflict _ m) [
    | inr c ↦ c
    | inl m₁ ↦ elim (detect-Conflict war _ _ _ (λ a b p q. (p, q)) m₁) [
      | inr c ↦ c
      | inl m₂ ↦ elim (detect-Conflict waw _ _ _ (λ a b p q. (p, q)) m₂) [
        | inr c ↦ c
        | inl m₃ ↦ elim (detect-Conflict raw _ _ [] (λ a b p q. (p, q)) m₃) [
          | inr c ↦ c
          | inl m₄ ↦ absurd m₄
        ]
      ]
    ]
  ]

  -- A report that one detector adds stays until the end.
  war_kept :
      (acc : List Hazard) → In z acc → In z (detect_level_barriers nodes (detect_war nodes acc))
  unfolding detect_war detect_level_barriers
  war_kept acc m = barriers_keeps i j f t 0 nodes _ (detect_keeps i j f t war _ _ 0 nodes acc m)

module _ (nodes : List ExecutionNode) (i j : ℕ) (f : String) where
  analyze_complete :
      (t : HazardType) → Conflict nodes (hazard i j f t) → In (hazard i j f t) (analyze nodes)
  unfolding analyze detect_raw detect_waw detect_war detect_level_barriers
  analyze_complete raw (a, b, fa, fb, lt, clash) = war_kept nodes i j f raw _ (
      detect_keeps i j f raw waw _ _ 0 nodes _ (
        detect_complete i j f raw _ _ 0 i j nodes a b [] (omega arith) (omega arith) lt fa fb
          clash.0 clash.1))
  analyze_complete waw (a, b, fa, fb, lt, clash) = war_kept nodes i j f waw _ (
      detect_complete i j f waw _ _ 0 i j nodes a b _ (omega arith) (omega arith) lt fa fb clash.0
        clash.1)
  analyze_complete war (a, b, fa, fb, lt, clash) = barriers_keeps i j f war 0 nodes _ (
      detect_complete i j f war _ _ 0 i j nodes a b _ (omega arith) (omega arith) lt fa fb clash.0
        clash.1)
  analyze_complete level_barrier (a, b, fa, fb, lt, (ef, sa, sb, differ)) =
      subst (λ x. In (hazard i j x level_barrier) (analyze nodes)) (sym ef)
        (barriers_complete i j 0 i j nodes a b _ (omega arith) (omega arith) lt fa fb sa sb differ)

-- `analyzeNodes` reports a hazard exactly where an earlier and a later node of the list conflict.
pub analyze_nodes_exact :
    (h : Heap) (nodes : List ℕ) (i j : ℕ) (f : String) (t : HazardType)
    → In (hazard i j f t) (analyze_nodes h nodes) ↔ Conflict (map h.node nodes) (hazard i j f t)
unfolding analyze_nodes
analyze_nodes_exact h nodes i j f t =
    let list = map h.node nodes in (analyze_sound list i j f t, analyze_complete list i j f t)
