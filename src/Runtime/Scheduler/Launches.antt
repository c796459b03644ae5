-- ===== src/Runtime/Scheduler/Launches.antt =====
-- The scheduler launches the nodes of a sound graph in the order of the graph, each once.
use fluidloom.Prelude.{
  ℕ, ◌<◌, ◌≡◌, refl, sym, ap, ◌∙◌, inl, inr, List, [], ◌∷◌, ◌++◌, append_assoc, append-nil, map,
  arith, String, get_elem?, length, count, length-le_of_get_elem?, Option, none, some, Option-cases,
  ok,
}
use mathlib.Core.List.{map-append}
use fluidloom.Runtime.Node.{Heap}
use fluidloom.Runtime.Graph.{DependencyGraph, get_node}
use fluidloom.Runtime.Scheduler.{
  Device, Command, Run, launch, execute_order, drain, execute_in_order,
}
use fluidloom.Runtime.Scheduler.Waits.{Right, launch-Right}

abbrev pub at_place : Option ℕ → List ℕ
at_place none = []
at_place (some p) = p ∷ []

-- The nodes at the places that a list names.
unfoldable pub nodes_at : List ℕ → List ℕ → List ℕ
nodes_at nodes [] = []
nodes_at nodes (i ∷ is) = at_place (get_elem? nodes i) ++ nodes_at nodes is

module _ (d : Device) where
  abbrev pub launched_nodes : List (Command d) → List ℕ
  launched_nodes cs = map (λ c. c.node) cs

  -- The commands of a queue take effect as their nodes do.
  pub drain_lem :
      (cs : List (Command d)) (memory : String → d.Value)
      → drain d cs memory ≡ execute_in_order d (launched_nodes cs) memory
  unfolding drain execute_in_order
  drain_lem [] memory = refl
  drain_lem (c ∷ cs) memory = drain_lem cs (d.effect c.node memory)

  launch_launched :
      (h : Heap) (p : ℕ) (r : Run d)
      → launched_nodes (launch d h p r).queue ≡ launched_nodes r.queue ++ p ∷ []
  unfolding launch
  launch_launched h p r = map-append _ r.queue _

  pub execute_order_returns :
      (h : Heap) (g : DependencyGraph) (order : List ℕ) (r : Run d)
      → ((i : ℕ) → 0 < count i order → i < length g.nodes)
      → Right d h r
      → (r' : Run d) × (execute_order d h g order r ≡ ok r')
        × Right d h r'
        × (launched_nodes r'.queue ≡ launched_nodes r.queue ++ nodes_at g.nodes order)
  unfolding execute_order get_node nodes_at
  execute_order_returns h g [] r inside right =
      (r, refl, right, sym (append-nil (launched_nodes r.queue)))
  execute_order_returns h g (i ∷ is) r inside right = elim (Option-cases (get_elem? g.nodes i)) [
    | inl e ↦ absurd (omega (arith, length-le_of_get_elem? g.nodes i e, inside i (ground arith)))
    | inr (p, e) ↦
        let (r', ends, right', launches) =
          execute_order_returns h g is (launch d h p r) (λ j up. inside j (ground (arith, up)))
            (launch-Right d h p r right) in
        (
          r',
          simp (e, get_node) ends,
          right',
          rw e (
              launches
              ∙ ap (λ l. l ++ nodes_at g.nodes is) (launch_launched h p r)
              ∙ append_assoc (launched_nodes r.queue) (p ∷ []) (nodes_at g.nodes is)),
        )
  ]
