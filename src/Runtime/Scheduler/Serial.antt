-- ===== src/Runtime/Scheduler/Serial.antt =====
-- Executing the planned graph leaves the fields as `ExecutionGraph::execute` does, which runs the
-- nodes in the order in which they were added.
use mathlib.Core.Path.{fun_ext}
use fluidloom.Prelude.{
  ℕ, zero, suc, ◌<◌, ◌≡◌, refl, sym, ap, ◌∙◌, inl, inr, ◌⊎◌, List, [], ◌∷◌, ◌++◌, append_assoc,
  length-append, map, arith, get_elem?, length, Option, none, some, Option-cases, String, Bool,
  true, false, Bool-cases, ok,
}
use fluidloom.Runtime.Node.{Heap, reads_field, writes_field}
use fluidloom.Runtime.Hazards.{HazardType, raw, waw, war, hazard, analyze_nodes, enforce_hazards}
use fluidloom.Runtime.Hazards.Exact.{Conflict}
use fluidloom.Runtime.Graph.{DependencyGraph, construct}
use fluidloom.Runtime.Graph.Valid.{construct-IsSound, get_topological_order_returns}
use fluidloom.Runtime.Plan.{Prepared, schedule-Respects}
use fluidloom.Runtime.Scheduler.{Device, Run, execute, drain, execute_in_order, idle}
use fluidloom.Runtime.Scheduler.Waits.{AllWait, idle-Right}
use fluidloom.Runtime.Scheduler.Launches.{nodes_at, drain_lem, execute_order_returns}
use fluidloom.Runtime.Scheduler.Reorder.{ascending, run, reorder}

-- A node changes only the fields that it declares to write, by the values of the fields that it
-- declares to read or write.
pub record Confined (d : Device) (h : Heap) : Type 0 where
  pub untouched :
      (p : ℕ) (m : String → d.Value) (f : String)
      → writes_field (h.node p) f ≡ false
      → d.effect p m f ≡ m f
  pub determined :
      (p : ℕ) (m m' : String → d.Value)
      → ((f : String)
          → (reads_field (h.node p) f ≡ true) ⊎ (writes_field (h.node p) f ≡ true)
          → m f ≡ m' f)
      → (f : String) → writes_field (h.node p) f ≡ true
      → d.effect p m f ≡ d.effect p m' f

module _ (d : Device) (h : Heap) (confined : Confined d h) where
  -- `q` writes nothing that `p` reads or writes.
  abbrev Spares : ℕ → ℕ → Type 0
  Spares q p =
      (f : String)
      → (reads_field (h.node p) f ≡ true) ⊎ (writes_field (h.node p) f ≡ true)
      → writes_field (h.node q) f ≡ false

  effect_after :
      (p q : ℕ) (m : String → d.Value) (f : String)
      → Spares q p
      → writes_field (h.node p) f ≡ true
      → d.effect p (d.effect q m) f ≡ d.effect p m f
  effect_after p q m f spares w =
      confined.determined p (d.effect q m) m (λ g used. confined.untouched q m g (spares g used)) f
        w

  effects_commute :
      (p q : ℕ) (m : String → d.Value)
      → Spares q p
      → Spares p q
      → d.effect p (d.effect q m) ≡ d.effect q (d.effect p m)
  effects_commute p q m sp sq = fun_ext (λ f. at f)
    where
      at : (f : String) → d.effect p (d.effect q m) f ≡ d.effect q (d.effect p m) f
      at f = elim (Bool-cases (writes_field (h.node p) f)) [
        | inl wp ↦
            effect_after p q m f sp wp ∙ sym (confined.untouched q (d.effect p m) f (sp f (inr wp)))
        | inr np ↦ elim (Bool-cases (writes_field (h.node q) f)) [
          | inl wq ↦ confined.untouched p (d.effect q m) f np ∙ sym (effect_after q p m f sq wq)
          | inr nq ↦
              confined.untouched p (d.effect q m) f np
              ∙ confined.untouched q m f nq
              ∙ sym (confined.untouched q (d.effect p m) f nq ∙ confined.untouched p m f np)
        ]
      ]

  module _ (nodes : List ℕ) where
    abbrev Conflicts : ℕ → ℕ → Type 0
    Conflicts i j = (f : String) × (t : HazardType) × Conflict (map h.node nodes) (hazard i j f t)

    place_step : Option ℕ → (String → d.Value) → String → d.Value
    place_step none m = m
    place_step (some p) m = d.effect p m

    abbrev step : ℕ → (String → d.Value) → String → d.Value
    step i m = place_step (get_elem? nodes i) m

    not_true : {b : Bool} → (b ≡ true → ⊥) → b ≡ false
    not_true {b} n = elim (Bool-cases b) [ inl e ↦ absurd (n e) | inr e ↦ e ]

    get_elem?-map_node :
        (ns : List ℕ) (i p : ℕ)
        → get_elem? ns i ≡ some p
        → get_elem? (map h.node ns) i ≡ some (h.node p)
    get_elem?-map_node [] i p e = absurd (cc)
    get_elem?-map_node (n ∷ ns) zero p e = ap some (ap h.node (some_inj e))
      where
        some_inj : {a b : ℕ} → some a ≡ some b → a ≡ b
        some_inj e = cc
    get_elem?-map_node (n ∷ ns) (suc i) p e = get_elem?-map_node ns i p e

    steps_commute :
        (i j : ℕ) (m : String → d.Value)
        → i < j
        → ¬ Conflicts i j
        → step i (step j m) ≡ step j (step i m)
    unfolding place_step
    steps_commute i j m lt free = elim (Option-cases (get_elem? nodes i)) [
      | inl ei ↦ rw ei refl
      | inr (p, ei) ↦ elim (Option-cases (get_elem? nodes j)) [
        | inl ej ↦ rw ej refl
        | inr (q, ej) ↦
            let fi = get_elem?-map_node nodes i p ei in
            let fj = get_elem?-map_node nodes j q ej in
            let later_spares : Spares q p = λ f used. not_true (λ w. elim used [
              | inl r ↦ free (f, war, (h.node p, h.node q, fi, fj, lt, (r, w)))
              | inr w' ↦ free (f, waw, (h.node p, h.node q, fi, fj, lt, (w', w)))
            ]) in
            let earlier_spares : Spares p q = λ f used. not_true (λ w. elim used [
              | inl r ↦ free (f, raw, (h.node p, h.node q, fi, fj, lt, (w, r)))
              | inr w' ↦ free (f, waw, (h.node p, h.node q, fi, fj, lt, (w, w')))
            ]) in
            rw (ei, ej) (effects_commute p q m later_spares earlier_spares)
      ]
    ]

    run_places :
        (order : List ℕ) (m : String → d.Value)
        → execute_in_order d (nodes_at nodes order) m ≡ run step order m
    unfolding run nodes_at execute_in_order place_step
    run_places [] m = refl
    run_places (i ∷ is) m = elim (Option-cases (get_elem? nodes i)) [
      | inl e ↦ rw e (run_places is m)
      | inr (p, e) ↦ rw e (run_places is (d.effect p m))
    ]

get_elem?-append :
    (front back : List ℕ) (p : ℕ) → get_elem? (front ++ p ∷ back) (length front) ≡ some p
get_elem?-append [] back p = refl
get_elem?-append (x ∷ front) back p = get_elem?-append front back p

-- The places k, k + 1, … of a list are its rest from `k` on.
nodes_at-ascending :
    (front back : List ℕ) (k : ℕ)
    → length front ≡ k
    → nodes_at (front ++ back) (ascending k (length back)) ≡ back
unfolding nodes_at ascending
nodes_at-ascending front [] k e = refl
nodes_at-ascending front (p ∷ back) k e =
    let here : get_elem? (front ++ p ∷ back) k ≡ some p =
      rw (← e) (get_elem?-append front back p) in
    let rest : nodes_at (front ++ p ∷ back) (ascending (suc k) (length back)) ≡ back =
      rw (← append_assoc front (p ∷ []) back) (
        nodes_at-ascending (front ++ p ∷ []) back (suc k)
          (omega (arith, e, length-append front (p ∷ [])))) in
    rw (here, rest) refl

-- On a device whose queue runs its commands in their order, and where nodes keep to the fields that
-- they declare, planning live nodes with distinct ids and no successors yet and executing their graph
-- succeeds, and when the queue is done every field is as executing the nodes one after the other in
-- their given order leaves it. Each command waits for the event of the last of its node's predecessors
-- that is alive, was executed before and returned one, and for nothing where there is none.
pub execute_serial :
    (d : Device) (h : Heap) (nodes : List ℕ) (memory : String → d.Value)
    → Confined d h
    → Prepared h nodes
    → (h' : Heap) × (g : DependencyGraph) × (r : Run d) × (enforce_hazards h nodes
          (analyze_nodes h nodes)
        ≡ some h')
      × (construct h' nodes ≡ ok g)
      × (execute d h' g ≡ ok r)
      × (drain d r.queue memory ≡ execute_in_order d nodes memory)
      × AllWait d h' [] r.queue
unfolding execute
execute_serial d h nodes memory confined prepared =
    let (h', g, enforced, built, respects) = schedule-Respects h nodes prepared in
    let sound = construct-IsSound h' nodes g built in
    let order = g.topological_order in
    let (r, ends, right, launches) =
      execute_order_returns d h' g order (idle d)
        (λ i up. rw sound.nodes_kept (ground (arith, sound.schedule.once i, up)))
        (idle-Right d h') in
    (
      h',
      g,
      r,
      enforced,
      built,
      simp (get_topological_order_returns h' nodes g built) ends,
      drain_lem d r.queue memory
          ∙ ap (λ l. execute_in_order d l memory) launches
          ∙ rw sound.nodes_kept (run_places d h confined nodes order memory)
          ∙ reorder (step d h confined nodes) (Conflicts d h confined nodes)
              (steps_commute d h confined nodes) (length nodes) order memory sound.schedule.once
              (λ i j (f, t, c). respects i j f t c)
          ∙ sym (run_places d h confined nodes (ascending 0 (length nodes)) memory)
          ∙ ap (λ l. execute_in_order d l memory) (nodes_at-ascending [] nodes 0 refl),
      right.waits,
    )
