-- ===== src/Tests/Inserting.antt =====
-- Three kernels at the levels 0, 1 and 1, two of them with a halo.
use fluidloom.Prelude.{
  ℕ, ◌≡◌, refl, inl, inr, arith, List, [], ◌∷◌, none, some, true, ◌==◌, if◌then◌else◌, ℤ, pos,
  negsuc,
}
use fluidloom.Runtime.Node.{
  kernel, ExecutionNode, execution_node, set_id, set_read_fields, set_level, set_halo_depth,
}
use fluidloom.Runtime.Graph.Build.{index_nodes, index_from, resolve}
use fluidloom.Runtime.Passes.{
  Store, insert_level_barriers, barrier_loop, level_changes, insert_halo_exchanges, needs_halo,
}
use fluidloom.Runtime.Passes.Inserted.{Known, Levelled, Inserted}
use fluidloom.Runtime.Passes.Barriers.{insert_level_barriers-Inserted, insert_level_barriers_none}
use fluidloom.Runtime.Passes.Served.{Haloed}
use fluidloom.Runtime.Passes.Halos.{insert_halo_exchanges-Haloed}

abbrev node_of : ℤ → ℕ → ExecutionNode
node_of first p = set_id (pos p) (
    set_level (if p == 0 then first else pos 1) (
      set_halo_depth (if p == 0 then 0 else 1)
        (set_read_fields ("rho" ∷ []) (execution_node kernel "step"))))

abbrev levels : ℤ → Store
levels first = record { heap = record { node = node_of first; alive = λ p. true }; next = 3 }

abbrev steps : List ℕ
steps = 0 ∷ 1 ∷ 2 ∷ []

steps-Known : Known steps 3
steps-Known p m = elim m [
  | inl e ↦ omega (arith, e)
  | inr m' ↦ elim m' [
    | inl e ↦ omega (arith, e)
    | inr m'' ↦ elim m'' [ inl e ↦ omega (arith, e) | inr none_left ↦ absurd none_left ]
  ]
]

steps-Levelled : Levelled (levels (pos 0)).heap steps
steps-Levelled p m = ground arith

insert_level_barriers-Inserted_example :
    Inserted
      (some (pos 0))
      steps
      (levels (pos 0))
      (insert_level_barriers steps (levels (pos 0))).0
      (insert_level_barriers steps (levels (pos 0))).1
insert_level_barriers-Inserted_example =
    insert_level_barriers-Inserted steps (levels (pos 0)) steps-Known steps-Levelled

barriers_run : (insert_level_barriers steps (levels (pos 0))).0 ≡ 0 ∷ 3 ∷ 1 ∷ 2 ∷ []
unfolding insert_level_barriers barrier_loop level_changes
barriers_run = refl

insert_level_barriers_none_example :
    insert_level_barriers steps (levels (negsuc 0)) ≡ (steps, levels (negsuc 0))
insert_level_barriers_none_example =
    insert_level_barriers_none 0 (1 ∷ 2 ∷ []) (levels (negsuc 0)) refl

insert_halo_exchanges-Haloed_example :
    Haloed none steps
      (levels (pos 0))
      (insert_halo_exchanges steps (levels (pos 0))).0
      (insert_halo_exchanges steps (levels (pos 0))).1
insert_halo_exchanges-Haloed_example =
    insert_halo_exchanges-Haloed none steps (levels (pos 0)) steps-Known

halos_run : (insert_halo_exchanges steps (levels (pos 0))).0 ≡ 0 ∷ 3 ∷ 1 ∷ 4 ∷ 2 ∷ []
unfolding insert_halo_exchanges needs_halo
halos_run = refl

-- Both halo nodes have the id -1, so a pointer to the first leads to the second.
halos_share_id :
    let r = insert_halo_exchanges steps (levels (pos 0)) in
    resolve r.1.heap (index_nodes r.1.heap r.0) 3 ≡ some 3
unfolding insert_halo_exchanges needs_halo resolve index_nodes index_from
halos_share_id = refl
