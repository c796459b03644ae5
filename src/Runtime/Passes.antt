-- ===== src/Runtime/Passes.antt =====
-- `LevelAwareSorter::insertLevelBarriers` (src/runtime/scheduler/LevelAwareSorter.cpp) and
-- `HaloInserter::insertHaloExchanges` (src/runtime/scheduler/HaloInserter.cpp), with the
-- constructors of `BarrierNode` and `HaloExchangeNode` (include/fluidloom/runtime/nodes).
-- `make_shared` takes the next address. The fields of the derived classes are left out: the kind of
-- a barrier, and the list of the halo fields, which equals the fields that are read.
pub mod Inserted
pub mod Barriers
pub mod Served
pub mod Halos
use Prim.Native.String.{◌++◌ as str_append}
use fluidloom.Prelude.{
  ℕ, zero, suc, ◌+◌, ◌/◌, ◌%◌, List, [], ◌∷◌, String, Bool, true, false, not, ◌&&◌, get_or, ltb,
  ◌==◌, if◌then◌else◌, ℤ, pos, negsuc, eqb_ℤ, ltb_ℤ,
}
use fluidloom.Runtime.Node.{
  NodeType, kernel, halo_exchange, barrier, adapt_mesh, fused_kernel, ExecutionNode, execution_node,
  set_read_fields, set_write_fields, set_halo_depth, add_predecessor, add_successor, Heap, modify,
}

-- The heap and the next address.
pub record Store : Type 0 where
  pub heap : Heap
  pub next : ℕ

abbrev pub put : ℕ → ExecutionNode → Heap → Heap
put p n h = record {
  node = λ q. if p == q then n else h.node q;
  alive = λ q. if p == q then true else h.alive q;
}

abbrev pub allocate : ExecutionNode → Store → Store
allocate n st = record { heap = put st.next n st.heap; next = suc st.next }

abbrev pub digit : ℕ → String
digit d = get_or ("0" ∷ "1" ∷ "2" ∷ "3" ∷ "4" ∷ "5" ∷ "6" ∷ "7" ∷ "8" ∷ "9" ∷ []) d ""

-- `std::to_string` of an `int8_t`, which has at most three digits.
abbrev pub number : ℕ → String
number n =
    if ltb n 10
    then digit n
    else if ltb n 100
    then str_append (digit (n / 10)) (digit (n % 10))
    else str_append (digit (n / 100)) (str_append (digit (n / 10 % 10)) (digit (n % 10)))

abbrev pub to_string : ℤ → String
to_string (pos n) = number n
to_string (negsuc n) = str_append "-" (number (n + 1))

abbrev pub level_barrier_node : ℤ → ℤ → ExecutionNode
level_barrier_node from to = set_halo_depth 0 (
    execution_node barrier
      (str_append "LevelBarrier_" (str_append (to_string from) (str_append "_to_" (to_string to)))))

unfoldable pub level_changes : ℤ → ℤ → Bool
level_changes current_level node_level =
    not (eqb_ℤ node_level current_level)
    && (not (ltb_ℤ current_level (pos 0)) && not (ltb_ℤ node_level (pos 0)))

-- The loop of `insertLevelBarriers`: the rest of the result, and the store.
unfoldable pub barrier_loop : ℤ → List ℕ → Store → List ℕ × Store
barrier_loop current_level [] st = ([], st)
barrier_loop current_level (p ∷ ps) st =
    elim (level_changes current_level (st.heap.node p).amr_level) [
      | true ↦
          let level = (st.heap.node p).amr_level in
          let rest = barrier_loop level ps (allocate (level_barrier_node current_level level) st) in
          (st.next ∷ p ∷ rest.0, rest.1)
      | false ↦ let rest = barrier_loop current_level ps st in (p ∷ rest.0, rest.1)
    ]

unfoldable pub insert_level_barriers : List ℕ → Store → List ℕ × Store
insert_level_barriers [] st = ([], st)
insert_level_barriers (p ∷ ps) st = barrier_loop (st.heap.node p).amr_level (p ∷ ps) st

abbrev pub halo_node : ExecutionNode → ExecutionNode
halo_node n = set_write_fields n.read_fields (
    set_read_fields n.read_fields
      (set_halo_depth 0 (execution_node halo_exchange (str_append "Halo_" n.node_name))))

abbrev pub is_kernel : NodeType → Bool
is_kernel kernel = true
is_kernel halo_exchange = false
is_kernel barrier = false
is_kernel adapt_mesh = false
is_kernel fused_kernel = false

unfoldable pub needs_halo : ExecutionNode → Bool
needs_halo n = ltb 0 n.halo_depth && is_kernel n.node_type

-- The halo node for the node at `p`, and the edge between them.
abbrev pub add_halo : ℕ → Store → Store
add_halo p st =
    let created = allocate (halo_node (st.heap.node p)) st in
    record created {
      heap = modify p (add_predecessor st.next) (modify st.next (add_successor p) created.heap);
    }

unfoldable pub insert_halo_exchanges : List ℕ → Store → List ℕ × Store
insert_halo_exchanges [] st = ([], st)
insert_halo_exchanges (p ∷ ps) st = elim (needs_halo (st.heap.node p)) [
  | true ↦ let rest = insert_halo_exchanges ps (add_halo p st) in (st.next ∷ p ∷ rest.0, rest.1)
  | false ↦ let rest = insert_halo_exchanges ps st in (p ∷ rest.0, rest.1)
]
