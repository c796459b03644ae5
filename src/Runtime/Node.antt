-- ===== src/Runtime/Node.antt =====
-- `ExecutionNode` (include/fluidloom/runtime/nodes/ExecutionNode.h,
-- src/runtime/nodes/ExecutionNode.cpp) and the heap of shared nodes.
-- A `shared_ptr` or `weak_ptr` to a node is the node's address. `execute` is the parameter of the
-- modules that call it; the profiling time, a `double`, and the printers are left out.
use text.Mathlib.Text.{◌==◌ as str_eq}
use fluidloom.Prelude.{
  ℕ, String, Bool, false, List, [], ◌∷◌, ◌++◌, ◌||◌, ℤ, negsuc, ◌==◌, if◌then◌else◌,
}

pub data NodeType : Type 0 where
  kernel halo_exchange barrier adapt_mesh fused_kernel : NodeType

pub record ExecutionNode : Type 0 where
  pub node_id : ℤ
  pub node_name : String
  pub read_fields : List String
  pub write_fields : List String
  pub amr_level : ℤ
  pub halo_depth : ℕ
  pub execution_mask : String
  pub node_type : NodeType
  pub predecessors : List ℕ
  pub successors : List ℕ
  pub execution_count : ℕ
  pub is_profiling_enabled : Bool

-- The constructor, with the initial values of the fields.
abbrev pub execution_node : NodeType → String → ExecutionNode
execution_node type name = record {
  node_id = negsuc 0;
  node_name = name;
  read_fields = [];
  write_fields = [];
  amr_level = negsuc 0;
  halo_depth = 0;
  execution_mask = "";
  node_type = type;
  predecessors = [];
  successors = [];
  execution_count = 0;
  is_profiling_enabled = false;
}

abbrev pub set_id : ℤ → ExecutionNode → ExecutionNode
set_id id n = record n { node_id = id }

abbrev pub set_read_fields : List String → ExecutionNode → ExecutionNode
set_read_fields fields n = record n { read_fields = fields }

abbrev pub set_write_fields : List String → ExecutionNode → ExecutionNode
set_write_fields fields n = record n { write_fields = fields }

abbrev pub set_level : ℤ → ExecutionNode → ExecutionNode
set_level level n = record n { amr_level = level }

abbrev pub set_halo_depth : ℕ → ExecutionNode → ExecutionNode
set_halo_depth depth n = record n { halo_depth = depth }

abbrev pub add_predecessor : ℕ → ExecutionNode → ExecutionNode
add_predecessor p n = record n { predecessors = n.predecessors ++ p ∷ [] }

abbrev pub add_successor : ℕ → ExecutionNode → ExecutionNode
add_successor p n = record n { successors = n.successors ++ p ∷ [] }

-- `std::find` on a list of names.
unfoldable pub has_name : String → List String → Bool
has_name field [] = false
has_name field (f ∷ fs) = str_eq f field || has_name field fs

abbrev pub reads_field : ExecutionNode → String → Bool
reads_field n field = has_name field n.read_fields

abbrev pub writes_field : ExecutionNode → String → Bool
writes_field n field = has_name field n.write_fields

-- `alive p` says whether a `weak_ptr` to `p` can be locked.
pub record Heap : Type 0 where
  pub node : ℕ → ExecutionNode
  pub alive : ℕ → Bool

-- A method that changes the node at `p`.
abbrev pub modify : ℕ → (ExecutionNode → ExecutionNode) → Heap → Heap
modify p change h = record h { node = λ q. if p == q then change (h.node p) else h.node q }
