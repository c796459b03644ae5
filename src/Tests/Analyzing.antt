-- ===== src/Tests/Analyzing.antt =====
-- The analysis of a kernel whose fields are registered, and of one that writes a field that is not.
use fluidloom.Prelude.{ℕ, ◌≡◌, refl, inl, List, [], ◌∷◌, some, String, true, false}
use fluidloom.Prelude.Dict.{lookup as find, insert}
use fluidloom.Fields.Descriptor.{FieldDescriptor, float32, arithmetic, zeroed, descriptor_valid}
use fluidloom.Fields.Manager.ById.{store}
use fluidloom.Fields.Registry.{
  FieldRegistry, new_registry, register_descriptor, register_all, lookup_by_name,
}
use fluidloom.Parsing.SymbolTable.{
  new_table, enter_scope, exit_scope, add_field, add_kernel, add_symbol, exists, lookup,
  lookup_from, scope_add,
}
use fluidloom.Parsing.SymbolTable.Stack.{replay}
use fluidloom.Parsing.Semantic.{
  KernelAst, SemanticAnalyzer, is_empty, analyze_kernel, validate_field_references, check_fields,
  bind_field, bind_reads, bind_writes, analyze_statement, analyze_statements,
}
use fluidloom.Parsing.Semantic.Accepts.{missing_fields, analyze_kernel_lem}
use fluidloom.Parsing.Semantic.Bound.{analyze_kernel-exists}

abbrev density : FieldDescriptor
density = record {
  id = 7;
  name = "density";
  type = float32;
  num_components = 1;
  halo_depth = 1;
  avg_rule = arithmetic;
  solid_scheme = zeroed;
  default_values = 1;
  is_visualization_field = false;
  is_mask = false;
  is_material = false;
  gpu_state = record { version = 0; bytes_allocated = 0; device_ptr = 0; is_dirty = false };
}

abbrev registry : FieldRegistry
registry = register_all (density ∷ []) new_registry

abbrev writing : List String → KernelAst ℕ
writing fields = record {
  name = "collide";
  read_fields = "density" ∷ [];
  write_fields = fields;
  halo_depth = 1;
  execution_mask = "";
  statements = 3 ∷ 4 ∷ [];
}

abbrev analyzer : SemanticAnalyzer
analyzer = record {
  symbol_table = replay [] new_table;
  field_registry = some registry;
  errors = [];
}

analyze_kernel_lem_example :
    let (answer, b) = analyze_kernel (writing ("pressure" ∷ [])) analyzer in
    (b.errors ≡ missing_fields (some registry) (writing ("pressure" ∷ [])))
    × (answer ≡ is_empty (missing_fields (some registry) (writing ("pressure" ∷ []))))
    × (b.field_registry ≡ some registry)
analyze_kernel_lem_example = analyze_kernel_lem (writing ("pressure" ∷ [])) analyzer

refused : (analyze_kernel (writing ("pressure" ∷ [])) analyzer).0 ≡ false
unfolding analyze_kernel validate_field_references check_fields lookup_by_name register_all
    register_descriptor descriptor_valid find insert store add_kernel add_symbol scope_add new_table
refused = refl

accepted : (analyze_kernel (writing ("density" ∷ [])) analyzer).0 ≡ true
unfolding analyze_kernel validate_field_references check_fields lookup_by_name register_all
    register_descriptor descriptor_valid find insert store add_kernel add_symbol scope_add new_table
    bind_reads bind_writes bind_field add_field exists lookup lookup_from enter_scope exit_scope
    analyze_statement analyze_statements replay
accepted = refl

analyze_kernel-exists_example :
    exists (analyze_kernel (writing ("density" ∷ [])) analyzer).1.symbol_table "density" ≡ true
analyze_kernel-exists_example =
    analyze_kernel-exists [] (writing ("density" ∷ [])) analyzer refl accepted "density"
      (inl (inl refl))
