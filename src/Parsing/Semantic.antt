-- ===== src/Parsing/Semantic.antt =====
-- `SemanticAnalyzer` (src/parsing/semantic/SemanticAnalyzer.cpp,
-- include/fluidloom/parsing/semantic/SemanticAnalyzer.h) and the metadata of `KernelAST`
-- (include/fluidloom/parsing/ast/KernelAST.h). The analysis reads no part of a statement, whose type is
-- a parameter. `field_registry` is the registry of fields, or none for the null pointer.
pub mod Accepts
pub mod Binds
pub mod Bound
use Prim.Native.String.{◌++◌ as str_append}
use fluidloom.Prelude.{
  ℕ, List, [], ◌∷◌, ◌++◌, Option, none, some, String, Bool, true, false, if◌then◌else◌, pos,
}
use fluidloom.Fields.Descriptor.{FieldDescriptor}
use fluidloom.Fields.Registry.{FieldRegistry, lookup_by_name}
use fluidloom.Parsing.SymbolTable.{
  SymbolTable, enter_scope, exit_scope, add_field, add_kernel, exists,
}

pub record SemanticError : Type 0 where
  pub message : String
  pub line : ℕ
  pub column : ℕ

pub record KernelAst (S : Type 0) : Type 0 where
  pub name : String
  pub read_fields : List String
  pub write_fields : List String
  pub halo_depth : ℕ
  pub execution_mask : String
  pub statements : List S

pub record SemanticAnalyzer : Type 0 where
  pub symbol_table : SymbolTable
  pub field_registry : Option FieldRegistry
  pub errors : List SemanticError

abbrev pub semantic_error : String → SemanticError
semantic_error message = record { message = message; line = 0; column = 0 }

abbrev pub add_error : String → SemanticAnalyzer → SemanticAnalyzer
add_error message a = record a { errors = a.errors ++ semantic_error message ∷ [] }

abbrev pub clear_errors : SemanticAnalyzer → SemanticAnalyzer
clear_errors a = record a { errors = [] }

abbrev pub is_empty : List SemanticError → Bool
is_empty [] = true
is_empty (e ∷ es) = false

abbrev pub no_errors : SemanticAnalyzer → Bool
no_errors a = is_empty a.errors

-- `"Read field '" + field_name + "' not found in FieldRegistry"`, and so on.
abbrev pub quoted : String → String → String → String
quoted before name after = str_append (str_append before name) after

abbrev pub read_message : String → String
read_message name = quoted "Read field '" name "' not found in FieldRegistry"

abbrev pub write_message : String → String
write_message name = quoted "Write field '" name "' not found in FieldRegistry"

-- One of the two loops of `validateFieldReferences`.
unfoldable pub check_fields :
    (String → String) → FieldRegistry → List String → SemanticAnalyzer → SemanticAnalyzer
check_fields message r [] a = a
check_fields message r (name ∷ names) a = elim (lookup_by_name name r) [
  | some desc ↦ check_fields message r names a
  | none ↦ check_fields message r names (add_error (message name) a)
]

abbrev pub put_field : String → FieldDescriptor → SemanticAnalyzer → SemanticAnalyzer
put_field name desc a = record a {
  symbol_table = (add_field name (pos desc.num_components) a.symbol_table).1;
}

-- The step of the loop over the read fields.
unfoldable pub bind_field : String → SemanticAnalyzer → SemanticAnalyzer
bind_field name a = elim a.field_registry [
  | none ↦ record a { symbol_table = (add_field name (pos 1) a.symbol_table).1 }
  | some r ↦ elim (lookup_by_name name r) [
    | some desc ↦ put_field name desc a
    | none ↦ add_error (quoted "Field '" name "' not found in registry") a
  ]
]

unfoldable pub bind_reads : List String → SemanticAnalyzer → SemanticAnalyzer
bind_reads [] a = a
bind_reads (name ∷ names) a = bind_reads names (bind_field name a)

unfoldable pub bind_writes : List String → SemanticAnalyzer → SemanticAnalyzer
bind_writes [] a = a
bind_writes (name ∷ names) a =
    bind_writes names (if exists a.symbol_table name then a else bind_field name a)

module _ {S : Type 0} where
  unfoldable pub validate_field_references :
      KernelAst S → SemanticAnalyzer → Bool × SemanticAnalyzer
  validate_field_references kernel a = elim a.field_registry [
    | none ↦ (true, a)
    | some r ↦
        let reads = check_fields read_message r kernel.read_fields a in
        let writes = check_fields write_message r kernel.write_fields reads in
        (no_errors writes, writes)
  ]

  -- `analyzeStatement` has no effect yet.
  unfoldable pub analyze_statement : S → SemanticAnalyzer → SemanticAnalyzer
  analyze_statement stmt a = a

  unfoldable pub analyze_statements : List S → SemanticAnalyzer → SemanticAnalyzer
  analyze_statements [] a = a
  analyze_statements (s ∷ ss) a = analyze_statements ss (analyze_statement s a)

  unfoldable pub analyze_kernel : KernelAst S → SemanticAnalyzer → Bool × SemanticAnalyzer
  analyze_kernel kernel analyzer =
      let cleared = clear_errors analyzer in
      let named : SemanticAnalyzer = record cleared {
        symbol_table = (add_kernel kernel.name cleared.symbol_table).1;
      } in
      let validated = validate_field_references kernel named in
      let bound = bind_writes kernel.write_fields (bind_reads kernel.read_fields validated.1) in
      let inner : SemanticAnalyzer = record bound {
        symbol_table = enter_scope bound.symbol_table;
      } in
      let analyzed = analyze_statements kernel.statements inner in
      let left : SemanticAnalyzer = record analyzed {
        symbol_table = exit_scope analyzed.symbol_table;
      } in
      if validated.0 then (no_errors left, left) else (false, validated.1)

  unfoldable pub compute_halo_depth : KernelAst S → ℕ
  compute_halo_depth kernel = kernel.halo_depth
