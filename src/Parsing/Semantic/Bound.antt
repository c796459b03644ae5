-- ===== src/Parsing/Semantic/Bound.antt =====
-- After an analysis that succeeds, each field of the kernel is found in the symbol table.
use fluidloom.Prelude.{
  ◌≡◌, ◌⊎◌, refl, sym, ◌∙◌, subst, inl, inr, List, [], ◌∷◌, ◌++◌, append-nil, In, Option, none,
  some, Option-cases, String, true, Bool-cases, pos,
}
use fluidloom.Fields.Registry.{FieldRegistry, lookup_by_name}
use fluidloom.Parsing.SymbolTable.{
  SymbolTable, enter_scope, exit_scope, add_kernel, exists, new_table,
}
use fluidloom.Parsing.Semantic.Binds.{
  Found, Binds, exists-lookup, Binds-nothing, Binds-then, Binds-field, Binds-kernel, Binds-left,
  Binds-known,
}
use fluidloom.Parsing.Semantic.{
  KernelAst, SemanticAnalyzer, bind_field, bind_reads, bind_writes, validate_field_references,
  analyze_kernel, read_message, write_message,
}
use fluidloom.Parsing.Semantic.Accepts.{
  missing, Known, Known-tail, bind_field-Kept, bind_reads-Kept, validate-Kept, missing_fields-Known,
  empty_errors, analyze_statements_lem,
}
use fluidloom.Parsing.SymbolTable.Refines.{ShowsTable, lookup-Shows, new_stack, replay_new-Shows}
use fluidloom.Parsing.SymbolTable.Stack.{Call, replay, stack_after}

bind_field-Binds :
    (message : String → String) (reg : Option FieldRegistry) (name : String) (names : List String)
    (a : SemanticAnalyzer)
    → a.field_registry ≡ reg
    → Known message reg (name ∷ names)
    → Binds (name ∷ []) a.symbol_table (bind_field name a).symbol_table
unfolding bind_field missing
bind_field-Binds message none name names a e k =
    simp (e, bind_field) (Binds-field name (pos 1) a.symbol_table)
bind_field-Binds message (some r) name names a e k = elim (Option-cases (lookup_by_name name r)) [
  | inl absent ↦ absurd (cc (simp (absent, missing) at k))
  | inr (desc, found) ↦
      simp (e, found, bind_field) (Binds-field name (pos desc.num_components) a.symbol_table)
]

bind_reads-Binds :
    (message : String → String) (reg : Option FieldRegistry) (names : List String)
    (a : SemanticAnalyzer)
    → a.field_registry ≡ reg
    → Known message reg names
    → Binds names a.symbol_table (bind_reads names a).symbol_table
unfolding bind_reads
bind_reads-Binds message reg [] a e k = Binds-nothing a.symbol_table
bind_reads-Binds message reg (name ∷ names) a e k =
    let (same, reg_same) = bind_field-Kept message reg name names a e k in
    Binds-then (bind_field-Binds message reg name names a e k) (
      bind_reads-Binds message reg names (bind_field name a) (reg_same ∙ e)
        (Known-tail message reg name names k))

bind_writes-Binds :
    (message : String → String) (reg : Option FieldRegistry) (names : List String)
    (a : SemanticAnalyzer)
    → a.field_registry ≡ reg
    → Known message reg names
    → Binds names a.symbol_table (bind_writes names a).symbol_table
unfolding bind_writes
bind_writes-Binds message reg [] a e k = Binds-nothing a.symbol_table
bind_writes-Binds message reg (name ∷ names) a e k =
    let tail = Known-tail message reg name names k in
    elim (Bool-cases (exists a.symbol_table name)) [
      | inl there ↦
          simp (there, bind_writes)
            (Binds-then (Binds-known name a.symbol_table there)
              (bind_writes-Binds message reg names a e tail))
      | inr new ↦
          let (same, reg_same) = bind_field-Kept message reg name names a e k in
          simp (new, bind_writes)
            (Binds-then (bind_field-Binds message reg name names a e k)
              (bind_writes-Binds message reg names (bind_field name a) (reg_same ∙ e) tail))
    ]

analyze_kernel-Binds :
    {S : Type 0} (ast : KernelAst S) (a : SemanticAnalyzer)
    → (analyze_kernel ast a).0 ≡ true
    → Binds
        (ast.read_fields ++ ast.write_fields)
        a.symbol_table
        (analyze_kernel ast a).1.symbol_table
unfolding analyze_kernel
analyze_kernel-Binds ast a accepted =
    let named : SemanticAnalyzer = record a {
      symbol_table = (add_kernel ast.name a.symbol_table).1;
      errors = [];
    } in
    let checked = validate_field_references ast named in
    let (answer, errors, registry, table) = validate-Kept ast named refl in
    elim (Bool-cases checked.0) [
      | inr refused ↦ absurd (cc (simp (refused, analyze_kernel) at accepted))
      | inl valid ↦
          let clean = empty_errors checked.1.errors (sym answer ∙ valid) in
          let (reads, writes) = missing_fields-Known a.field_registry ast (sym errors ∙ clean) in
          let bound = bind_reads ast.read_fields checked.1 in
          let (kept, reg) =
            bind_reads-Kept read_message a.field_registry ast.read_fields checked.1 registry
              reads in
          let last = bind_writes ast.write_fields bound in
          let inner : SemanticAnalyzer = record last {
            symbol_table = enter_scope last.symbol_table;
          } in
          let still = analyze_statements_lem ast.statements inner in
          let first =
            subst (λ (t : SymbolTable). Binds [] a.symbol_table t) (sym table)
              (Binds-kernel ast.name a.symbol_table) in
          let both =
            Binds-then
              (bind_reads-Binds read_message a.field_registry ast.read_fields checked.1 registry
                reads)
              (bind_writes-Binds write_message a.field_registry ast.write_fields bound
                (reg ∙ registry) writes) in
          let fields = ast.read_fields ++ ast.write_fields in
          let left = exit_scope (enter_scope last.symbol_table) in
          let done =
            subst (λ (ns : List String). Binds ns a.symbol_table left) (append-nil fields)
              (Binds-then first (Binds-then both (Binds-left last.symbol_table))) in
          simp (valid, analyze_kernel)
            (subst
              (λ (b : SemanticAnalyzer). Binds fields a.symbol_table (exit_scope b.symbol_table))
              (sym still) done)
    ]

-- Where the analysis of a kernel succeeds on a symbol table that any calls made of a new one, each
-- field that the kernel reads or writes is in the symbol table afterwards, and no name that was in it
-- is lost.
pub analyze_kernel-exists :
    {S : Type 0} (calls : List Call) (ast : KernelAst S) (a : SemanticAnalyzer)
    → a.symbol_table ≡ replay calls new_table
    → (analyze_kernel ast a).0 ≡ true
    → (name : String)
    → In name (ast.read_fields ++ ast.write_fields) ⊎ (exists a.symbol_table name ≡ true)
    → exists (analyze_kernel ast a).1.symbol_table name ≡ true
analyze_kernel-exists calls ast a made accepted name known =
    let after = (analyze_kernel ast a).1.symbol_table in
    let b = analyze_kernel-Binds ast a accepted in
    let k = stack_after calls new_stack in
    let shows = subst (λ (t : SymbolTable). ShowsTable t k) (sym made) (replay_new-Shows calls) in
    let found : Found name (b.after k shows) = elim known [
      | inl field ↦ b.binds k shows name field
      | inr before ↦
          let (x, e) = (exists-lookup a.symbol_table name).0 before in
          b.keeps k shows name (x, sym (lookup-Shows a.symbol_table k name shows) ∙ e)
    ] in
    (exists-lookup after name).1
      (found.0, lookup-Shows after (b.after k shows) name (b.shows k shows) ∙ found.1)
