-- ===== src/Parsing/Semantic/Accepts.antt =====
-- The errors of an analysis are the fields that are not registered.
use fluidloom.Prelude.{
  ◌≡◌, refl, sym, ap, ◌∙◌, inl, inr, List, [], ◌∷◌, ◌++◌, append_assoc, append-nil, Option, none,
  some, Option-cases, String, true, Bool-cases,
}
use fluidloom.Fields.Registry.{FieldRegistry, lookup_by_name}
use fluidloom.Parsing.SymbolTable.{exists, add_kernel, enter_scope}
use fluidloom.Parsing.Semantic.{
  SemanticError, KernelAst, SemanticAnalyzer, semantic_error, add_error, is_empty, no_errors,
  read_message, write_message, check_fields, bind_field, bind_reads, bind_writes,
  validate_field_references, analyze_statement, analyze_statements, analyze_kernel,
}

-- One error for each name that the registry does not have, in order.
unfoldable pub missing : (String → String) → FieldRegistry → List String → List SemanticError
missing message r [] = []
missing message r (name ∷ names) = elim (lookup_by_name name r) [
  | some desc ↦ missing message r names
  | none ↦ semantic_error (message name) ∷ missing message r names
]

abbrev pub missing_fields : {S : Type 0} → Option FieldRegistry → KernelAst S → List SemanticError
missing_fields none kernel = []
missing_fields (some r) kernel =
    missing read_message r kernel.read_fields ++ missing write_message r kernel.write_fields

check_fields_lem :
    (message : String → String) (r : FieldRegistry) (names : List String) (a : SemanticAnalyzer)
    → check_fields message r names a ≡ record a { errors = a.errors ++ missing message r names }
unfolding check_fields missing
check_fields_lem message r [] a =
    ap (λ (es : List SemanticError). record a { errors = es }) (sym (append-nil a.errors))
check_fields_lem message r (name ∷ names) a = elim (Option-cases (lookup_by_name name r)) [
  | inl absent ↦
      let here = semantic_error (message name) in
      let rest = check_fields_lem message r names (add_error (message name) a) in
      let shifted = append_assoc a.errors (here ∷ []) (missing message r names) in
      simp (absent, check_fields, missing)
        (rest ∙ ap (λ (es : List SemanticError). record a { errors = es }) shifted)
  | inr (desc, found) ↦ simp (found, check_fields, missing) (check_fields_lem message r names a)
]

abbrev pub Known : (String → String) → Option FieldRegistry → List String → Type 0
Known message none names = Unit
Known message (some r) names = missing message r names ≡ []

pub Known-tail :
    (message : String → String) (reg : Option FieldRegistry) (name : String) (names : List String)
    → Known message reg (name ∷ names)
    → Known message reg names
unfolding missing
Known-tail message none name names k = tt
Known-tail message (some r) name names k = elim (Option-cases (lookup_by_name name r)) [
  | inl absent ↦ absurd (cc (simp (absent, missing) at k))
  | inr (desc, found) ↦ simp (found, missing) at k
]

-- Neither the errors nor the registry change.
abbrev pub Kept : SemanticAnalyzer → SemanticAnalyzer → Type 0
Kept a b = (b.errors ≡ a.errors) × (b.field_registry ≡ a.field_registry)

pub bind_field-Kept :
    (message : String → String) (reg : Option FieldRegistry) (name : String) (names : List String)
    (a : SemanticAnalyzer)
    → a.field_registry ≡ reg
    → Known message reg (name ∷ names)
    → Kept a (bind_field name a)
unfolding bind_field missing
bind_field-Kept message none name names a e k = simp (e, bind_field) (refl, refl)
bind_field-Kept message (some r) name names a e k = elim (Option-cases (lookup_by_name name r)) [
  | inl absent ↦ absurd (cc (simp (absent, missing) at k))
  | inr (desc, found) ↦ simp (e, found, bind_field) (refl, refl)
]

pub bind_reads-Kept :
    (message : String → String) (reg : Option FieldRegistry) (names : List String)
    (a : SemanticAnalyzer)
    → a.field_registry ≡ reg
    → Known message reg names
    → Kept a (bind_reads names a)
unfolding bind_reads
bind_reads-Kept message reg [] a e k = (refl, refl)
bind_reads-Kept message reg (name ∷ names) a e k =
    let (same, reg_same) = bind_field-Kept message reg name names a e k in
    let (same', reg_same') =
      bind_reads-Kept message reg names (bind_field name a) (reg_same ∙ e)
        (Known-tail message reg name names k) in
    (same' ∙ same, reg_same' ∙ reg_same)

bind_writes-Kept :
    (message : String → String) (reg : Option FieldRegistry) (names : List String)
    (a : SemanticAnalyzer)
    → a.field_registry ≡ reg
    → Known message reg names
    → Kept a (bind_writes names a)
unfolding bind_writes
bind_writes-Kept message reg [] a e k = (refl, refl)
bind_writes-Kept message reg (name ∷ names) a e k =
    let tail = Known-tail message reg name names k in
    elim (Bool-cases (exists a.symbol_table name)) [
      | inl there ↦ simp (there, bind_writes) (bind_writes-Kept message reg names a e tail)
      | inr new ↦
          let (same, reg_same) = bind_field-Kept message reg name names a e k in
          let (same', reg_same') =
            bind_writes-Kept message reg names (bind_field name a) (reg_same ∙ e) tail in
          simp (new, bind_writes) (same' ∙ same, reg_same' ∙ reg_same)
    ]

empty_left : {A : Type 0} (xs ys : List A) → xs ++ ys ≡ [] → xs ≡ []
empty_left [] ys e = refl
empty_left (x ∷ xs) ys e = absurd (cc)

empty_right : {A : Type 0} (xs ys : List A) → xs ++ ys ≡ [] → ys ≡ []
empty_right [] ys e = e
empty_right (x ∷ xs) ys e = absurd (cc)

pub empty_errors : (es : List SemanticError) → is_empty es ≡ true → es ≡ []
empty_errors [] e = refl
empty_errors (x ∷ es) e = absurd (cc)

module _ {S : Type 0} where
  pub validate-Kept :
      (kernel : KernelAst S) (a : SemanticAnalyzer)
      → a.errors ≡ []
      → let checked = validate_field_references kernel a in
        (checked.0 ≡ no_errors checked.1)
        × (checked.1.errors ≡ missing_fields a.field_registry kernel)
        × (checked.1.field_registry ≡ a.field_registry)
        × (checked.1.symbol_table ≡ a.symbol_table)
  unfolding validate_field_references
  validate-Kept kernel a clear = elim (Option-cases a.field_registry) [
    | inl null ↦ simp (null, validate_field_references) (ap is_empty (sym clear), clear, refl, refl)
    | inr (r, e) ↦
        let read = check_fields read_message r kernel.read_fields a in
        let reads = check_fields_lem read_message r kernel.read_fields a in
        let writes = check_fields_lem write_message r kernel.write_fields read in
        let first = ap (λ (b : SemanticAnalyzer). b.errors) reads in
        let both = ap (λ (b : SemanticAnalyzer). b.errors) writes in
        let none_before : a.errors ++ missing read_message r kernel.read_fields
            ≡ missing read_message r kernel.read_fields =
          simp clear refl in
        let appended =
          ap (λ (es : List SemanticError). es ++ missing write_message r kernel.write_fields)
            (first ∙ none_before) in
        simp (e, validate_field_references)
          (
            refl,
            both ∙ appended,
            ap (λ (b : SemanticAnalyzer). b.field_registry) writes
                ∙ ap (λ (b : SemanticAnalyzer). b.field_registry) reads
                ∙ e,
            ap (λ (b : SemanticAnalyzer). b.symbol_table) writes
                ∙ ap (λ (b : SemanticAnalyzer). b.symbol_table) reads,
          )
  ]

  pub analyze_statements_lem : (ss : List S) (a : SemanticAnalyzer) → analyze_statements ss a ≡ a
  unfolding analyze_statements analyze_statement
  analyze_statements_lem [] a = refl
  analyze_statements_lem (s ∷ ss) a = analyze_statements_lem ss a

  pub missing_fields-Known :
      (reg : Option FieldRegistry) (kernel : KernelAst S)
      → missing_fields reg kernel ≡ []
      → Known read_message reg kernel.read_fields × Known write_message reg kernel.write_fields
  missing_fields-Known none kernel e = (tt, tt)
  missing_fields-Known (some r) kernel e =
      let reads = missing read_message r kernel.read_fields in
      let writes = missing write_message r kernel.write_fields in
      (empty_left reads writes e, empty_right reads writes e)

  -- An analysis returns true exactly where it has no error; its errors are one for each name of the
  -- read fields, then of the write fields, that the registry does not have, and none without a
  -- registry. The registry stays as it was.
  pub analyze_kernel_lem :
      (kernel : KernelAst S) (a : SemanticAnalyzer)
      → let (answer, b) = analyze_kernel kernel a in
        (b.errors ≡ missing_fields a.field_registry kernel)
        × (answer ≡ is_empty (missing_fields a.field_registry kernel))
        × (b.field_registry ≡ a.field_registry)
  unfolding analyze_kernel
  analyze_kernel_lem kernel a =
      let named : SemanticAnalyzer = record a {
        symbol_table = (add_kernel kernel.name a.symbol_table).1;
        errors = [];
      } in
      let checked = validate_field_references kernel named in
      let (answer, errors, registry, table) = validate-Kept kernel named refl in
      elim (Bool-cases checked.0) [
        | inr refused ↦
            simp (refused, analyze_kernel)
              (errors, sym refused ∙ answer ∙ ap is_empty errors, registry)
        | inl valid ↦
            let clean = empty_errors checked.1.errors (sym answer ∙ valid) in
            let (reads, writes) =
              missing_fields-Known a.field_registry kernel (sym errors ∙ clean) in
            let bound = bind_reads kernel.read_fields checked.1 in
            let (kept, reg) =
              bind_reads-Kept read_message a.field_registry kernel.read_fields checked.1 registry
                reads in
            let (kept', reg') =
              bind_writes-Kept write_message a.field_registry kernel.write_fields bound
                (reg ∙ registry) writes in
            let last = bind_writes kernel.write_fields bound in
            let inner : SemanticAnalyzer = record last {
              symbol_table = enter_scope last.symbol_table;
            } in
            let still = analyze_statements_lem kernel.statements inner in
            let errors' = ap (λ (b : SemanticAnalyzer). b.errors) still ∙ kept' ∙ kept in
            let registry' = ap (λ (b : SemanticAnalyzer). b.field_registry) still ∙ reg' ∙ reg in
            simp (valid, analyze_kernel)
              (errors' ∙ errors, ap is_empty (errors' ∙ errors), registry' ∙ registry)
      ]
