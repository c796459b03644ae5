-- ===== src/Parsing/SymbolTable.antt =====
-- `Symbol`, `Scope` and `SymbolTable` (include/fluidloom/parsing/symbol_table/SymbolTable.h,
-- src/parsing/symbol_table/SymbolTable.cpp).
-- A `Scope*` is an index: 0 is `global_scope`, i + 1 the element i of `all_scopes`, which only grow
-- until `reset`. A lookup takes at most as many steps as there are scopes.
pub mod Stack
pub mod Refines
use fluidloom.Prelude.{
  ℕ, zero, suc, ◌+◌, List, [], ◌∷◌, ◌++◌, Option, none, some, String, Bool, true, false, length,
  get_or, set, ℤ, pos,
}
use fluidloom.Prelude.Dict.{Dict, lookup as find, insert}

pub data SymbolType : Type 0 where
  unknown float double int bool vector_3 vector_19 field kernel function lambda : SymbolType

pub record Symbol : Type 0 where
  pub name : String
  pub type : SymbolType
  pub is_const : Bool
  pub is_field : Bool
  pub scope_level : ℤ
  pub num_components : ℤ
  pub parameter_types : List SymbolType
  pub return_type : SymbolType

abbrev pub symbol : String → SymbolType → Symbol
symbol name type = record {
  name = name;
  type = type;
  is_const = false;
  is_field = false;
  scope_level = pos 0;
  num_components = pos 0;
  parameter_types = [];
  return_type = unknown;
}

pub record Scope : Type 0 where
  pub symbols : Dict Symbol
  pub parent : Option ℕ
  pub level : ℕ

abbrev pub new_scope : ℕ → Option ℕ → Scope
new_scope level parent = record { symbols = []; parent = parent; level = level }

-- `Scope::addSymbol`: the answer and the scope after the call.
unfoldable pub scope_add : Symbol → Scope → Bool × Scope
scope_add s scope = elim (find s.name scope.symbols) [
  | some found ↦ (false, scope)
  | none ↦ (true, record scope { symbols = insert s.name s scope.symbols })
]

abbrev pub lookup_local : Scope → String → Option Symbol
lookup_local scope name = find name scope.symbols

abbrev pub scope_at : List Scope → ℕ → Scope
scope_at scopes i = get_or scopes i (new_scope 0 none)

-- `Scope::lookup`, from the scope `i` on.
unfoldable pub lookup_from : List Scope → ℕ → ℕ → String → Option Symbol
lookup_from scopes zero i name = none
lookup_from scopes (suc fuel) i name = elim (lookup_local (scope_at scopes i) name) [
  | some found ↦ some found
  | none ↦ elim (scope_at scopes i).parent [ none ↦ none | some p ↦ lookup_from scopes fuel p name ]
]

pub record SymbolTable : Type 0 where
  pub scopes : List Scope
  pub current_scope : ℕ

unfoldable pub enter_scope : SymbolTable → SymbolTable
enter_scope t = record {
  scopes =
      t.scopes
      ++ new_scope ((scope_at t.scopes t.current_scope).level + 1) (some t.current_scope) ∷ [];
  current_scope = length t.scopes;
}

unfoldable pub exit_scope : SymbolTable → SymbolTable
exit_scope t = elim (scope_at t.scopes t.current_scope).parent [
  | none ↦ t
  | some p ↦ record t { current_scope = p }
]

unfoldable pub add_symbol : Symbol → SymbolTable → Bool × SymbolTable
add_symbol s t =
    let added = scope_add s (scope_at t.scopes t.current_scope) in
    (added.0, record t { scopes = set t.scopes t.current_scope added.1 })

unfoldable pub lookup : SymbolTable → String → Option Symbol
lookup t name = lookup_from t.scopes (length t.scopes) t.current_scope name

unfoldable pub exists : SymbolTable → String → Bool
exists t name = elim (lookup t name) [ some found ↦ true | none ↦ false ]

abbrev pub field_symbol : String → ℤ → Symbol
field_symbol name num_components = record (symbol name field) {
  is_field = true;
  num_components = num_components;
}

unfoldable pub add_field : String → ℤ → SymbolTable → Bool × SymbolTable
add_field name num_components t = add_symbol (field_symbol name num_components) t

unfoldable pub add_kernel : String → SymbolTable → Bool × SymbolTable
add_kernel name t = add_symbol (symbol name kernel) t

pub add_variable : String → SymbolType → SymbolTable → Bool × SymbolTable
add_variable name type t = add_symbol (symbol name type) t

-- `reset`, which does not add the built-in functions again.
unfoldable pub reset : SymbolTable → SymbolTable
reset t = record { scopes = new_scope 0 none ∷ []; current_scope = 0 }

abbrev pub built_in : String → List SymbolType → Symbol
built_in name types = record (symbol name function) { parameter_types = types; return_type = float }

-- The constructor.
unfoldable pub new_table : SymbolTable
new_table =
    let empty : SymbolTable = record { scopes = new_scope 0 none ∷ []; current_scope = 0 } in
    let with_sqrt = (add_symbol (built_in "sqrt" (float ∷ [])) empty).1 in
    let with_pow = (add_symbol (built_in "pow" (float ∷ float ∷ [])) with_sqrt).1 in
    (add_symbol (built_in "abs" (float ∷ [])) with_pow).1
