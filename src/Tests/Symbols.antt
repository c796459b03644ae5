-- ===== src/Tests/Symbols.antt =====
-- The symbol table: a variable in an inner scope, and what a reset leaves.
use fluidloom.Prelude.{◌≡◌, refl, List, [], ◌∷◌, none, some}
use fluidloom.Prelude.Dict.{lookup as find, insert}
use fluidloom.Parsing.SymbolTable.{
  symbol, float, int, new_table, lookup, lookup_from, reset, enter_scope, exit_scope, add_symbol,
  scope_add, built_in,
}
use fluidloom.Parsing.SymbolTable.Stack.{Call, enter, exit, add, replay, stack_after, innermost}
use fluidloom.Parsing.SymbolTable.Refines.{new_stack, symbol_table_refines}

abbrev calls : List Call
calls = add (symbol "x" float) ∷ enter ∷ add (symbol "x" int) ∷ add (symbol "y" int) ∷ exit ∷ []

symbol_table_refines_example :
    lookup (replay calls new_table) "x"
    ≡ innermost "x" ((stack_after calls new_stack).top ∷ (stack_after calls new_stack).outer)
symbol_table_refines_example = symbol_table_refines calls "x"

after_exit : lookup (replay calls new_table) "x" ≡ some (symbol "x" float)
unfolding lookup lookup_from replay new_table enter_scope exit_scope add_symbol scope_add find
    insert
after_exit = refl

built_in_found : lookup new_table "sqrt" ≡ some (built_in "sqrt" (float ∷ []))
unfolding lookup lookup_from new_table add_symbol scope_add find insert
built_in_found = refl

reset_forgets : lookup (reset new_table) "sqrt" ≡ none
unfolding lookup lookup_from reset find
reset_forgets = refl
