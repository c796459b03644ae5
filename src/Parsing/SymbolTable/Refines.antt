-- ===== src/Parsing/SymbolTable/Refines.antt =====
-- Each operation of the symbol table does to its chain of scopes what it does to the stack.
use fluidloom.Prelude.{
  ℕ, ◌+◌, ◌<◌, ◌≡◌, refl, sym, ap, subst, ◌↔◌, ◌∙◌, inl, inr, arith, List, [], ◌∷◌, ◌++◌, none,
  some, Option-cases, String, true, false, length, set, ℤ, length-append, length-set, get_or-set,
  get_or-append, get_or-append_last, ◌==◌,
}
use fluidloom.Prelude.Dict.{Dict, lookup as find}
use fluidloom.Parsing.SymbolTable.{
  Symbol, Scope, new_scope, scope_at, scope_add, SymbolTable, enter_scope, exit_scope, add_symbol,
  lookup, reset, new_table, built_in, float, add_field, add_kernel, field_symbol, symbol, kernel,
}
use fluidloom.Parsing.SymbolTable.Stack.{
  Call, enter, exit, clear, add, replay, Stack, stack, define, pop, stack_step, stack_after,
  innermost, Shows, Shows-inside, Shows-same, lookup_from-Shows,
}

abbrev pub ShowsTable : SymbolTable → Stack → Type 0
ShowsTable t k = Shows t.scopes t.current_scope k.top k.outer

level-Shows :
    (scopes : List Scope) (i : ℕ) (d : Dict Symbol) (ds : List (Dict Symbol))
    → Shows scopes i d ds
    → (scope_at scopes i).level ≡ length ds
unfolding Shows
level-Shows scopes i d [] s = s.depth_kept
level-Shows scopes i d (e ∷ rest) (p, s, lt, below) = s.depth_kept

symbols-Shows :
    (scopes : List Scope) (i : ℕ) (d : Dict Symbol) (ds : List (Dict Symbol))
    → Shows scopes i d ds
    → (scope_at scopes i).symbols ≡ d
unfolding Shows
symbols-Shows scopes i d [] s = s.symbols
symbols-Shows scopes i d (e ∷ rest) (p, s, lt, below) = s.symbols

set_other :
    (scopes : List Scope) (i j : ℕ) (c : Scope)
    → i < length scopes
    → j < i
    → scope_at (set scopes i c) j ≡ scope_at scopes j
set_other scopes i j c inside lt =
    let apart : (i == j) ≡ false = ground arith in
    get_or-set scopes i j c (new_scope 0 none) inside ∙ rw apart refl

set_here :
    (scopes : List Scope) (i : ℕ) (c : Scope) → i < length scopes → scope_at (set scopes i c) i ≡ c
set_here scopes i c inside =
    let same : (i == i) ≡ true = ground arith in
    get_or-set scopes i i c (new_scope 0 none) inside ∙ rw same refl

-- Another dictionary in the innermost scope.
Shows-set :
    (scopes : List Scope) (i : ℕ) (d d' : Dict Symbol) (ds : List (Dict Symbol)) (c : Scope)
    → c.symbols ≡ d'
    → c.parent ≡ (scope_at scopes i).parent
    → c.level ≡ (scope_at scopes i).level
    → Shows scopes i d ds
    → Shows (set scopes i c) i d' ds
unfolding Shows
Shows-set scopes i d d' [] c es ep el s =
    let here = set_here scopes i c s.inside in
    record {
      inside = omega (arith, s.inside, length-set scopes i c);
      symbols = rw here es;
      above = rw here (ep ∙ s.above);
      depth_kept = rw here (el ∙ s.depth_kept);
    }
Shows-set scopes i d d' (e ∷ rest) c es ep el (p, s, lt, below) =
    let here = set_here scopes i c s.inside in
    (
      p,
      record {
        inside = omega (arith, s.inside, length-set scopes i c);
        symbols = rw here es;
        above = rw here (ep ∙ s.above);
        depth_kept = rw here (el ∙ s.depth_kept);
      },
      lt,
      Shows-same scopes (set scopes i c) p e rest (omega (arith, length-set scopes i c))
          (λ j le. set_other scopes i j c s.inside (omega arith)) below,
    )

scope_add_lem :
    (s : Symbol) (c : Scope)
    → ((scope_add s c).1.symbols ≡ define s c.symbols)
      × ((scope_add s c).1.parent ≡ c.parent)
      × ((scope_add s c).1.level ≡ c.level)
unfolding scope_add
scope_add_lem s c = elim (Option-cases (find s.name c.symbols)) [
  | inl e ↦ simp (e, scope_add, define) (refl, refl, refl)
  | inr (x, e) ↦ simp (e, scope_add, define) (refl, refl, refl)
]

scope_add_refused_iff :
    (s : Symbol) (c : Scope)
    → ((scope_add s c).0 ≡ false) ↔ ((x : Symbol) × (find s.name c.symbols ≡ some x))
unfolding scope_add
scope_add_refused_iff s c = elim (Option-cases (find s.name c.symbols)) [
  | inl e ↦ ((λ refused. absurd (cc (simp (e, scope_add) at refused))), λ (x, h). absurd (cc))
  | inr (x, e) ↦ ((λ refused. (x, e)), λ found. simp (e, scope_add) refl)
]

pub enter-Shows :
    (t : SymbolTable) (k : Stack) → ShowsTable t k → ShowsTable (enter_scope t) (stack_step enter k)
unfolding enter_scope stack_step Shows
enter-Shows t k s =
    let inside = Shows-inside t.scopes t.current_scope k.top k.outer s in
    let fresh = new_scope ((scope_at t.scopes t.current_scope).level + 1) (some t.current_scope) in
    let here = get_or-append_last t.scopes fresh (new_scope 0 none) in
    let longer = length-append t.scopes (fresh ∷ []) in
    (
      t.current_scope,
      record {
        inside = omega (arith, longer);
        symbols = rw here refl;
        above = rw here refl;
        depth_kept = rw here (omega (arith, level-Shows t.scopes t.current_scope k.top k.outer s));
      },
      inside,
      Shows-same t.scopes (t.scopes ++ fresh ∷ []) t.current_scope k.top k.outer
          (omega (arith, longer))
          (λ j le. get_or-append t.scopes (fresh ∷ []) j (new_scope 0 none) (omega arith)) s,
    )

pub exit-Shows :
    (t : SymbolTable) (top : Dict Symbol) (outer : List (Dict Symbol))
    → ShowsTable t (stack top outer)
    → ShowsTable (exit_scope t) (pop top outer)
unfolding exit_scope Shows
exit-Shows t top [] s = simp (s.above, exit_scope) s
exit-Shows t top (d ∷ ds) (p, s, lt, below) = simp (s.above, exit_scope) below

pub add-Shows :
    (s : Symbol) (t : SymbolTable) (k : Stack)
    → ShowsTable t k
    → ShowsTable (add_symbol s t).1 (stack_step (add s) k)
unfolding add_symbol stack_step
add-Shows s t k shows =
    let c = scope_at t.scopes t.current_scope in
    let (es, ep, el) = scope_add_lem s c in
    let old = symbols-Shows t.scopes t.current_scope k.top k.outer shows in
    Shows-set t.scopes t.current_scope k.top (define s k.top) k.outer (scope_add s c).1
      (es ∙ ap (define s) old) ep el shows

pub add_field-Shows :
    (name : String) (num_components : ℤ) (t : SymbolTable) (k : Stack)
    → ShowsTable t k
    → ShowsTable
        (add_field name num_components t).1
        (stack_step (add (field_symbol name num_components)) k)
unfolding add_field
add_field-Shows name num_components t k shows =
    add-Shows (field_symbol name num_components) t k shows

pub add_kernel-Shows :
    (name : String) (t : SymbolTable) (k : Stack)
    → ShowsTable t k
    → ShowsTable (add_kernel name t).1 (stack_step (add (symbol name kernel)) k)
unfolding add_kernel
add_kernel-Shows name t k shows = add-Shows (symbol name kernel) t k shows

new-Shows : ShowsTable (record { scopes = new_scope 0 none ∷ []; current_scope = 0 }) (stack [] [])
unfolding Shows
new-Shows = record { inside = omega arith; symbols = refl; above = refl; depth_kept = refl }

replay-Shows :
    (calls : List Call) (t : SymbolTable) (k : Stack)
    → ShowsTable t k
    → ShowsTable (replay calls t) (stack_after calls k)
unfolding replay stack_after
replay-Shows [] t k s = s
replay-Shows (enter ∷ cs) t k s =
    replay-Shows cs (enter_scope t) (stack_step enter k) (enter-Shows t k s)
replay-Shows (exit ∷ cs) t k s =
    replay-Shows cs (exit_scope t) (stack_step exit k)
      (unfold stack_step in exit-Shows t k.top k.outer s)
replay-Shows (clear ∷ cs) t k s =
    replay-Shows cs (reset t) (stack_step clear k) (unfold stack_step in unfold reset in new-Shows)
replay-Shows (add x ∷ cs) t k s =
    replay-Shows cs (add_symbol x t).1 (stack_step (add x) k) (add-Shows x t k s)

abbrev pub built_ins : List Call
built_ins =
    add (built_in "sqrt" (float ∷ []))
    ∷ add (built_in "pow" (float ∷ float ∷ []))
    ∷ add (built_in "abs" (float ∷ []))
    ∷ []

abbrev empty_table : SymbolTable
empty_table = record { scopes = new_scope 0 none ∷ []; current_scope = 0 }

new_table_lem : new_table ≡ replay built_ins empty_table
unfolding new_table replay
new_table_lem = refl

-- The built-in functions of a new table.
abbrev pub new_stack : Stack
new_stack = stack_after built_ins (stack [] [])

pub new_table-Shows : ShowsTable new_table new_stack
new_table-Shows =
    subst (λ (t : SymbolTable). ShowsTable t new_stack) (sym new_table_lem)
      (replay-Shows built_ins empty_table (stack [] []) new-Shows)

pub replay_new-Shows :
    (calls : List Call) → ShowsTable (replay calls new_table) (stack_after calls new_stack)
replay_new-Shows calls = replay-Shows calls new_table new_stack new_table-Shows

-- A name is looked up in the stack that the table shows.
pub lookup-Shows :
    (t : SymbolTable) (k : Stack) (name : String)
    → ShowsTable t k
    → lookup t name ≡ innermost name (k.top ∷ k.outer)
unfolding lookup
lookup-Shows t k name shows =
    lookup_from-Shows t.scopes (length t.scopes) t.current_scope k.top k.outer name
      (Shows-inside t.scopes t.current_scope k.top k.outer shows) shows

-- After any calls on a new table, a name is looked up as in the stack of dictionaries that the calls
-- make: entering pushes one, leaving pops one but for the last, adding defines a name in the top one
-- unless it is there, and a reset leaves an empty one.
pub symbol_table_refines :
    (calls : List Call) (name : String)
    → let k = stack_after calls new_stack in
      lookup (replay calls new_table) name ≡ innermost name (k.top ∷ k.outer)
symbol_table_refines calls name =
    lookup-Shows (replay calls new_table) (stack_after calls new_stack) name
      (replay_new-Shows calls)

-- Adding a symbol is refused exactly where the innermost scope has the name.
pub add_symbol_refused_iff :
    (calls : List Call) (s : Symbol)
    → ((add_symbol s (replay calls new_table)).0 ≡ false)
      ↔ ((x : Symbol) × (find s.name (stack_after calls new_stack).top ≡ some x))
unfolding add_symbol
add_symbol_refused_iff calls s =
    let t = replay calls new_table in
    let k = stack_after calls new_stack in
    let c = scope_at t.scopes t.current_scope in
    let shows = replay-Shows calls new_table new_stack new_table-Shows in
    let top : c.symbols ≡ k.top = symbols-Shows t.scopes t.current_scope k.top k.outer shows in
    rw (← top) (scope_add_refused_iff s c)
