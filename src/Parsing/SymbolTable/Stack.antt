-- ===== src/Parsing/SymbolTable/Stack.antt =====
-- The symbol table as a stack of dictionaries: scopes that were left are out of reach.
use fluidloom.Prelude.{
  ℕ, zero, suc, ◌<◌, ◌≤◌, ◌≡◌, refl, inl, inr, arith, List, [], ◌∷◌, Option, none, some,
  Option-cases, String, length,
}
use fluidloom.Prelude.Dict.{Dict, lookup as find, insert}
use fluidloom.Parsing.SymbolTable.{
  Symbol, Scope, scope_at, lookup_from, SymbolTable, enter_scope, exit_scope, add_symbol, reset,
}

pub data Call : Type 0 where
  enter exit clear : Call
  add : Symbol → Call

unfoldable pub replay : List Call → SymbolTable → SymbolTable
replay [] t = t
replay (enter ∷ cs) t = replay cs (enter_scope t)
replay (exit ∷ cs) t = replay cs (exit_scope t)
replay (clear ∷ cs) t = replay cs (reset t)
replay (add s ∷ cs) t = replay cs (add_symbol s t).1

-- The innermost dictionary, and those around it.
pub record Stack : Type 0 where
  pub top : Dict Symbol
  pub outer : List (Dict Symbol)

abbrev pub define : Symbol → Dict Symbol → Dict Symbol
define s d = elim (find s.name d) [ some found ↦ d | none ↦ insert s.name s d ]

abbrev pub stack : Dict Symbol → List (Dict Symbol) → Stack
stack top outer = record { top = top; outer = outer }

abbrev pub pop : Dict Symbol → List (Dict Symbol) → Stack
pop top [] = stack top []
pop top (d ∷ ds) = stack d ds

unfoldable pub stack_step : Call → Stack → Stack
stack_step enter k = stack [] (k.top ∷ k.outer)
stack_step exit k = pop k.top k.outer
stack_step clear k = stack [] []
stack_step (add s) k = stack (define s k.top) k.outer

unfoldable pub stack_after : List Call → Stack → Stack
stack_after [] k = k
stack_after (c ∷ cs) k = stack_after cs (stack_step c k)

unfoldable pub innermost : String → List (Dict Symbol) → Option Symbol
innermost name [] = none
innermost name (d ∷ ds) = elim (find name d) [ some found ↦ some found | none ↦ innermost name ds ]

-- The chain of scopes from `i` on holds the dictionaries.
pub record Holds (scopes : List Scope) (i : ℕ) (d : Dict Symbol) (depth : ℕ) (parent : Option ℕ)
    : Type 0 where
  pub inside : i < length scopes
  pub symbols : (scope_at scopes i).symbols ≡ d
  pub above : (scope_at scopes i).parent ≡ parent
  pub depth_kept : (scope_at scopes i).level ≡ depth

unfoldable pub Shows : List Scope → ℕ → Dict Symbol → List (Dict Symbol) → Type 0
Shows scopes i d [] = Holds scopes i d 0 none
Shows scopes i d (e ∷ rest) =
    (p : ℕ) × Holds scopes i d (suc (length rest)) (some p) × (p < i) × Shows scopes p e rest

pub Shows-inside :
    (scopes : List Scope) (i : ℕ) (d : Dict Symbol) (ds : List (Dict Symbol))
    → Shows scopes i d ds
    → i < length scopes
unfolding Shows
Shows-inside scopes i d [] s = s.inside
Shows-inside scopes i d (e ∷ rest) (p, s, lt, below) = s.inside

-- Scopes that agree up to `i` show the same.
pub Shows-same :
    (scopes scopes' : List Scope) (i : ℕ) (d : Dict Symbol) (ds : List (Dict Symbol))
    → length scopes ≤ length scopes'
    → ((j : ℕ) → j ≤ i → scope_at scopes' j ≡ scope_at scopes j)
    → Shows scopes i d ds
    → Shows scopes' i d ds
unfolding Shows
Shows-same scopes scopes' i d [] longer same s = record {
  inside = omega (arith, s.inside);
  symbols = rw (same i (omega arith)) s.symbols;
  above = rw (same i (omega arith)) s.above;
  depth_kept = rw (same i (omega arith)) s.depth_kept;
}
Shows-same scopes scopes' i d (e ∷ rest) longer same (p, s, lt, below) = (
  p,
  record {
    inside = omega (arith, s.inside);
    symbols = rw (same i (omega arith)) s.symbols;
    above = rw (same i (omega arith)) s.above;
    depth_kept = rw (same i (omega arith)) s.depth_kept;
  },
  lt,
  Shows-same scopes scopes' p e rest longer (λ j le. same j (omega arith)) below,
)

pub lookup_from-Shows :
    (scopes : List Scope) (fuel i : ℕ) (d : Dict Symbol) (ds : List (Dict Symbol)) (name : String)
    → i < fuel
    → Shows scopes i d ds
    → lookup_from scopes fuel i name ≡ innermost name (d ∷ ds)
unfolding lookup_from Shows innermost
lookup_from-Shows scopes zero i d ds name lt s = absurd (omega arith)
lookup_from-Shows scopes (suc fuel) i d [] name lt s = elim (Option-cases (find name d)) [
  | inl e ↦ simp (s.symbols, s.above, e, lookup_from, innermost) refl
  | inr (x, e) ↦ simp (s.symbols, e, lookup_from, innermost) refl
]
lookup_from-Shows scopes (suc fuel) i d (e ∷ rest) name lt (p, s, lower, below) =
    elim (Option-cases (find name d)) [
      | inl n ↦
          simp (s.symbols, s.above, n, lookup_from, innermost)
            (lookup_from-Shows scopes fuel p e rest name (omega arith) below)
      | inr (x, h) ↦ simp (s.symbols, h, lookup_from, innermost) refl
    ]
