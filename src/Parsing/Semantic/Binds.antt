-- ===== src/Parsing/Semantic/Binds.antt =====
-- Steps of an analysis after which given names are found in the symbol table.
use text.Mathlib.Text.{◌==◌ as str_eq}
use text.Mathlib.TextPositions.{eq_refl}
use fluidloom.Prelude.{
  ◌≡◌, ◌↔◌, refl, sym, ◌∙◌, subst, inl, inr, List, [], ◌∷◌, ◌++◌, In, In-append, none, some,
  Option-cases, String, true, Bool-cases, ℤ,
}
use fluidloom.Prelude.Dict.{Dict, lookup as find, lookup-insert}
use fluidloom.Parsing.SymbolTable.{
  Symbol, SymbolTable, enter_scope, exit_scope, add_field, add_kernel, lookup, exists, field_symbol,
  symbol, kernel,
}
use fluidloom.Parsing.SymbolTable.Refines.{
  ShowsTable, add_field-Shows, add_kernel-Shows, enter-Shows, exit-Shows, lookup-Shows,
}
use fluidloom.Parsing.SymbolTable.Stack.{add, Stack, stack, define, stack_step, innermost}

-- The innermost symbol with the name, if there is one.
abbrev pub Found : String → Stack → Type 0
Found name k = (x : Symbol) × (innermost name (k.top ∷ k.outer) ≡ some x)

innermost-found :
    (name : String) (d : Dict Symbol) (ds : List (Dict Symbol)) (x : Symbol)
    → find name d ≡ some x
    → innermost name (d ∷ ds) ≡ some x
unfolding innermost
innermost-found name d ds x e = simp (e, innermost) refl

innermost-absent :
    (name : String) (d : Dict Symbol) (ds : List (Dict Symbol))
    → find name d ≡ none
    → innermost name (d ∷ ds) ≡ innermost name ds
unfolding innermost
innermost-absent name d ds e = simp (e, innermost) refl

find-define : (s : Symbol) (d : Dict Symbol) → (x : Symbol) × (find s.name (define s d) ≡ some x)
find-define s d = elim (Option-cases (find s.name d)) [
  | inl absent ↦ (s, simp (absent, define, lookup-insert s.name s.name s d, eq_refl s.name) refl)
  | inr (x, e) ↦ (x, simp (e, define) refl)
]

define_keeps :
    (s : Symbol) (d : Dict Symbol) (name : String) (x : Symbol)
    → find name d ≡ some x
    → (y : Symbol) × (find name (define s d) ≡ some y)
define_keeps s d name x e = elim (Option-cases (find s.name d)) [
  | inr (y, there) ↦ (x, simp (there, define) e)
  | inl absent ↦ elim (Bool-cases (str_eq s.name name)) [
    | inl same ↦ (s, simp (absent, define, lookup-insert s.name name s d, same) refl)
    | inr other ↦ (x, simp (absent, define, lookup-insert s.name name s d, other) e)
  ]
]

Found-add : (s : Symbol) (k : Stack) → Found s.name (stack_step (add s) k)
unfolding stack_step
Found-add s k =
    let (x, e) = find-define s k.top in (x, innermost-found s.name (define s k.top) k.outer x e)

Found-kept :
    (s : Symbol) (k : Stack) (name : String) → Found name k → Found name (stack_step (add s) k)
unfolding stack_step
Found-kept s k name (x, found) = elim (Option-cases (find name (define s k.top))) [
  | inr (y, here) ↦ (y, innermost-found name (define s k.top) k.outer y here)
  | inl absent ↦ elim (Option-cases (find name k.top)) [
    | inr (y, here) ↦ let (z, still) = define_keeps s k.top name y here in absurd (cc)
    | inl before ↦ (
      x,
      innermost-absent name (define s k.top) k.outer absent
          ∙ sym (innermost-absent name k.top k.outer before)
          ∙ found,
    )
  ]
]

-- A table that shows a stack, in which the names are found, and all that was found before.
pub record Binds (names : List String) (t u : SymbolTable) : Type 0 where
  pub after : (k : Stack) → ShowsTable t k → Stack
  pub shows : (k : Stack) (s : ShowsTable t k) → ShowsTable u (after k s)
  pub binds : (k : Stack) (s : ShowsTable t k) (n : String) → In n names → Found n (after k s)
  pub keeps : (k : Stack) (s : ShowsTable t k) (n : String) → Found n k → Found n (after k s)

pub Binds-nothing : (t : SymbolTable) → Binds [] t t
Binds-nothing t = record {
  after = λ k s. k;
  shows = λ k s. s;
  binds = λ k s n m. absurd m;
  keeps = λ k s n f. f;
}

pub Binds-then :
    {ms ns : List String} {t u v : SymbolTable} → Binds ms t u → Binds ns u v → Binds (ms ++ ns) t v
Binds-then {ms} {ns} {t} {u} {v} b c = record {
  after = λ k s. c.after (b.after k s) (b.shows k s);
  shows = λ k s. c.shows (b.after k s) (b.shows k s);
  binds = λ k s n m. elim ((In-append n ms ns).0 m) [
    | inl early ↦ c.keeps (b.after k s) (b.shows k s) n (b.binds k s n early)
    | inr late ↦ c.binds (b.after k s) (b.shows k s) n late
  ];
  keeps = λ k s n f. c.keeps (b.after k s) (b.shows k s) n (b.keeps k s n f);
}

pub Binds-field :
    (name : String) (c : ℤ) (t : SymbolTable) → Binds (name ∷ []) t (add_field name c t).1
Binds-field name c t = record {
  after = λ k s. stack_step (add (field_symbol name c)) k;
  shows = λ k s. add_field-Shows name c t k s;
  binds = λ k s n m. elim m [
    | inl same ↦
        subst (λ (n : String). Found n (stack_step (add (field_symbol name c)) k)) same
          (Found-add (field_symbol name c) k)
    | inr never ↦ absurd never
  ];
  keeps = λ k s n f. Found-kept (field_symbol name c) k n f;
}

pub Binds-kernel : (name : String) (t : SymbolTable) → Binds [] t (add_kernel name t).1
Binds-kernel name t = record {
  after = λ k s. stack_step (add (symbol name kernel)) k;
  shows = λ k s. add_kernel-Shows name t k s;
  binds = λ k s n m. absurd m;
  keeps = λ k s n f. Found-kept (symbol name kernel) k n f;
}

pub Binds-left : (t : SymbolTable) → Binds [] t (exit_scope (enter_scope t))
unfolding stack_step
Binds-left t = record {
  after = λ k s. stack k.top k.outer;
  shows = λ k s. exit-Shows (enter_scope t) [] (k.top ∷ k.outer) (enter-Shows t k s);
  binds = λ k s n m. absurd m;
  keeps = λ k s n f. f;
}

pub exists-lookup :
    (t : SymbolTable) (name : String)
    → (exists t name ≡ true) ↔ ((x : Symbol) × (lookup t name ≡ some x))
unfolding exists
exists-lookup t name = elim (Option-cases (lookup t name)) [
  | inl absent ↦
      ((λ there. absurd (cc (simp (absent, exists) at there))), λ (x, found). absurd (cc))
  | inr (x, found) ↦ ((λ there. (x, found)), λ there. simp (found, exists) refl)
]

pub Binds-known : (name : String) (t : SymbolTable) → exists t name ≡ true → Binds (name ∷ []) t t
Binds-known name t there =
    let (x, found) = (exists-lookup t name).0 there in
    record {
      after = λ k s. k;
      shows = λ k s. s;
      binds = λ k s n m. elim m [
        | inl same ↦
            subst (λ (n : String). Found n k) same (x, sym (lookup-Shows t k name s) ∙ found)
        | inr never ↦ absurd never
      ];
      keeps = λ k s n f. f;
    }
