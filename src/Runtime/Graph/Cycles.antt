-- ===== src/Runtime/Graph/Cycles.antt =====
-- `DependencyGraph::hasCycles` (src/runtime/dependency/DependencyGraphBuilder.cpp): a depth-first
-- search for a back edge. The recursion runs on fuel; `none` means that it ran out.
pub mod Ranked
use fluidloom.Prelude.{
  ℕ, zero, suc, Bool, true, false, List, [], ◌∷◌, Option, none, some, length, get_or, set,
  replicate, if◌then◌else◌,
}

pub record Visit : Type 0 where
  pub visited : List Bool
  pub rec_stack : List Bool

abbrev pub seen : Visit → ℕ → Bool
seen s v = get_or s.visited v false

abbrev pub on_stack : Visit → ℕ → Bool
on_stack s v = get_or s.rec_stack v false

abbrev pub enter : Visit → ℕ → Visit
enter s idx = record { visited = set s.visited idx true; rec_stack = set s.rec_stack idx true }

abbrev pub leave : Visit → ℕ → Visit
leave s idx = record s { rec_stack = set s.rec_stack idx false }

-- The loop over the successors, `dfs` the recursive call.
unfoldable pub scan : (ℕ → Visit → Option (Bool × Visit)) → List ℕ → Visit → Option (Bool × Visit)
scan dfs [] s = some (false, s)
scan dfs (v ∷ vs) s = elim (seen s v) [
  | false ↦ elim (dfs v s) [
    | none ↦ none
    | some (found, s') ↦ elim found [ true ↦ some (true, s') | false ↦ scan dfs vs s' ]
  ]
  | true ↦ elim (on_stack s v) [ true ↦ some (true, s) | false ↦ scan dfs vs s ]
]

unfoldable pub dfs_cycle : List (List ℕ) → ℕ → ℕ → Visit → Option (Bool × Visit)
dfs_cycle successors zero idx s = none
dfs_cycle successors (suc fuel) idx s =
    elim (scan (dfs_cycle successors fuel) (get_or successors idx []) (enter s idx)) [
      | none ↦ none
      | some (found, s') ↦ elim found [
        | true ↦ some (true, s')
        | false ↦ some (false, leave s' idx)
      ]
    ]

-- The loop over the start nodes `i`, …, with `left` of them to come.
unfoldable pub search_from : List (List ℕ) → ℕ → ℕ → ℕ → Visit → Option Bool
search_from successors fuel zero i s = some false
search_from successors fuel (suc left) i s = elim (seen s i) [
  | true ↦ search_from successors fuel left (suc i) s
  | false ↦ elim (dfs_cycle successors fuel i s) [
    | none ↦ none
    | some (found, s') ↦ elim found [
      | true ↦ some true
      | false ↦ search_from successors fuel left (suc i) s'
    ]
  ]
]

-- Each call marks one more node, so `n` nested calls are enough.
unfoldable pub has_cycles : ℕ → List (List ℕ) → Option Bool
has_cycles n successors =
    search_from successors n n 0
      (record { visited = replicate n false; rec_stack = replicate n false })
