-- ===== src/Runtime/Passes/Inserted.antt =====
-- What it is to insert nodes in a list: the new addresses, and barriers between levels.
use fluidloom.Prelude.{
  ℕ, ◌<◌, ◌≤◌, ◌≡◌, refl, ◌⊎◌, inl, inr, arith, List, [], ◌∷◌, Option, none, some, Bool, true,
  false, Bool-cases, In, ltb, ◌==◌, if◌then◌else◌, ℤ, pos, ltb_ℤ,
}
use fluidloom.Runtime.Node.{
  NodeType, kernel, halo_exchange, barrier, adapt_mesh, fused_kernel, ExecutionNode, Heap,
}
use fluidloom.Runtime.Passes.{Store, put}

-- The nodes that were there before address `m` was taken.
unfoldable pub keep_below : ℕ → List ℕ → List ℕ
keep_below m [] = []
keep_below m (p ∷ ps) = let rest = keep_below m ps in if ltb p m then p ∷ rest else rest

abbrev pub Known : List ℕ → ℕ → Type 0
Known ps m = (p : ℕ) → In p ps → p < m

-- Every node has a level.
abbrev pub Levelled : Heap → List ℕ → Type 0
Levelled h ps = (p : ℕ) → In p ps → ltb_ℤ (h.node p).amr_level (pos 0) ≡ false

abbrev pub is_barrier : NodeType → Bool
is_barrier barrier = true
is_barrier kernel = false
is_barrier halo_exchange = false
is_barrier adapt_mesh = false
is_barrier fused_kernel = false

-- The level that the next node may have, where a node that is no barrier came last.
abbrev pub last_level : ExecutionNode → Option ℤ
last_level n = if is_barrier n.node_type then none else some n.amr_level

abbrev pub Allowed : Option ℤ → ExecutionNode → Type 0
Allowed none n = Unit
Allowed (some level) n = (is_barrier n.node_type ≡ true) ⊎ (n.amr_level ≡ level)

-- Neighbours that are no barriers have the same level.
unfoldable pub Separated : Heap → Option ℤ → List ℕ → Type 0
Separated h last [] = Unit
Separated h last (p ∷ ps) = Allowed last (h.node p) × Separated h (last_level (h.node p)) ps

pub record Inserted (last : Option ℤ) (ps : List ℕ) (st : Store) (result : List ℕ) (st' : Store)
    : Type 0 where
  pub grows : st.next ≤ st'.next
  pub kept : (p : ℕ) → p < st.next → st'.heap.node p ≡ st.heap.node p
  pub erased : (m : ℕ) → m ≤ st.next → Known ps m → keep_below m result ≡ ps
  pub added : (q : ℕ) → In q result → st.next ≤ q → is_barrier (st'.heap.node q).node_type ≡ true
  pub separated : Separated st'.heap last result

pub put_other : (h : Heap) (a p : ℕ) (n : ExecutionNode) → p < a → (put a n h).node p ≡ h.node p
put_other h a p n lt = let apart : (a == p) ≡ false = ground arith in rw apart refl

pub put_here : (h : Heap) (a : ℕ) (n : ExecutionNode) → (put a n h).node a ≡ n
put_here h a n = let same : (a == a) ≡ true = ground arith in rw same refl

pub Separated-none :
    (h : Heap) (last : Option ℤ) (ps : List ℕ) → Separated h last ps → Separated h none ps
unfolding Separated
Separated-none h last [] s = tt
Separated-none h last (p ∷ ps) (a, s) = (tt, s)

pub after_node :
    (h : Heap) (n : ExecutionNode) (ps : List ℕ)
    → Separated h (some n.amr_level) ps
    → Separated h (last_level n) ps
after_node h n ps s = elim (Bool-cases (is_barrier n.node_type)) [
  | inl e ↦ rw e (Separated-none h (some n.amr_level) ps s)
  | inr e ↦ rw e s
]

pub erased_node :
    (p : ℕ) (ps rest : List ℕ) (m : ℕ)
    → Known (p ∷ ps) m
    → keep_below m rest ≡ ps
    → keep_below m (p ∷ rest) ≡ p ∷ ps
unfolding keep_below
erased_node p ps rest m k e =
    let below : ltb p m ≡ true = ground (arith, k p (inl refl)) in rw (below, e) refl
