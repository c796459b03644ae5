-- ===== src/Runtime/Graph/Cycles/Ranked.antt =====
-- `hasCycles` ends and finds no cycle in a graph that has a ranking.
use fluidloom.Prelude.{
  ℕ, zero, suc, ◌+◌, ◌≤◌, ◌<◌, ◌≡◌, refl, ap, sym, inl, inr, Bool, true, false, List, [], ◌∷◌,
  arith, length, get_or, set, count, replicate, Option, some, Bool-cases, get_or-set, length-set,
  length-replicate, get_or-replicate, ◌∙◌,
}
use fluidloom.Runtime.Graph.Cycles.{
  Visit, seen, on_stack, enter, leave, scan, dfs_cycle, search_from, has_cycles,
}
use fluidloom.Runtime.Graph.Kahn.Invariant.{IsGraph}
use fluidloom.Runtime.Graph.Kahn.Order.{IsRanked}

-- The flags that are still false.
pub unmarked : List Bool → ℕ
unmarked [] = 0
unmarked (false ∷ bs) = suc (unmarked bs)
unmarked (true ∷ bs) = unmarked bs

unmarked-set :
    (bs : List Bool) (i : ℕ)
    → i < length bs
    → get_or bs i false ≡ false
    → suc (unmarked (set bs i true)) ≡ unmarked bs
unfolding unmarked
unmarked-set [] i lt e = absurd (omega arith)
unmarked-set (b ∷ bs) zero lt e = rw e
unmarked-set (false ∷ bs) (suc i) lt e = ap suc (unmarked-set bs i (omega arith) e)
unmarked-set (true ∷ bs) (suc i) lt e = unmarked-set bs i (omega arith) e

unmarked-replicate : (n : ℕ) → unmarked (replicate n false) ≡ n
unfolding unmarked
unmarked-replicate zero = refl
unmarked-replicate (suc n) = ap suc (unmarked-replicate n)

-- A call that found nothing: it marks nodes and gives the stack back as it was.
record Returns (n : ℕ) (s t : Visit) : Type 0 where
  visited_size : length t.visited ≡ n
  stack_size : length t.rec_stack ≡ n
  marks : unmarked t.visited ≤ unmarked s.visited
  stack : (w : ℕ) → on_stack t w ≡ on_stack s w

record Sized (n : ℕ) (s : Visit) : Type 0 where
  visited_size : length s.visited ≡ n
  stack_size : length s.rec_stack ≡ n

stays : {n : ℕ} (s : Visit) → Sized n s → Returns n s s
stays s size = record {
  visited_size = size.visited_size;
  stack_size = size.stack_size;
  marks = omega arith;
  stack = λ w. refl;
}

Returns-Sized : {n : ℕ} {s t : Visit} → Returns n s t → Sized n t
Returns-Sized r = record { visited_size = r.visited_size; stack_size = r.stack_size }

compose : {n : ℕ} {s t u : Visit} → Returns n s t → Returns n t u → Returns n s u
compose r r' = record {
  visited_size = r'.visited_size;
  stack_size = r'.stack_size;
  marks = omega (arith, r.marks, r'.marks);
  stack = λ w. r'.stack w ∙ r.stack w;
}

abbrev Quiet : ℕ → Visit → Option (Bool × Visit) → Type 0
Quiet n s r = (t : Visit) × (r ≡ some (false, t)) × Returns n s t

module _ (successors : List (List ℕ)) (n : ℕ) (rank : ℕ → ℕ) (graph : IsGraph successors n)
    (ranked : IsRanked successors rank) where
  -- The nodes on the stack have a lower rank than the node that is entered.
  abbrev Below : Visit → ℕ → Type 0
  Below s bound = (w : ℕ) → on_stack s w ≡ true → rank w < bound

  scan-Quiet :
      (dfs : ℕ → Visit → Option (Bool × Visit)) (fuel idx : ℕ)
      → ((v : ℕ) (s : Visit)
          → Sized n s
          → v < n
          → seen s v ≡ false
          → Below s (rank v)
          → unmarked s.visited ≤ fuel
          → Quiet n s (dfs v s))
      → (vs : List ℕ) (s : Visit) → Sized n s
      → ((v : ℕ) → 0 < count v vs → (rank idx < rank v) × (v < n))
      → Below s (suc (rank idx))
      → unmarked s.visited ≤ fuel
      → Quiet n s (scan dfs vs s)
  unfolding scan
  scan-Quiet dfs fuel idx ih [] s size up low enough = (s, refl, stays s size)
  scan-Quiet dfs fuel idx ih (v ∷ vs) s size up low enough =
      let (above, lt) = up v (ground arith) in
      let later = λ (w : ℕ) (c : 0 < count w vs). up w (ground (arith, c)) in
      elim (Bool-cases (seen s v)) [
        | inl old ↦ elim (Bool-cases (on_stack s v)) [
          | inl stacked ↦ absurd (omega (arith, low v stacked))
          | inr free ↦
              let (t, e, r) = scan-Quiet dfs fuel idx ih vs s size later low enough in
              (t, simp (old, free, scan) e, r)
        ]
        | inr new ↦
            let (m, e, r) = ih v s size lt new (λ w on. omega (arith, low w on)) enough in
            let (t, e', r') =
              scan-Quiet dfs fuel idx ih vs m (Returns-Sized r) later
                (λ w on. low w (sym (r.stack w) ∙ on)) (omega (arith, r.marks)) in
            (t, simp (new, e, scan) e', compose r r')
      ]

  dfs-Quiet :
      (fuel idx : ℕ) (s : Visit)
      → Sized n s
      → idx < n
      → seen s idx ≡ false
      → Below s (rank idx)
      → unmarked s.visited ≤ fuel
      → Quiet n s (dfs_cycle successors fuel idx s)
  unfolding dfs_cycle
  dfs-Quiet zero idx s size lt new low enough =
      absurd (omega (arith, unmarked-set s.visited idx (omega (arith, size.visited_size)) new))
  dfs-Quiet (suc fuel) idx s size lt new low enough =
      let marked = unmarked-set s.visited idx (omega (arith, size.visited_size)) new in
      let entered : Sized n (enter s idx) = record {
        visited_size = length-set s.visited idx true ∙ size.visited_size;
        stack_size = length-set s.rec_stack idx true ∙ size.stack_size;
      } in
      let written = λ (w : ℕ) (b : Bool).
        get_or-set s.rec_stack idx w b false (omega (arith, size.stack_size)) in
      let (t, e, r) =
        scan-Quiet (dfs_cycle successors fuel) fuel idx (dfs-Quiet fuel) (get_or successors idx [])
          (enter s idx) entered
          (λ v edge. (ranked idx v edge, ground (arith, edge, graph.targets idx v)))
          (λ w on. ground (arith, on, written w true, low w)) (omega (arith, marked)) in
      (
        leave t idx,
        simp (e, dfs_cycle) refl,
        record {
          visited_size = r.visited_size;
          stack_size = length-set t.rec_stack idx false ∙ r.stack_size;
          marks = omega (arith, r.marks, marked);
          stack = λ w. ground (
            arith,
            get_or-set t.rec_stack idx w false false,
            r.stack_size,
            r.stack w,
            written w true,
            low w,
          );
        },
      )

  search_from_quiet :
      (left i : ℕ) (s : Visit)
      → i + left ≤ n
      → Sized n s
      → unmarked s.visited ≤ n
      → ((w : ℕ) → on_stack s w ≡ false)
      → search_from successors n left i s ≡ some false
  unfolding search_from
  search_from_quiet zero i s le size enough clear = refl
  search_from_quiet (suc left) i s le size enough clear = elim (Bool-cases (seen s i)) [
    | inl old ↦
        simp (old, search_from) (search_from_quiet left (suc i) s (omega arith) size enough clear)
    | inr new ↦
        let (t, e, r) =
          dfs-Quiet n i s size (omega arith) new (λ w on. ground (arith, on, clear w)) enough in
        simp (new, e, search_from)
          (search_from_quiet left (suc i) t (omega arith) (Returns-Sized r) (omega (arith, r.marks))
            (λ w. r.stack w ∙ clear w))
  ]

  -- Where a ranking goes up along every edge, the search ends within its fuel and finds no cycle.
  pub has_cycles-ranked : has_cycles n successors ≡ some false
  unfolding has_cycles
  has_cycles-ranked =
      search_from_quiet n 0 _ (omega arith)
        (record { visited_size = length-replicate n false; stack_size = length-replicate n false })
        (omega (arith, unmarked-replicate n)) (λ w. get_or-replicate n w false)
