-- ===== src/Adaptation/Merge/Threads.antt =====
-- What the threads of `mark_sibling_groups` do to the groups.
use fluidloom.Prelude.{
  ℕ, zero, suc, ◌+◌, ◌<◌, ◌≤◌, ◌≡◌, refl, ap, ◌∙◌, subst, ◌⊎◌, inl, inr, arith, List, [], ◌∷◌, none,
  some, Option-cases, Bool, true, false, not, ◌&&◌, ◌||◌, Bool-cases, length, get_or,
  length-le_of_get_elem?, length-set, get_elem?, set, ◌==◌, ℤ, pos, negsuc, eqb_ℤ, In,
}
use fluidloom.Adaptation.Cell.{CellDescriptor, fluid, invalid_index, is_first_sibling}
use fluidloom.Adaptation.Merge.{
  Groups, find_sibling, coarsenable, siblings_from, set_group, mark_cell, mark_thread,
  mark_siblings,
}

module _ (cells : List CellDescriptor) (flags : List ℤ) where
  -- The cell `i` is fluid and marked for coarsening.
  pub record Coarse (i : ℕ) : Type 0 where
    pub cell : CellDescriptor
    pub at : get_elem? cells i ≡ some cell
    pub marked : eqb_ℤ (get_or flags i (pos 0)) (negsuc 0) ≡ true
    pub is_fluid : (cell.state == fluid) ≡ true

  abbrev pub Lock : ℕ → List ℕ → Type 0
  Lock i ids = (get_or ids i invalid_index ≡ invalid_index) ⊎ Coarse i

  abbrev AllCoarse : List ℕ → Type 0
  AllCoarse [] = Unit
  AllCoarse (i ∷ is) = Coarse i × AllCoarse is

set_cases : (ids : List ℕ) (k v i d : ℕ) → (get_or (set ids k v) i d ≡ get_or ids i d) ⊎ (k ≡ i)
set_cases [] k v i d = inl refl
set_cases (x ∷ xs) zero v zero d = inr refl
set_cases (x ∷ xs) zero v (suc i) d = inl refl
set_cases (x ∷ xs) (suc k) v zero d = inl refl
set_cases (x ∷ xs) (suc k) v (suc i) d = elim (set_cases xs k v i d) [
  | inl same ↦ inl same
  | inr here ↦ inr (ap suc here)
]

set_invalid :
    (ids : List ℕ) (k : ℕ) → get_or (set ids k invalid_index) k invalid_index ≡ invalid_index
set_invalid [] k = refl
set_invalid (x ∷ xs) zero = refl
set_invalid (x ∷ xs) (suc k) = set_invalid xs k

true_not_false : false ≡ true → ⊥
true_not_false h = cc

none_not_some : {B : Type 0} {b : B} → none ≡ some b → ⊥
none_not_some h = cc

some_eq : {B : Type 0} {a b : B} → some a ≡ some b → a ≡ b
some_eq h = cc

and_true : (a b : Bool) → (a && b) ≡ true → (a ≡ true) × (b ≡ true)
and_true true b h = (refl, h)
and_true false b h = absurd (cc)

module _ (table : List ℕ) (cells : List CellDescriptor) (flags : List ℤ) where
  coarsenable-Coarse :
      (level i : ℕ) → coarsenable table cells flags level i ≡ true → Coarse cells flags i
  unfolding coarsenable
  coarsenable-Coarse level i h = elim (Option-cases (get_elem? cells i)) [
    | inl missing ↦ absurd (true_not_false (rw (missing, coarsenable) at h))
    | inr (c, there) ↦
        let both =
          and_true (eqb_ℤ (get_or flags i (pos 0)) (negsuc 0))
            ((c.level == level) && (c.state == 0)) (rw (there, coarsenable) at h) in
        record {
          cell = c;
          at = there;
          marked = both.0;
          is_fluid = (and_true (c.level == level) (c.state == 0) both.1).1;
        }
  ]

  siblings_from-Coarse :
      (left k : ℕ) (c : CellDescriptor) (is : List ℕ)
      → siblings_from table cells flags left k c ≡ some is
      → AllCoarse cells flags is
  unfolding siblings_from
  siblings_from-Coarse zero k c is e =
      subst (λ (t : List ℕ). AllCoarse cells flags t) (some_eq e) tt
  siblings_from-Coarse (suc left) k c is e =
      let i = find_sibling table cells flags c k in
      elim (Bool-cases (i == invalid_index)) [
        | inl missing ↦ absurd (none_not_some (rw missing at e))
        | inr there ↦ elim (Bool-cases (coarsenable table cells flags c.level i)) [
          | inr fixed ↦ absurd (none_not_some (rw (there, fixed) at e))
          | inl coarse ↦ elim (Option-cases (siblings_from table cells flags left (suc k) c)) [
            | inl stopped ↦ absurd (none_not_some (rw (there, coarse, stopped) at e))
            | inr (others, found) ↦
                let joined : i ∷ others ≡ is = some_eq (rw (there, coarse, found) at e) in
                subst (λ (t : List ℕ). AllCoarse cells flags t) joined
                  (
                    coarsenable-Coarse c.level i coarse,
                    siblings_from-Coarse left (suc k) c others found,
                  )
          ]
        ]
      ]

  set_group-Lock :
      (group : ℕ) (is ids : List ℕ) (i : ℕ)
      → AllCoarse cells flags is
      → Lock cells flags i ids
      → Lock cells flags i (set_group table cells flags group is ids)
  unfolding set_group
  set_group-Lock group [] ids i all lock = lock
  set_group-Lock group (k ∷ is) ids i (coarse, all) lock =
      set_group-Lock group is (set ids k group) i all
        (elim (set_cases ids k group i invalid_index) [
          | inl same ↦ elim lock [ inl empty ↦ inl (same ∙ empty) | inr locked ↦ inr locked ]
          | inr here ↦ inr (subst (λ (t : ℕ). Coarse cells flags t) here coarse)
        ])

  cell-Lock :
      (idx : ℕ) (c : CellDescriptor) (g : Groups) (i : ℕ)
      → Lock cells flags i (set g.group_id idx invalid_index)
      → Lock cells flags i (mark_cell table cells flags idx c g).group_id
  unfolding mark_cell
  cell-Lock idx c g i cleared =
      let refused = not (eqb_ℤ (get_or flags idx (pos 0)) (negsuc 0)) || not (c.state == 0) in
      elim (Bool-cases refused) [
        | inl stays ↦ rw stays cleared
        | inr wants ↦ elim (Bool-cases (is_first_sibling c)) [
          | inr later ↦ rw (wants, later) cleared
          | inl first ↦ elim (Option-cases (siblings_from table cells flags 8 0 c)) [
            | inl alone ↦ rw (wants, first, alone) cleared
            | inr (is, found) ↦
                rw (wants, first, found)
                  (set_group-Lock g.group_counter is (set g.group_id idx invalid_index) i
                    (siblings_from-Coarse 8 0 c is found) cleared)
          ]
        ]
      ]

  mark_thread-none :
      (idx : ℕ) (g : Groups) → get_elem? cells idx ≡ none → mark_thread table cells flags idx g ≡ g
  unfolding mark_thread
  mark_thread-none idx g missing = rw (missing, mark_thread) refl

  mark_thread-some :
      (idx : ℕ) (c : CellDescriptor) (g : Groups)
      → get_elem? cells idx ≡ some c
      → mark_thread table cells flags idx g ≡ mark_cell table cells flags idx c g
  unfolding mark_thread
  mark_thread-some idx c g there = rw (there, mark_thread) refl

  -- A thread keeps the locks, and leaves its own cell locked.
  mark_thread-Lock :
      (idx : ℕ) (g : Groups) (i : ℕ)
      → idx < length cells
      → (idx ≡ i) ⊎ Lock cells flags i g.group_id
      → Lock cells flags i (mark_thread table cells flags idx g).group_id
  mark_thread-Lock idx g i lt before =
      let ids = set g.group_id idx invalid_index in
      let cleared : Lock cells flags i ids = elim before [
        | inl own ↦ inl (rw own (set_invalid g.group_id i))
        | inr lock ↦ elim (set_cases g.group_id idx invalid_index i invalid_index) [
          | inl same ↦ elim lock [ inl empty ↦ inl (same ∙ empty) | inr locked ↦ inr locked ]
          | inr here ↦ inl (rw here (set_invalid g.group_id i))
        ]
      ] in
      elim (Option-cases (get_elem? cells idx)) [
        | inl missing ↦ absurd (omega (arith, lt, length-le_of_get_elem? cells idx missing))
        | inr (c, there) ↦ rw (mark_thread-some idx c g there) (cell-Lock idx c g i cleared)
      ]

  pub mark_siblings-Lock :
      (order : List ℕ) (g : Groups) (i : ℕ)
      → ((k : ℕ) → In k order → k < length cells)
      → In i order ⊎ Lock cells flags i g.group_id
      → Lock cells flags i (mark_siblings table cells flags order g).group_id
  unfolding mark_siblings
  mark_siblings-Lock [] g i inside (inr lock) = lock
  mark_siblings-Lock [] g i inside (inl none_left) = absurd none_left
  mark_siblings-Lock (idx ∷ order) g i inside before =
      let lt = inside idx (inl refl) in
      let later = λ (k : ℕ) (m : In k order). inside k (inr m) in
      let step = mark_thread-Lock idx g i lt in
      mark_siblings-Lock order (mark_thread table cells flags idx g) i later (elim before [
        | inr lock ↦ inr (step (inr lock))
        | inl member ↦ elim member [ inl own ↦ inr (step (inl own)) | inr further ↦ inl further ]
      ])

module _ (table : List ℕ) (cells : List CellDescriptor) (flags : List ℤ) where
  length-set_group :
      (group : ℕ) (is ids : List ℕ) → length (set_group table cells flags group is ids) ≡ length ids
  unfolding set_group
  length-set_group group [] ids = refl
  length-set_group group (i ∷ is) ids =
      length-set_group group is (set ids i group) ∙ length-set ids i group

  -- A thread makes one group at most.
  counter-mark_cell :
      (idx : ℕ) (c : CellDescriptor) (g : Groups)
      → (mark_cell table cells flags idx c g).group_counter ≤ suc g.group_counter
  unfolding mark_cell
  counter-mark_cell idx c g =
      let refused = not (eqb_ℤ (get_or flags idx (pos 0)) (negsuc 0)) || not (c.state == 0) in
      elim (Bool-cases refused) [
        | inl stays ↦ rw stays (omega arith)
        | inr wants ↦ elim (Bool-cases (is_first_sibling c)) [
          | inr later ↦ rw (wants, later) (omega arith)
          | inl first ↦ elim (Option-cases (siblings_from table cells flags 8 0 c)) [
            | inl alone ↦ rw (wants, first, alone) (omega arith)
            | inr (is, found) ↦ rw (wants, first, found) (omega arith)
          ]
        ]
      ]

  counter-mark_thread :
      (idx : ℕ) (g : Groups)
      → (mark_thread table cells flags idx g).group_counter ≤ suc g.group_counter
  counter-mark_thread idx g = elim (Option-cases (get_elem? cells idx)) [
    | inl missing ↦ rw (mark_thread-none table cells flags idx g missing) (omega arith)
    | inr (c, there) ↦
        rw (mark_thread-some table cells flags idx c g there) (counter-mark_cell idx c g)
  ]

  pub counter-mark_siblings :
      (order : List ℕ) (g : Groups)
      → (mark_siblings table cells flags order g).group_counter ≤ g.group_counter + length order
  unfolding mark_siblings
  counter-mark_siblings [] g = omega arith
  counter-mark_siblings (idx ∷ order) g =
      let next = mark_thread table cells flags idx g in
      let rest = counter-mark_siblings order next in
      let bound : (mark_siblings table cells flags order next).group_counter
          ≤ g.group_counter + suc (length order) =
        omega (arith, rest, counter-mark_thread idx g) in
      bound

  length-mark_cell :
      (idx : ℕ) (c : CellDescriptor) (g : Groups)
      → length (mark_cell table cells flags idx c g).group_id ≡ length g.group_id
  unfolding mark_cell
  length-mark_cell idx c g =
      let cleared = length-set g.group_id idx invalid_index in
      let refused = not (eqb_ℤ (get_or flags idx (pos 0)) (negsuc 0)) || not (c.state == 0) in
      elim (Bool-cases refused) [
        | inl stays ↦ rw stays cleared
        | inr wants ↦ elim (Bool-cases (is_first_sibling c)) [
          | inr later ↦ rw (wants, later) cleared
          | inl first ↦ elim (Option-cases (siblings_from table cells flags 8 0 c)) [
            | inl alone ↦ rw (wants, first, alone) cleared
            | inr (is, found) ↦
                rw (wants, first, found)
                  (length-set_group g.group_counter is (set g.group_id idx invalid_index) ∙ cleared)
          ]
        ]
      ]

  pub length-mark_siblings :
      (order : List ℕ) (g : Groups)
      → length (mark_siblings table cells flags order g).group_id ≡ length g.group_id
  unfolding mark_siblings
  length-mark_siblings [] g = refl
  length-mark_siblings (idx ∷ order) g =
      length-mark_siblings order (mark_thread table cells flags idx g)
      ∙ elim (Option-cases (get_elem? cells idx)) [
        | inl missing ↦ rw (mark_thread-none table cells flags idx g missing) refl
        | inr (c, there) ↦
            rw (mark_thread-some table cells flags idx c g there) (length-mark_cell idx c g)
      ]
