-- ===== src/Adaptation/Rebuild/Survivors.antt =====
-- The host and the device keep the same old cells.
use fluidloom.Prelude.{
  ℕ, zero, suc, ◌+◌, ◌*◌, ◌%◌, ◌^◌, ◌≤◌, ◌<◌, ◌≡◌, refl, sym, ap, ◌∙◌, inl, inr, arith, List, [],
  ◌∷◌, Bool, true, false, not, ◌||◌, ◌&&◌, Bool-cases, length, get_or, set, length-set,
  length-replicate, get_or-replicate, replicate, ltb, ◌==◌, if◌then◌else◌, ℤ, pos, negsuc, ltb_ℤ,
}
use fluidloom.Adaptation.Cell.{CellDescriptor, invalid_index}
use fluidloom.Adaptation.Balance.{is_set}
use fluidloom.Adaptation.Split.{can_split, scratch, block_starts}
use fluidloom.Adaptation.Split.Children.{length-scratch}
use fluidloom.Adaptation.Rebuild.{
  MergeResult, Mesh, is_member, survives, surviving, merge_ids, valid_flags,
}
use fluidloom.Adaptation.Rebuild.Compact.{kept, valid_of, length-valid_of, length-merge_ids}

-- Every flagged cell can be split.
unfoldable pub AllSplit : List CellDescriptor → List ℤ → Type 0
AllSplit (c ∷ cs) (flag ∷ flags) =
    (is_set flag ≡ true → can_split c flag ≡ true) × AllSplit cs flags
AllSplit cs flags = Unit

wanted_flag :
    (c : CellDescriptor) (flag : ℤ)
    → (is_set flag ≡ true → can_split c flag ≡ true)
    → can_split c flag ≡ is_set flag
unfolding can_split
wanted_flag c flag h = elim (Bool-cases (is_set flag)) [
  | inl set ↦ h set ∙ sym set
  | inr unset ↦ rw unset refl
]

scratch_at :
    (cs : List CellDescriptor) (flags : List ℤ) (j : ℕ)
    → AllSplit cs flags
    → length flags ≡ length cs
    → get_or (scratch cs flags) j false ≡ is_set (get_or flags j (pos 0))
unfolding scratch AllSplit
scratch_at [] [] j all h = refl
scratch_at [] (flag ∷ flags) j all h = absurd (omega (arith, h))
scratch_at (c ∷ cs) [] j all h = absurd (omega (arith, h))
scratch_at (c ∷ cs) (flag ∷ flags) zero (one, all) h = wanted_flag c flag one
scratch_at (c ∷ cs) (flag ∷ flags) (suc j) (one, all) h =
    scratch_at cs flags j all (omega (arith, h))

block_starts_at :
    (total : ℕ) (bs : List Bool) (j : ℕ)
    → total + 8 * length bs < invalid_index
    → (get_or (block_starts total bs) j invalid_index == invalid_index) ≡ not (get_or bs j false)
unfolding block_starts
block_starts_at total [] j few = refl
block_starts_at total (b ∷ bs) zero few = elim (Bool-cases b) [
  | inl wanted ↦ rw wanted (ground (arith, few))
  | inr unwanted ↦ rw unwanted refl
]
block_starts_at total (b ∷ bs) (suc j) few = elim (Bool-cases b) [
  | inl wanted ↦
      let word : (total + 8) % 2 ^ 32 ≡ total + 8 = omega (arith, few) in
      rw (wanted, word) (block_starts_at (total + 8) bs j (omega (arith, few)))
  | inr unwanted ↦ rw unwanted (block_starts_at total bs j (omega (arith, few)))
]

length-block_starts : (total : ℕ) (bs : List Bool) → length (block_starts total bs) ≡ length bs
unfolding block_starts
length-block_starts total [] = refl
length-block_starts total (b ∷ bs) = elim (Bool-cases b) [
  | inl wanted ↦ rw wanted (ap suc (length-block_starts ((total + 8) % 2 ^ 32) bs))
  | inr unwanted ↦ rw unwanted (ap suc (length-block_starts total bs))
]

set_at :
    (xs : List ℕ) (i j v d : ℕ)
    → j < length xs
    → get_or (set xs i v) j d ≡ (if i == j then v else get_or xs j d)
set_at [] i j v d h = absurd (omega arith)
set_at (x ∷ xs) zero zero v d h = refl
set_at (x ∷ xs) zero (suc j) v d h = ground arith
set_at (x ∷ xs) (suc i) zero v d h = ground arith
set_at (x ∷ xs) (suc i) (suc j) v d h = ground (arith, set_at xs i j v d (omega arith))

merge_ids_at :
    (ms ids : List ℕ) (j : ℕ)
    → j < length ids
    → (get_or (merge_ids ms ids) j invalid_index == invalid_index)
      ≡ ((get_or ids j invalid_index == invalid_index) && not (is_member j ms))
unfolding merge_ids
merge_ids_at [] ids j h = ground arith
merge_ids_at (m ∷ ms) ids j h =
    let rest = merge_ids_at ms (set ids m 1) j (omega (arith, length-set ids m 1)) in
    rest
    ∙ rw (set_at ids m j 1 invalid_index h) (elim (Bool-cases (m == j)) [
      | inl same ↦
          let same' : (j == m) ≡ true = ground (arith, same) in rw (same, same') (ground arith)
      | inr other ↦ let other' : (j == m) ≡ false = ground (arith, other) in rw (other, other') refl
    ])

valid_flags_at :
    (flags : List ℤ) (gs : List ℕ) (j : ℕ)
    → length gs ≡ length flags
    → j < length flags
    → (get_or (valid_flags flags gs) j 0 == 0)
      ≡ (is_set (get_or flags j (pos 0)) || not (get_or gs j invalid_index == invalid_index))
unfolding valid_flags
valid_flags_at [] gs j h lt = absurd (omega arith)
valid_flags_at (flag ∷ flags) [] j h lt = absurd (omega (arith, h))
valid_flags_at (flag ∷ flags) (g ∷ gs) zero h lt = ground arith
valid_flags_at (flag ∷ flags) (g ∷ gs) (suc j) h lt =
    valid_flags_at flags gs j (omega (arith, h)) (omega arith)

-- Items that are stored as they are.
unfoldable pub Stored : {B : Type 0} → (B → B) → List B → Type 0
Stored stored [] = Unit
Stored stored (x ∷ xs) = (stored x ≡ x) × Stored stored xs

pub surviving-kept :
    {B : Type 0} (stored : B → B) (starts merged : List ℕ) (i : ℕ) (xs : List B) (vs : List ℕ)
    → length vs ≡ length xs
    → Stored stored xs
    → ((j : ℕ) → j < length xs → survives starts merged (i + j) ≡ not (get_or vs j 0 == 0))
    → surviving stored starts merged i xs ≡ kept xs vs
unfolding surviving kept Stored
surviving-kept {B = B} stored starts merged i [] [] h fits same = refl
surviving-kept {B = B} stored starts merged i [] (v ∷ vs) h fits same = absurd (omega (arith, h))
surviving-kept {B = B} stored starts merged i (x ∷ xs) [] h fits same = absurd (omega (arith, h))
surviving-kept {B = B} stored starts merged i (x ∷ xs) (v ∷ vs) h (fit, fits) same =
    let at : i + 0 ≡ i = omega arith in
    let first = rw at at (same 0 (omega arith)) in
    let rest = surviving-kept stored starts merged (suc i) xs vs (omega (arith, h)) fits (λ j lt.
      let next : i + suc j ≡ suc i + j = omega arith in rw next at (same (suc j) (omega arith))) in
    elim (Bool-cases (v == 0)) [
      | inl zero_flag ↦ rw (first, zero_flag) rest
      | inr one_flag ↦ rw (first, one_flag, fit) (ap (λ (t : List B). x ∷ t) rest)
    ]

-- The host keeps the cells that the device keeps.
pub survives_valid :
    {A : Type 0} (m : MergeResult A) (mesh : Mesh A) (j : ℕ)
    → AllSplit mesh.cells mesh.flags
    → length mesh.flags ≡ length mesh.cells
    → length mesh.cells ≤ 65536
    → j < length mesh.cells
    → survives (block_starts 0 (scratch mesh.cells mesh.flags)) m.merged_child_indices (0 + j)
      ≡ not (get_or (valid_of m mesh) j 0 == 0)
unfolding survives
survives_valid m mesh j all same few lt =
    let n = length mesh.cells in
    let bs = scratch mesh.cells mesh.flags in
    let blank = replicate n invalid_index in
    let ids = merge_ids m.merged_child_indices blank in
    let sized = length-merge_ids m.merged_child_indices blank ∙ length-replicate n invalid_index in
    let zero_plus : 0 + j ≡ j = omega arith in
    let starts_sized = length-block_starts 0 bs ∙ length-scratch mesh.cells mesh.flags same in
    let inside : ltb j (length (block_starts 0 bs)) ≡ true = ground (arith, starts_sized, lt) in
    let start =
      block_starts_at 0 bs j (omega (arith, length-scratch mesh.cells mesh.flags same, few)) in
    let flag = scratch_at mesh.cells mesh.flags j all same in
    let group =
      merge_ids_at m.merged_child_indices blank j
        (omega (arith, length-replicate n invalid_index)) in
    let valid = valid_flags_at mesh.flags ids j (sized ∙ sym same) (omega (arith, same)) in
    rw (zero_plus, inside, start, flag, valid, group, get_or-replicate n j invalid_index)
      (ground arith)

-- The cells whose flag does not ask for a split and that are not listed as merged, the first having the
-- number `i`.
unfoldable pub left_over : List ℤ → List ℕ → ℕ → List CellDescriptor → List CellDescriptor
left_over (flag ∷ flags) merged i (c ∷ cs) =
    let rest = left_over flags merged (suc i) cs in
    if ltb_ℤ (pos 0) flag || is_member i merged then rest else c ∷ rest
left_over flags merged i cs = []

is_set-positive : (flag : ℤ) → is_set flag ≡ ltb_ℤ (pos 0) flag
is_set-positive (pos zero) = refl
is_set-positive (pos (suc n)) = ground arith
is_set-positive (negsuc n) = ground arith

kept-left_over :
    (flags : List ℤ) (merged : List ℕ) (i : ℕ) (cs : List CellDescriptor) (vs : List ℕ)
    → length flags ≡ length cs
    → length vs ≡ length cs
    → ((j : ℕ)
        → j < length cs
        → (get_or vs j 0 == 0) ≡ (is_set (get_or flags j (pos 0)) || is_member (i + j) merged))
    → kept cs vs ≡ left_over flags merged i cs
unfolding kept left_over
kept-left_over [] merged i [] [] hf h same = refl
kept-left_over [] merged i [] (v ∷ vs) hf h same = absurd (omega (arith, h))
kept-left_over (flag ∷ flags) merged i [] vs hf h same = absurd (omega (arith, hf))
kept-left_over [] merged i (c ∷ cs) vs hf h same = absurd (omega (arith, hf))
kept-left_over (flag ∷ flags) merged i (c ∷ cs) [] hf h same = absurd (omega (arith, h))
kept-left_over (flag ∷ flags) merged i (c ∷ cs) (v ∷ vs) hf h same =
    let at : i + 0 ≡ i = omega arith in
    let first = rw (at, is_set-positive flag) at (same 0 (omega arith)) in
    let rest =
      kept-left_over flags merged (suc i) cs vs (omega (arith, hf)) (omega (arith, h)) (λ j lt.
        let next : i + suc j ≡ suc i + j = omega arith in
        rw next at (same (suc j) (omega arith))) in
    elim (Bool-cases (ltb_ℤ (pos 0) flag || is_member i merged)) [
      | inl gone ↦ rw (first, gone) rest
      | inr stays ↦ rw (first, stays) (ap (λ (t : List CellDescriptor). c ∷ t) rest)
    ]

-- The device keeps the cells that are left over.
pub valid_of-left_over :
    {A : Type 0} (m : MergeResult A) (mesh : Mesh A)
    → length mesh.flags ≡ length mesh.cells
    → kept mesh.cells (valid_of m mesh) ≡ left_over mesh.flags m.merged_child_indices 0 mesh.cells
valid_of-left_over m mesh same =
    let n = length mesh.cells in
    let blank = replicate n invalid_index in
    let ids = merge_ids m.merged_child_indices blank in
    let sized = length-merge_ids m.merged_child_indices blank ∙ length-replicate n invalid_index in
    kept-left_over mesh.flags m.merged_child_indices 0 mesh.cells (valid_of m mesh) same
      (length-valid_of m mesh same)
      (λ j lt.
        let zero_plus : 0 + j ≡ j = omega arith in
        let group =
          merge_ids_at m.merged_child_indices blank j
            (omega (arith, length-replicate n invalid_index, lt)) in
        let valid = valid_flags_at mesh.flags ids j (sized ∙ sym same) (omega (arith, same, lt)) in
        rw (zero_plus, valid, group, get_or-replicate n j invalid_index) (ground arith))
