-- ===== src/Adaptation/Merge/Locked.antt =====
-- `merge` only takes away cells that are fluid and marked for coarsening.
use fluidloom.Prelude.{
  ◌≤◌, ◌%◌, ◌∙◌, set, length-set, replicate, length-replicate, ℕ, suc, ◌+◌, ◌^◌, ◌<◌, ◌≡◌, refl,
  inl, inr, arith, List, [], ◌∷◌, Bool, true, false, ◌&&◌, Bool-cases, length, get_or, ◌==◌, ℤ, ok,
  In,
}
use fluidloom.Hilbert.Coord.{halve}
use fluidloom.Adaptation.Cell.{cell, is_first_sibling, CellDescriptor, invalid_index}
use fluidloom.Adaptation.Probing.{HashState}
use fluidloom.Adaptation.Probing.Filled.{build_hash_table-Built}
use fluidloom.Adaptation.Balance.Detect.{hash_words}
use fluidloom.Adaptation.Merge.{
  create_parents, Groups, groups, mark_siblings, merged_indices, merge_hash_table, merge_result,
  merge, Merged, no_merge,
}
use fluidloom.Adaptation.Merge.Threads.{
  Coarse, mark_siblings-Lock, length-mark_siblings, counter-mark_siblings,
}

member_valid :
    (i k : ℕ) (ids : List ℕ)
    → In k (merged_indices i ids)
    → (j : ℕ) × (k ≡ i + j)
      × (j < length ids)
      × ((get_or ids j invalid_index == invalid_index) ≡ false)
unfolding merged_indices
member_valid i k [] m = absurd m
member_valid i k (g ∷ gs) m = elim (Bool-cases (g == invalid_index)) [
  | inl empty ↦
      let (j, e, lt, valid) = member_valid (suc i) k gs (rw (empty, merged_indices) at m) in
      (suc j, omega (arith, e), omega (arith, lt), valid)
  | inr taken ↦ elim (rw (taken, merged_indices) at m) [
    | inl here ↦ (0, omega (arith, here), omega arith, taken)
    | inr later ↦
        let (j, e, lt, valid) = member_valid (suc i) k gs later in
        (suc j, omega (arith, e), omega (arith, lt), valid)
  ]
]

and_not_true : (b : Bool) → (b && false) ≡ false
and_not_true true = refl
and_not_true false = refl

length-create_parents :
    (cs : List CellDescriptor) (gs : List ℕ) (parents : List CellDescriptor)
    → length (create_parents cs gs parents) ≡ length parents
unfolding create_parents
length-create_parents (c ∷ cs) (g ∷ gs) parents = elim (Bool-cases (g == invalid_index)) [
  | inl empty ↦ rw empty (length-create_parents cs gs parents)
  | inr taken ↦ elim (Bool-cases (is_first_sibling c)) [
    | inr later ↦ rw (taken, later) (length-create_parents cs gs parents)
    | inl first ↦
        let parent =
          cell (halve c.x) (halve c.y) (halve c.z) ((c.level + 255) % 256) c.state c.material_id in
        rw (taken, first)
          (length-create_parents cs gs (set parents g parent) ∙ length-set parents g parent)
  ]
]
length-create_parents cs gs parents = refl

-- What `merge` takes away.
abbrev pub TakesCoarse : {A : Type 0} → List CellDescriptor → List ℤ → Merged A → Type 0
TakesCoarse cells flags r = (i : ℕ) → In i r.result.merged_child_indices → Coarse cells flags i

taken-Coarse :
    (table : List ℕ) (cells : List CellDescriptor) (flags : List ℤ) (order junk_ids : List ℕ)
    → ((k : ℕ) → In k order → k < length cells)
    → ((k : ℕ) → k < length cells → In k order)
    → length junk_ids ≡ length cells
    → (i : ℕ)
    → In i (merged_indices 0 (mark_siblings table cells flags order (groups junk_ids 0)).group_id)
    → Coarse cells flags i
taken-Coarse table cells flags order junk_ids inside all sized i m =
    let g = mark_siblings table cells flags order (groups junk_ids 0) in
    let (j, e, lt, valid) = member_valid 0 i g.group_id m in
    let same : i ≡ j = omega (arith, e) in
    let few : j < length cells =
      omega (arith, lt, length-mark_siblings table cells flags order (groups junk_ids 0), sized) in
    elim (mark_siblings-Lock table cells flags order (groups junk_ids 0) j inside
      (inl (all j few))) [
        | inl empty ↦ absurd (ground (arith, valid, empty))
        | inr coarse ↦ rw same coarse
      ]

module _ {A : Type 0} (plus : A → A → A) (eighth : A → A) (zero_field : A) (components : ℕ)
    (volume_weighted : Bool) (junk : CellDescriptor) (calls : ℕ → Bool)
    (order junk_ids : List ℕ) where
  taken_result :
      (has_fields : Bool) (cells : List CellDescriptor) (flags : List ℤ) (rows : List (List A))
      (g : Groups)
      → ((i : ℕ) → In i (merged_indices 0 g.group_id) → Coarse cells flags i)
      → (i : ℕ)
      → In i
          (merge_result plus eighth zero_field components volume_weighted junk calls order junk_ids
            cells flags has_fields rows g).merged_child_indices
      → Coarse cells flags i
  unfolding merge_result
  taken_result has_fields cells flags rows g taken i m = taken i m

  parents_few :
      (has_fields : Bool) (cells : List CellDescriptor) (flags : List ℤ) (rows : List (List A))
      (table : List ℕ)
      → length
          (merge_result plus eighth zero_field components volume_weighted junk calls order junk_ids
            cells flags has_fields rows
            (mark_siblings table cells flags order (groups junk_ids 0))).parents
        ≤ length order
  unfolding merge_result
  parents_few has_fields cells flags rows table =
      let g = mark_siblings table cells flags order (groups junk_ids 0) in
      omega (
        arith,
        length-create_parents cells g.group_id (replicate g.group_counter junk),
        length-replicate g.group_counter junk,
        counter-mark_siblings table cells flags order (groups junk_ids 0),
      )

  no_merge-TakesCoarse :
      (cells : List CellDescriptor) (flags : List ℤ) (s : HashState)
      → TakesCoarse cells flags (record { hash_state = s; result = no_merge {A = A} })
  no_merge-TakesCoarse cells flags s = λ i m. absurd m

  -- For less than 2^31 cells, where the calls of OpenCL succeed, every cell has a thread and the
  -- buffer of the groups has a place for every cell, `merge` returns, and the cells that it reports as
  -- merged, whatever the order of the threads, are fluid and marked for coarsening; it makes at most as
  -- many parents as there are threads.
  pub merge-TakesCoarse :
      (allocates : ℕ → Bool) (cells : List CellDescriptor) (flags : List ℤ) (has_fields : Bool)
      (rows : List (List A)) (s : HashState)
      → ((bytes : ℕ) → allocates bytes ≡ true)
      → ((k : ℕ) → calls k ≡ true)
      → length cells < 2 ^ 31
      → ((k : ℕ) → In k order → k < length cells)
      → ((k : ℕ) → k < length cells → In k order)
      → length junk_ids ≡ length cells
      → (r : Merged A) × (merge plus eighth zero_field components volume_weighted junk calls order
            junk_ids allocates cells flags has_fields rows s
          ≡ ok r)
        × TakesCoarse cells flags r
        × (length r.result.parents ≤ length order)
  unfolding merge merge_hash_table
  merge-TakesCoarse allocates cells flags has_fields rows s room good few inside all sized =
      elim (Bool-cases (length cells == 0)) [
        | inl empty ↦ (
          record { hash_state = s; result = no_merge },
          rw empty refl,
          no_merge-TakesCoarse cells flags s,
          omega arith,
        )
        | inr filled ↦
            let (built, made, holds) = build_hash_table-Built allocates cells s few room in
            let table = hash_words built in
            let g = mark_siblings table cells flags order (groups junk_ids 0) in
            let taken = taken-Coarse table cells flags order junk_ids inside all sized in
            elim (Bool-cases (g.group_counter == 0)) [
              | inl no_groups ↦ (
                record { hash_state = built; result = no_merge },
                rw (filled, made) (rw (good 0, no_groups) refl),
                no_merge-TakesCoarse cells flags built,
                omega arith,
              )
              | inr some_groups ↦ (
                record {
                  hash_state = built;
                  result =
                      merge_result plus eighth zero_field components volume_weighted junk calls
                        order junk_ids cells flags has_fields rows g;
                },
                rw (filled, made)
                    (rw (good 0, some_groups, good 1, good 2, and_not_true has_fields) refl),
                taken_result has_fields cells flags rows g taken,
                parents_few has_fields cells flags rows table,
              )
            ]
      ]
