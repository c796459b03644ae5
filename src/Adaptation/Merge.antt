-- ===== src/Adaptation/Merge.antt =====
-- `MergeEngine::merge` (src/adaptation/MergeEngine.cpp) and the kernels `mark_sibling_groups`,
-- `merge_fields` and `create_parent_cells` (src/adaptation/kernels/merge_cells.cl).
-- The threads of a launch run one after the other, in an order that is a parameter, since the first
-- two kernels write to shared places. `calls` tells which of the checked calls succeeds. The fields
-- have a row of `A` for each cell, whose sum and whose scaling by 1/8 are parameters.
pub mod Threads
pub mod Locked
use fluidloom.Prelude.{
  ℕ, zero, suc, ◌+◌, ◌*◌, ◌/◌, ◌%◌, ◌^◌, List, [], ◌∷◌, map, Option, none, some, Bool, true, false,
  not, ◌&&◌, ◌||◌, length, get_or, get_elem?, set, replicate, ltb, ◌==◌, if◌then◌else◌, ℤ, pos,
  negsuc, eqb_ℤ, Result, ok, err,
}
use fluidloom.Hilbert.Codec.{Point}
use fluidloom.Hilbert.Coord.{halve, append_bit}
use fluidloom.Adaptation.Curve.{hilbert_encode_3d, point}
use fluidloom.Adaptation.Cell.{
  CellDescriptor, cell, fluid, max_refinement_level, invalid_index, is_even, is_first_sibling,
}
use fluidloom.Adaptation.Probing.{EngineError, HashState, build_hash_table, next_hash, slot_at}
use fluidloom.Adaptation.Balance.Detect.{hash_words}
use fluidloom.Adaptation.Rebuild.{MergeResult, is_member, numbers_from}

-- The group of each cell, and the counter of the groups.
pub record Groups : Type 0 where
  pub group_id : List ℕ
  pub group_counter : ℕ

abbrev pub groups : List ℕ → ℕ → Groups
groups ids counter = record { group_id = ids; group_counter = counter }

module _ (table : List ℕ) (cells : List CellDescriptor) (flags : List ℤ) where
  -- The linear probing for a cell of the level at the point, with `left` of 64 probes to go.
  unfoldable pub sibling_index : ℕ → ℕ → ℕ → Point → ℕ
  sibling_index zero hash level p = invalid_index
  sibling_index (suc left) hash level p =
      let rest = sibling_index left (next_hash (length table) hash) level p in
      let i = slot_at table hash in
      if i == invalid_index then invalid_index else elim (get_elem? cells i) [
        | none ↦ rest
        | some c ↦
            if (c.level == level) && (eqb_ℤ c.x p.x && (eqb_ℤ c.y p.y && eqb_ℤ c.z p.z))
            then i
            else rest
      ]

  abbrev pub sibling_point : CellDescriptor → ℕ → Point
  sibling_point c k =
      point (append_bit (halve c.x) (k % 2)) (append_bit (halve c.y) (k / 2 % 2))
        (append_bit (halve c.z) (k / 4 % 2))

  unfoldable pub find_sibling : CellDescriptor → ℕ → ℕ
  find_sibling c k =
      let p = sibling_point c k in
      let hash = hilbert_encode_3d p.x p.y p.z max_refinement_level % length table % 2 ^ 32 in
      sibling_index 64 hash c.level p

  unfoldable pub coarsenable : ℕ → ℕ → Bool
  coarsenable level i = elim (get_elem? cells i) [
    | none ↦ false
    | some c ↦
        eqb_ℤ (get_or flags i (pos 0)) (negsuc 0) && ((c.level == level) && (c.state == fluid))
  ]

  -- The siblings from the number `k` on, `left` of them, if all are there and can be merged.
  unfoldable pub siblings_from : ℕ → ℕ → CellDescriptor → Option (List ℕ)
  siblings_from zero k c = some []
  siblings_from (suc left) k c =
      let i = find_sibling c k in
      let rest = siblings_from left (suc k) c in
      if i == invalid_index
      then none
      else if not (coarsenable c.level i)
      then none
      else elim rest [ none ↦ none | some is ↦ some (i ∷ is) ]

  unfoldable pub set_group : ℕ → List ℕ → List ℕ → List ℕ
  set_group group [] ids = ids
  set_group group (i ∷ is) ids = set_group group is (set ids i group)

  -- The thread of the cell `c` with the number `idx`.
  unfoldable pub mark_cell : ℕ → CellDescriptor → Groups → Groups
  mark_cell idx c g =
      let ids = set g.group_id idx invalid_index in
      if not (eqb_ℤ (get_or flags idx (pos 0)) (negsuc 0)) || not (c.state == fluid)
      then groups ids g.group_counter
      else if not (is_first_sibling c)
      then groups ids g.group_counter
      else elim (siblings_from 8 0 c) [
        | none ↦ groups ids g.group_counter
        | some is ↦ groups (set_group g.group_counter is ids) ((g.group_counter + 1) % 2 ^ 32)
      ]

  unfoldable pub mark_thread : ℕ → Groups → Groups
  mark_thread idx g = elim (get_elem? cells idx) [ none ↦ g | some c ↦ mark_cell idx c g ]

  unfoldable pub mark_siblings : List ℕ → Groups → Groups
  mark_siblings [] g = g
  mark_siblings (idx ∷ order) g = mark_siblings order (mark_thread idx g)

-- `create_parent_cells`; the parent of a group has the group's number.
unfoldable pub create_parents :
    List CellDescriptor → List ℕ → List CellDescriptor → List CellDescriptor
create_parents (c ∷ cs) (g ∷ gs) parents = create_parents cs gs (
    if g == invalid_index
    then parents
    else if not (is_first_sibling c)
    then parents
    else set parents g
        (cell (halve c.x) (halve c.y) (halve c.z) ((c.level + 255) % 256) c.state c.material_id))
create_parents cs gs parents = parents

unfoldable pub merged_indices : ℕ → List ℕ → List ℕ
merged_indices i [] = []
merged_indices i (g ∷ gs) =
    let rest = merged_indices (suc i) gs in if g == invalid_index then rest else i ∷ rest

module _ {A : Type 0} (plus : A → A → A) (eighth : A → A) where
  unfoldable pub add_rows : List A → List A → List A
  add_rows (a ∷ row) (b ∷ part) = plus a b ∷ add_rows row part
  add_rows row part = row

  -- `merge_fields`, with the averaging rule `volume_weighted` or the arithmetic mean.
  unfoldable pub merge_fields :
      Bool → List ℕ → List (List A) → List ℕ → List (List A) → List (List A)
  merge_fields volume_weighted ids rows [] averaged = averaged
  merge_fields volume_weighted ids rows (idx ∷ order) averaged =
      let g = get_or ids idx invalid_index in
      let row = get_or rows idx [] in
      let part = if volume_weighted then row else map eighth row in
      merge_fields volume_weighted ids rows order (
        if g == invalid_index
        then averaged
        else set averaged g (add_rows (get_or averaged g []) part))

pub data MergeError : Type 0 where
  mark_launch_failed create_launch_failed merge_launch_failed : MergeError
  merge_table_failed : EngineError → MergeError

abbrev pub no_merge : {A : Type 0} → MergeResult A
no_merge = record {
  success = false;
  num_parents_created = 0;
  num_children_merged = 0;
  parents = [];
  averaged_fields = [];
  merged_child_indices = [];
  group_to_parent_map = [];
}

pub record Merged (A : Type 0) : Type 0 where
  pub hash_state : HashState
  pub result : MergeResult A

abbrev pub merged : {A : Type 0} → HashState → MergeResult A → Result MergeError (Merged A)
merged s r = ok (record { hash_state = s; result = r })

-- The copy of `buildHashTable` in this engine.
unfoldable pub merge_hash_table :
    (ℕ → Bool) → List CellDescriptor → HashState → Result EngineError HashState
merge_hash_table allocates cells s = build_hash_table allocates cells s

-- `order` is the order of the threads, `junk_ids` what the fresh buffer of the groups holds.
module _ {A : Type 0} (plus : A → A → A) (eighth : A → A) (zero_field : A) (components : ℕ)
    (volume_weighted : Bool) (junk : CellDescriptor) (calls : ℕ → Bool)
    (order junk_ids : List ℕ) where
  unfoldable pub merge_result :
      List CellDescriptor → List ℤ → Bool → List (List A) → Groups → MergeResult A
  merge_result cells flags has_fields rows g =
      let n = g.group_counter in
      let indices = merged_indices 0 g.group_id in
      record {
        success = true;
        num_parents_created = n;
        num_children_merged = length indices;
        parents = create_parents cells g.group_id (replicate n junk);
        averaged_fields =
            if has_fields
            then merge_fields plus eighth volume_weighted g.group_id rows order
                (replicate n (replicate components zero_field))
            else [];
        merged_child_indices = indices;
        group_to_parent_map = numbers_from 0 (replicate n junk);
      }

  unfoldable pub merge :
      (ℕ → Bool)
      → List CellDescriptor
      → List ℤ
      → Bool
      → List (List A)
      → HashState
      → Result MergeError (Merged A)
  merge allocates cells flags has_fields rows s =
      if length cells == 0 then merged s no_merge else elim (merge_hash_table allocates cells s) [
        | err e ↦ err (merge_table_failed e)
        | ok built ↦
            let g = mark_siblings (hash_words built) cells flags order (groups junk_ids 0) in
            if not (calls 0)
            then err mark_launch_failed
            else if g.group_counter == 0
            then merged built no_merge
            else if not (calls 1)
            then err create_launch_failed
            else if has_fields && not (calls 2)
            then err merge_launch_failed
            else merged built (merge_result cells flags has_fields rows g)
      ]
