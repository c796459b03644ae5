-- ===== src/Adaptation/Rebuild.antt =====
-- The rebuilding of the mesh: `compactAndRebuild` on the host, `compactAndRebuildGPU` and
-- `resizeBuffers` (src/adaptation/AdaptationEngine.cpp), with the kernels `mark_valid_cells`,
-- `compact_cells` and `append_cells` (src/adaptation/kernels/compact_cells.cl).
-- The buffers of the coordinates, levels, states and materials are one list of cells, those of the
-- fields a list of rows, with a row of `A` for each cell. A cell of the buffers may hold more bits than
-- the fields of a descriptor, into which the host stores it. `junk` is what a fresh buffer holds.
-- `std::sort` and the growth of a capacity, which is computed in `double`, are parameters. The threads
-- of a launch write to different places, here one after the other.
pub mod Compact
pub mod Survivors
pub mod Pushed
pub mod Agree
use fluidloom.Prelude.{
  ℕ, zero, suc, ◌+◌, ◌*◌, ◌%◌, ◌^◌, max, List, [], ◌∷◌, ◌++◌, map, Bool, true, false, not, ◌&&◌,
  ◌||◌, length, get_or, set, replicate, ltb, ◌==◌, if◌then◌else◌, ℤ, pos,
}
use fluidloom.Adaptation.Cell.{CellDescriptor, cell, get_hilbert, invalid_index}
use fluidloom.Adaptation.Balance.{is_set}
use fluidloom.Adaptation.Buffers.{write_from}
use fluidloom.Adaptation.Scan.{exclusive_scan, total_sum}
use fluidloom.Adaptation.Split.{SplitResult}

pub record MergeResult (A : Type 0) : Type 0 where
  pub success : Bool
  pub num_parents_created : ℕ
  pub num_children_merged : ℕ
  pub parents : List CellDescriptor
  pub averaged_fields : List (List A)
  pub merged_child_indices : List ℕ
  pub group_to_parent_map : List ℕ

-- The buffers of the mesh, with `rows` where the mesh has fields.
pub record Mesh (A : Type 0) : Type 0 where
  pub cells : List CellDescriptor
  pub flags : List ℤ
  pub has_fields : Bool
  pub rows : List (List A)
  pub capacity : ℕ

abbrev pub is_member : ℕ → List ℕ → Bool
is_member i [] = false
is_member i (j ∷ js) = (i == j) || is_member i js

-- The numbers from `i` on, as many as there are items.
abbrev pub numbers_from : {B : Type 0} → ℕ → List B → List ℕ
numbers_from i [] = []
numbers_from i (x ∷ xs) = i ∷ numbers_from (suc i) xs

unfoldable pub survives : List ℕ → List ℕ → ℕ → Bool
survives starts merged i =
    let is_split = ltb i (length starts) && not (get_or starts i invalid_index == invalid_index) in
    not is_split && not (is_member i merged)

-- The items of the surviving cells as they are stored, the first having the number `i`.
unfoldable pub surviving : {B : Type 0} → (B → B) → List ℕ → List ℕ → ℕ → List B → List B
surviving stored starts merged i [] = []
surviving stored starts merged i (x ∷ xs) =
    let rest = surviving stored starts merged (suc i) xs in
    if survives starts merged i then stored x ∷ rest else rest

-- A cell of the buffers, whose items are wider, in the fields of a descriptor.
abbrev pub as_descriptor : CellDescriptor → CellDescriptor
as_descriptor c = cell c.x c.y c.z c.level c.state c.material_id

abbrev pub unchanged : {B : Type 0} → B → B
unchanged x = x

abbrev pub child_block : CellDescriptor → List CellDescriptor → ℕ → List CellDescriptor
child_block junk children start =
    get_or children start junk
    ∷ get_or children (start + 1) junk
    ∷ get_or children (start + 2) junk
    ∷ get_or children (start + 3) junk
    ∷ get_or children (start + 4) junk
    ∷ get_or children (start + 5) junk
    ∷ get_or children (start + 6) junk
    ∷ get_or children (start + 7) junk
    ∷ []

-- The loop over `split_parent_indices`, which pushes the children.
unfoldable pub pushed_children :
    CellDescriptor → List CellDescriptor → List ℕ → List ℕ → List CellDescriptor
pushed_children junk children starts [] = []
pushed_children junk children starts (p ∷ ps) =
    child_block junk children (get_or starts p invalid_index)
    ++ pushed_children junk children starts ps

-- The same loop pushes the parent's row for each child.
unfoldable pub pushed_rows : {A : Type 0} → List (List A) → List ℕ → List (List A)
pushed_rows rows [] = []
pushed_rows rows (p ∷ ps) = replicate 8 (get_or rows p []) ++ pushed_rows rows ps

-- The averaged rows of the new parents, or zeros.
unfoldable pub parent_rows :
    {A : Type 0} → A → ℕ → List (List A) → ℕ → List CellDescriptor → List (List A)
parent_rows zero_field components averaged i [] = []
parent_rows zero_field components averaged i (p ∷ ps) =
    (if ltb i (length averaged) then get_or averaged i [] else replicate components zero_field)
    ∷ parent_rows zero_field components averaged (suc i) ps

abbrev pub grown_capacity : (ℕ → ℕ) → ℕ → ℕ
grown_capacity growth total = max (growth total) ((total + 1024) % 2 ^ 64)

module _ {A : Type 0} (zero_field : A) (components : ℕ) (junk : CellDescriptor)
    (growth : ℕ → ℕ) where
  unfoldable pub new_cells : SplitResult → MergeResult A → List CellDescriptor → List CellDescriptor
  new_cells s m cells =
      surviving as_descriptor s.parent_to_child_map m.merged_child_indices 0 cells
      ++ pushed_children junk s.children s.parent_to_child_map s.split_parent_indices
      ++ m.parents

  unfoldable pub new_rows : SplitResult → MergeResult A → List (List A) → List (List A)
  new_rows s m rows =
      surviving unchanged s.parent_to_child_map m.merged_child_indices 0 rows
      ++ pushed_rows rows s.split_parent_indices
      ++ parent_rows zero_field components m.averaged_fields 0 m.parents

  -- The order in which the cells are written back.
  abbrev pub sorted_order : ((ℕ → ℕ → Bool) → List ℕ → List ℕ) → List CellDescriptor → List ℕ
  sorted_order sort cells =
      sort (λ a b. ltb (get_hilbert (get_or cells a junk)) (get_hilbert (get_or cells b junk)))
        (numbers_from 0 cells)

  unfoldable pub compact_and_rebuild :
      ((ℕ → ℕ → Bool) → List ℕ → List ℕ) → SplitResult → MergeResult A → Mesh A → Mesh A
  compact_and_rebuild sort s m mesh =
      let cells = new_cells s m mesh.cells in
      let rows = if mesh.has_fields then new_rows s m mesh.rows else [] in
      let order = sorted_order sort cells in
      let n = length cells in
      record {
        cells = map (λ i. get_or cells i junk) order;
        flags = replicate n (pos 0);
        has_fields = mesh.has_fields;
        rows = if mesh.has_fields then map (λ i. get_or rows i []) order else [];
        capacity = if ltb mesh.capacity n then grown_capacity growth n else mesh.capacity;
      }

-- `h_merge_ids`.
unfoldable pub merge_ids : List ℕ → List ℕ → List ℕ
merge_ids [] ids = ids
merge_ids (i ∷ is) ids = merge_ids is (set ids i 1)

-- `mark_valid_cells`.
unfoldable pub valid_flags : List ℤ → List ℕ → List ℕ
valid_flags (flag ∷ flags) (g ∷ gs) =
    (if is_set flag || not (g == invalid_index) then 0 else 1) ∷ valid_flags flags gs
valid_flags flags gs = []

-- `compact_cells`, for the cells and for the rows.
unfoldable pub compact : {B : Type 0} → List B → List ℕ → List ℕ → List B → List B
compact (x ∷ xs) (v ∷ vs) (o ∷ os) buffer =
    compact xs vs os (if v == 0 then buffer else set buffer o x)
compact xs vs os buffer = buffer

-- `append_cells`, for the cells and for the rows.
abbrev pub append_at : {B : Type 0} → ℕ → List B → List B → List B
append_at offset items buffer = write_from offset items buffer

module _ {A : Type 0} (junk : CellDescriptor) (junk_row : List A) (junk_flag : ℤ)
    (growth : ℕ → ℕ) where
  -- The buffers are released and made anew.
  unfoldable pub resize_buffers : ℕ → Mesh A → Mesh A
  resize_buffers new_capacity mesh = record {
    cells = replicate (length mesh.cells) junk;
    flags = replicate (length mesh.flags) junk_flag;
    has_fields = mesh.has_fields;
    rows = replicate (length mesh.rows) junk_row;
    capacity = new_capacity;
  }

  unfoldable pub make_room : ℕ → Mesh A → Mesh A
  make_room total mesh =
      if ltb mesh.capacity total then resize_buffers (grown_capacity growth total) mesh else mesh

  -- The new children get no rows.
  unfoldable pub compact_and_rebuild_gpu : SplitResult → MergeResult A → Mesh A → Mesh A
  compact_and_rebuild_gpu s m mesh =
      let ids = merge_ids m.merged_child_indices (replicate (length mesh.cells) invalid_index) in
      let valid = valid_flags mesh.flags ids in
      let offsets = exclusive_scan valid in
      let num_survivors = total_sum valid in
      let num_new_children = length s.children in
      let total = num_survivors + num_new_children + length m.parents in
      let roomy = make_room total mesh in
      let survivors = compact roomy.cells valid offsets (replicate total junk) in
      let with_children = append_at num_survivors s.children survivors in
      let surviving_rows = compact roomy.rows valid offsets (replicate total junk_row) in
      record {
        cells = append_at (num_survivors + num_new_children) m.parents with_children;
        flags = roomy.flags;
        has_fields = mesh.has_fields;
        rows =
            if mesh.has_fields
            then append_at (num_survivors + num_new_children) m.averaged_fields surviving_rows
            else [];
        capacity = roomy.capacity;
      }
