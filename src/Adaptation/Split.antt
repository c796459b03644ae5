-- ===== src/Adaptation/Split.antt =====
-- `SplitEngine::split` (src/adaptation/SplitEngine.cpp) and the kernels `split_count_and_allocate`
-- and `split_generate_children` (src/adaptation/kernels/split_cells.cl).
-- `calls` tells which of the calls of OpenCL that are checked succeeds, by its number. The threads of
-- a launch write to different places, here one after the other. The fields of the children and their
-- indices on the curve are computed into buffers that are released unread, and are left out; so are
-- the block starts of the first kernel, which the host's overwrite.
pub mod Children
pub mod Octants
use fluidloom.Prelude.{
  ℕ, zero, suc, ◌+◌, ◌*◌, ◌/◌, ◌%◌, ◌^◌, List, [], ◌∷◌, Bool, true, false, not, ◌&&◌, length,
  replicate, ltb, ◌==◌, if◌then◌else◌, ℤ, Result, ok, err,
}
use fluidloom.Hilbert.Coord.{append_bit}
use fluidloom.Adaptation.Cell.{CellDescriptor, cell, fluid, max_refinement_level, invalid_index}
use fluidloom.Adaptation.Balance.{is_set}
use fluidloom.Adaptation.Buffers.{write_from}

pub record SplitResult : Type 0 where
  pub success : Bool
  pub num_children : ℕ
  pub num_parents_split : ℕ
  pub children : List CellDescriptor
  pub parent_to_child_map : List ℕ
  pub split_parent_indices : List ℕ

pub data SplitError : Type 0 where
  scratch_failed block_start_failed count_failed read_failed write_failed : SplitError
  generate_failed interpolate_failed : SplitError

abbrev pub no_split : SplitResult
no_split = record {
  success = false;
  num_children = 0;
  num_parents_split = 0;
  children = [];
  parent_to_child_map = [];
  split_parent_indices = [];
}

-- The predicate of the count kernel.
unfoldable pub can_split : CellDescriptor → ℤ → Bool
can_split c flag = is_set flag && ((c.state == fluid) && ltb c.level max_refinement_level)

unfoldable pub scratch : List CellDescriptor → List ℤ → List Bool
scratch (c ∷ cs) (flag ∷ flags) = can_split c flag ∷ scratch cs flags
scratch cs flags = []

-- The block starts of the host's loop, from the present number of children on.
unfoldable pub block_starts : ℕ → List Bool → List ℕ
block_starts total [] = []
block_starts total (b ∷ bs) =
    let skipped = block_starts total bs in
    let counted = block_starts ((total + 8) % 2 ^ 32) bs in
    if b then total ∷ counted else invalid_index ∷ skipped

unfoldable pub split_indices : ℕ → List Bool → List ℕ
split_indices i [] = []
split_indices i (b ∷ bs) =
    let rest = split_indices (suc i) bs in if b then i % 2 ^ 32 ∷ rest else rest

unfoldable pub total_children : ℕ → List Bool → ℕ
total_children total [] = total
total_children total (b ∷ bs) =
    let skipped = total_children total bs in
    let counted = total_children ((total + 8) % 2 ^ 32) bs in if b then counted else skipped

unfoldable pub split_count : List Bool → ℕ
split_count [] = 0
split_count (b ∷ bs) = ((if b then 1 else 0) + split_count bs) % 2 ^ 32

-- What the kernel writes for a child, and the host reads into a descriptor.
abbrev pub child_of : CellDescriptor → ℕ → CellDescriptor
child_of c k =
    cell (append_bit c.x (k % 2)) (append_bit c.y (k / 2 % 2)) (append_bit c.z (k / 4 % 2))
      ((c.level + 1) % 256) c.state c.material_id

abbrev pub children_from : CellDescriptor → List CellDescriptor
children_from c =
    child_of c 0
    ∷ child_of c 1
    ∷ child_of c 2
    ∷ child_of c 3
    ∷ child_of c 4
    ∷ child_of c 5
    ∷ child_of c 6
    ∷ child_of c 7
    ∷ []

-- The threads of `split_generate_children`.
unfoldable pub generate_children :
    List CellDescriptor → List ℕ → List CellDescriptor → List CellDescriptor
generate_children (c ∷ cs) (start ∷ starts) buffer =
    generate_children cs starts
      (if start == invalid_index then buffer else write_from start (children_from c) buffer)
generate_children cs starts buffer = buffer

-- `junk` is what a fresh buffer holds.
module _ (junk : CellDescriptor) (calls : ℕ → Bool) where
  abbrev pub split_of : List CellDescriptor → List Bool → SplitResult
  split_of cells wanted =
      let starts = block_starts 0 wanted in
      let total = total_children 0 wanted in
      record {
        success = not (total == 0);
        num_children = total;
        num_parents_split = split_count wanted;
        children = generate_children cells starts (replicate total junk);
        parent_to_child_map = starts;
        split_parent_indices = split_indices 0 wanted;
      }

  unfoldable pub split : List CellDescriptor → List ℤ → Bool → Result SplitError SplitResult
  split cells flags has_fields =
      let wanted = scratch cells flags in
      let result = split_of cells wanted in
      if length cells == 0
      then ok no_split
      else if not (calls 0)
      then err scratch_failed
      else if not (calls 1)
      then err block_start_failed
      else if not (calls 2)
      then err count_failed
      else if not (calls 3)
      then err read_failed
      else if result.num_children == 0
      then ok (record result { children = [] })
      else if not (calls 4)
      then err write_failed
      else if not (calls 5)
      then err generate_failed
      else if has_fields && not (calls 6)
      then err interpolate_failed
      else ok result
