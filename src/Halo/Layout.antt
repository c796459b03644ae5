-- ===== src/Halo/Layout.antt =====
-- `PackBufferLayout` (include/fluidloom/halo/PackBufferLayout.h): where a component of a field of a
-- cell lies in a pack buffer. Sizes are 64-bit; the theorems keep them in range.
pub mod Packed
pub mod Places
use fluidloom.Prelude.{
  ℕ, zero, suc, ◌+◌, ◌*◌, ◌/◌, ◌%◌, ◌^◌, List, [], ◌∷◌, ◌++◌, Option, none, some, String, Bool,
  true, false, not, ◌||◌, ltb, ◌==◌, get_elem?, if◌then◌else◌,
}

pub record FieldLayout : Type 0 where
  pub field_name : String
  pub num_components : ℕ
  pub bytes_per_component : ℕ
  pub offset_in_cell : ℕ

pub record PackBufferLayout : Type 0 where
  pub capacity_bytes : ℕ
  pub used_bytes : ℕ
  pub fields : List FieldLayout
  pub cell_size_bytes : ℕ

abbrev pub new_layout : PackBufferLayout
new_layout = record { capacity_bytes = 0; used_bytes = 0; fields = []; cell_size_bytes = 0 }

abbrev pub max_cells : PackBufferLayout → ℕ
max_cells l = if ltb 0 l.cell_size_bytes then l.capacity_bytes / l.cell_size_bytes else 0

-- The sum of the three offsets, on 64-bit words.
abbrev pub field_offset : FieldLayout → ℕ → ℕ → ℕ → ℕ
field_offset f cells component_idx cell_idx =
    (f.offset_in_cell * cells
      + component_idx * f.bytes_per_component * cells
      + cell_idx * f.bytes_per_component)
    % 2 ^ 64

unfoldable pub get_offset : PackBufferLayout → ℕ → ℕ → ℕ → ℕ
get_offset l field_idx component_idx cell_idx = elim (get_elem? l.fields field_idx) [
  | none ↦ 0
  | some f ↦ if max_cells l == 0 then 0 else field_offset f (max_cells l) component_idx cell_idx
]

-- The loop of `validate`.
unfoldable pub fields_aligned : List FieldLayout → Bool
fields_aligned [] = true
fields_aligned (f ∷ fs) =
    let rest = fields_aligned fs in
    if not (f.bytes_per_component % 4 == 0)
    then false
    else if not (f.offset_in_cell % 4 == 0)
    then false
    else rest

unfoldable pub validate : PackBufferLayout → Bool
validate l =
    if (l.capacity_bytes == 0) || ltb l.capacity_bytes l.used_bytes
    then false
    else if l.cell_size_bytes == 0
    then false
    else fields_aligned l.fields

unfoldable pub add_field : String → ℕ → ℕ → PackBufferLayout → PackBufferLayout
add_field name num_comp bytes_per_comp l = record l {
  fields =
      l.fields
      ++ record {
        field_name = name;
        num_components = num_comp;
        bytes_per_component = bytes_per_comp;
        offset_in_cell = l.cell_size_bytes;
      }
        ∷ [];
  cell_size_bytes = (l.cell_size_bytes + num_comp * bytes_per_comp) % 2 ^ 64;
}
