-- ===== src/Adaptation/Cell.antt =====
-- `CellDescriptor` (include/fluidloom/adaptation/CellDescriptor.h).
-- The coordinates are signed fields of 21 bits, the level and the state are fields of 4 bits.
pub mod Octet
use fluidloom.Prelude.{
  ℕ, ◌+◌, ◌-◌, ◌/◌, ◌%◌, ◌^◌, Bool, true, false, not, ◌&&◌, ◌==◌, ltb, if◌then◌else◌, ℤ, pos,
  negsuc, eqb_ℤ,
}
use fluidloom.Hilbert.Codec.{to_u32}
use fluidloom.Hilbert.Coord.{halve, append_bit}
use fluidloom.Adaptation.Curve.{hilbert_encode_3d}

pub record CellDescriptor : Type 0 where
  pub x : ℤ
  pub y : ℤ
  pub z : ℤ
  pub level : ℕ
  pub state : ℕ
  pub material_id : ℕ
  pub visited : ℕ
  pub reserved : ℕ

abbrev pub max_refinement_level : ℕ
max_refinement_level = 8

abbrev pub invalid_index : ℕ
invalid_index = 0xffff_ffff

abbrev pub fluid : ℕ
fluid = 0

-- A write to a signed field of 21 bits.
abbrev pub to_i21 : ℤ → ℤ
to_i21 x = let w = to_u32 x % 2 ^ 21 in if ltb w (2 ^ 20) then pos w else negsuc (2 ^ 21 - 1 - w)

-- A write of a cell's coordinates, level, state and material, as the engines and the methods do it.
abbrev pub cell : ℤ → ℤ → ℤ → ℕ → ℕ → ℕ → CellDescriptor
cell x y z level state material_id = record {
  x = to_i21 x;
  y = to_i21 y;
  z = to_i21 z;
  level = level % 2 ^ 4;
  state = state % 2 ^ 4;
  material_id = material_id % 2 ^ 24;
  visited = 0;
  reserved = 0;
}

unfoldable pub get_hilbert : CellDescriptor → ℕ
get_hilbert c = hilbert_encode_3d c.x c.y c.z max_refinement_level

-- `level - 1` in 4 bits is `level + 15`.
unfoldable pub get_parent : CellDescriptor → CellDescriptor
get_parent c = cell (halve c.x) (halve c.y) (halve c.z) (c.level + 15) c.state c.material_id

unfoldable pub get_child : ℕ → CellDescriptor → CellDescriptor
get_child child_idx c =
    cell (append_bit c.x (child_idx % 2)) (append_bit c.y (child_idx / 2 % 2))
      (append_bit c.z (child_idx / 4 % 2)) (c.level + 1) c.state c.material_id

unfoldable pub is_sibling_of : CellDescriptor → CellDescriptor → Bool
is_sibling_of c other =
    if not (c.level == other.level)
    then false
    else if c.level == 0
    then false
    else eqb_ℤ (halve c.x) (halve other.x)
      && (eqb_ℤ (halve c.y) (halve other.y) && eqb_ℤ (halve c.z) (halve other.z))

abbrev pub is_even : ℤ → Bool
is_even x = to_u32 x % 2 == 0

unfoldable pub is_first_sibling : CellDescriptor → Bool
is_first_sibling c = is_even c.x && (is_even c.y && is_even c.z)

unfoldable pub same_cell : CellDescriptor → CellDescriptor → Bool
same_cell a b = eqb_ℤ a.x b.x && (eqb_ℤ a.y b.y && (eqb_ℤ a.z b.z && (a.level == b.level)))
