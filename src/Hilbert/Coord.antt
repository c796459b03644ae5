-- ===== src/Hilbert/Coord.antt =====
-- `CellCoord`, `HilbertRange`, `validateCellCoord`, `getRootCell` and `manhattanDistance`
-- (include/fluidloom/core/hilbert/CellCoord.h, src/core/hilbert/CellCoord.cpp).
-- A coordinate is an `int32_t`; `>>` on it rounds down, `<<` drops the top bit of its word. The
-- padding and the log lines are left out.
pub mod Octree
pub mod Valid
use fluidloom.Prelude.{
  ℕ, zero, suc, ◌+◌, ◌-◌, ◌*◌, ◌/◌, ◌%◌, ◌^◌, Bool, true, false, not, ◌&&◌, ◌||◌, ◌==◌, ltb, leb,
  if◌then◌else◌, ℤ, pos, negsuc, eqb_ℤ, Result, ok, err,
}
use fluidloom.Hilbert.Codec.{
  HilbertError, no_parent, no_child, bad_quadrant, max_refinement_level, coordinate_bits, to_u32,
  to_i32, encode, is_valid,
}

pub record CellCoord : Type 0 where
  pub x : ℤ
  pub y : ℤ
  pub z : ℤ
  pub level : ℕ

unfoldable pub hilbert : CellCoord → ℕ
hilbert c = encode c.x c.y c.z c.level

-- `x >> 1`.
abbrev pub halve : ℤ → ℤ
halve (pos n) = pos (n / 2)
halve (negsuc n) = negsuc (n / 2)

unfoldable pub parent : CellCoord → Result HilbertError CellCoord
parent c =
    if c.level == 0
    then err no_parent
    else ok (record { x = halve c.x; y = halve c.y; z = halve c.z; level = c.level - 1 })

-- `(x << 1) | d` for a bit `d`.
abbrev pub append_bit : ℤ → ℕ → ℤ
append_bit x d = to_i32 (to_u32 x * 2 % 2 ^ 32 + d)

unfoldable pub child : CellCoord → ℕ → Result HilbertError CellCoord
child c quadrant =
    if leb max_refinement_level c.level
    then err no_child
    else if ltb 7 quadrant
    then err bad_quadrant
    else ok (record {
      x = append_bit c.x (quadrant % 2);
      y = append_bit c.y (quadrant / 2 % 2);
      z = append_bit c.z (quadrant / 4 % 2);
      level = (c.level + 1) % 256;
    })

pub same_cell : CellCoord → CellCoord → Bool
same_cell a b = eqb_ℤ a.x b.x && (eqb_ℤ a.y b.y && (eqb_ℤ a.z b.z && (a.level == b.level)))

pub before : CellCoord → CellCoord → Bool
before a b = ltb (hilbert a) (hilbert b)

pub record HilbertRange : Type 0 where
  pub start : ℕ
  pub end : ℕ

pub contains : HilbertRange → ℕ → Bool
contains r h = leb r.start h && ltb h r.end

-- The difference of two 64-bit words.
pub size : HilbertRange → ℕ
size r = (r.end + 2 ^ 64 - r.start) % 2 ^ 64

abbrev pub magnitude : ℤ → ℕ
magnitude (pos n) = n
magnitude (negsuc n) = n + 1

unfoldable pub validate_cell_coord : CellCoord → Bool
validate_cell_coord c =
    let limit = 2 ^ coordinate_bits in
    if ltb max_refinement_level c.level
    then false
    else if leb limit (magnitude c.x) || (leb limit (magnitude c.y) || leb limit (magnitude c.z))
    then false
    else if not (is_valid (hilbert c) c.level)
    then false
    else true

pub get_root_cell : ℤ → ℤ → ℤ → CellCoord
get_root_cell min_x min_y min_z = record { x = min_x; y = min_y; z = min_z; level = 0 }
