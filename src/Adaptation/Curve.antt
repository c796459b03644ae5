-- ===== src/Adaptation/Curve.antt =====
-- `hilbert_encode_3d` and `hilbert_decode_3d` (src/core/hilbert/HilbertCodec3D.cpp, and the copy of
-- the former in src/adaptation/utils/HilbertCodec3D.cpp).
-- An unsigned word is the number, an `int32_t` the integer that it stands for. A shift of a 32-bit
-- word by its width or more is undefined in the source, so the theorems keep `max_level` at 21.
pub mod Inverts
pub mod Morton
use fluidloom.Prelude.{
  ℕ, zero, suc, ◌+◌, ◌*◌, ◌/◌, ◌%◌, ◌^◌, List, [], ◌∷◌, get_or, ◌==◌, if◌then◌else◌, ℤ, pos,
}
use fluidloom.Hilbert.Codec.{Point, to_u32, bit_at, quadrant_at}
use fluidloom.Hilbert.Coord.{append_bit}

-- [rotation][block]
abbrev pub rotation_rows : List (List ℕ)
rotation_rows =
    (0 ∷ 1 ∷ 2 ∷ 3 ∷ 4 ∷ 5 ∷ 6 ∷ 7 ∷ [])
    ∷ (1 ∷ 0 ∷ 7 ∷ 6 ∷ 5 ∷ 4 ∷ 3 ∷ 2 ∷ [])
    ∷ (2 ∷ 3 ∷ 0 ∷ 1 ∷ 6 ∷ 7 ∷ 4 ∷ 5 ∷ [])
    ∷ (3 ∷ 2 ∷ 5 ∷ 4 ∷ 7 ∷ 6 ∷ 1 ∷ 0 ∷ [])
    ∷ (4 ∷ 5 ∷ 6 ∷ 7 ∷ 0 ∷ 1 ∷ 2 ∷ 3 ∷ [])
    ∷ (5 ∷ 4 ∷ 3 ∷ 2 ∷ 1 ∷ 0 ∷ 7 ∷ 6 ∷ [])
    ∷ (6 ∷ 7 ∷ 4 ∷ 5 ∷ 2 ∷ 3 ∷ 0 ∷ 1 ∷ [])
    ∷ (7 ∷ 6 ∷ 1 ∷ 0 ∷ 3 ∷ 2 ∷ 5 ∷ 4 ∷ [])
    ∷ []

-- [rotation][block]
abbrev pub direction_rows : List (List ℕ)
direction_rows =
    (0 ∷ 0 ∷ 0 ∷ 0 ∷ 0 ∷ 0 ∷ 0 ∷ 0 ∷ [])
    ∷ (3 ∷ 0 ∷ 0 ∷ 5 ∷ 5 ∷ 0 ∷ 0 ∷ 3 ∷ [])
    ∷ (4 ∷ 4 ∷ 0 ∷ 3 ∷ 3 ∷ 0 ∷ 4 ∷ 4 ∷ [])
    ∷ (3 ∷ 5 ∷ 5 ∷ 0 ∷ 0 ∷ 5 ∷ 5 ∷ 3 ∷ [])
    ∷ (2 ∷ 2 ∷ 2 ∷ 0 ∷ 0 ∷ 2 ∷ 2 ∷ 2 ∷ [])
    ∷ (3 ∷ 0 ∷ 0 ∷ 5 ∷ 5 ∷ 0 ∷ 0 ∷ 3 ∷ [])
    ∷ (4 ∷ 4 ∷ 0 ∷ 3 ∷ 3 ∷ 0 ∷ 4 ∷ 4 ∷ [])
    ∷ (3 ∷ 5 ∷ 5 ∷ 0 ∷ 0 ∷ 5 ∷ 5 ∷ 3 ∷ [])
    ∷ []

unfoldable pub rotation_table : ℕ → ℕ → ℕ
rotation_table rotation block = get_or (get_or rotation_rows rotation []) block 0

unfoldable pub direction_table : ℕ → ℕ → ℕ
direction_table rotation block = get_or (get_or direction_rows rotation []) block 0

-- The loop over the levels i - 1, …, 0.
unfoldable pub encode_3d_loop : ℕ → ℕ → ℕ → ℕ → ℕ → ℕ → ℕ
encode_3d_loop zero rotation ux uy uz hilbert = hilbert
encode_3d_loop (suc i) rotation ux uy uz hilbert =
    let block = quadrant_at i ux uy uz in
    encode_3d_loop i (direction_table rotation block) ux uy uz
      (hilbert * 8 % 2 ^ 64 + rotation_table rotation block)

unfoldable pub hilbert_encode_3d : ℤ → ℤ → ℤ → ℕ → ℕ
hilbert_encode_3d x y z max_level = encode_3d_loop max_level 0 (to_u32 x) (to_u32 y) (to_u32 z) 0

-- The first place, from `i` on, that holds the block, or 0.
unfoldable pub original_block : List ℕ → ℕ → ℕ → ℕ
original_block [] i block = 0
original_block (b ∷ bs) i block =
    let later = original_block bs (suc i) block in if b == block then i else later

abbrev pub point : ℤ → ℤ → ℤ → Point
point x y z = record { x = x; y = y; z = z }

-- The loop with `left` levels to go: `max_level - 1 - level` is `left - 1`.
unfoldable pub decode_3d_loop : ℕ → ℕ → ℕ → ℤ → ℤ → ℤ → Point
decode_3d_loop zero rotation hilbert x y z = point x y z
decode_3d_loop (suc left) rotation hilbert x y z =
    let block = hilbert / 2 ^ (3 * left) % 8 in
    let original = original_block (get_or rotation_rows rotation []) 0 block in
    decode_3d_loop left (direction_table rotation original) hilbert (append_bit x (original % 2))
      (append_bit y (original / 2 % 2)) (append_bit z (original / 4 % 2))

unfoldable pub hilbert_decode_3d : ℕ → ℕ → Point
hilbert_decode_3d hilbert max_level = decode_3d_loop max_level 0 hilbert (pos 0) (pos 0) (pos 0)
