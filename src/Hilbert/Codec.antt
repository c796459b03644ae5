-- ===== src/Hilbert/Codec.antt =====
-- `encode`, `decode`, `getParent`, `getChild` and `isValid` (src/core/hilbert/HilbertCodec.cpp,
-- include/fluidloom/core/hilbert/HilbertCodec.h).
-- An `int32_t` is the integer that it stands for, an unsigned word the number. Shifts and masks are
-- products, quotients and remainders by powers of 2. The shift of a 32-bit word by its width or
-- more is undefined in the source, so the theorems keep `level` at 21 or below.
use fluidloom.Prelude.{
  ℕ, zero, suc, ◌+◌, ◌-◌, ◌*◌, ◌/◌, ◌%◌, ◌^◌, List, [], ◌∷◌, get_or, Bool, true, false, ◌&&◌, ◌==◌,
  ltb, leb, if◌then◌else◌, ℤ, pos, negsuc, Result, ok, err,
}

pub data HilbertError : Type 0 where
  no_parent no_child bad_quadrant : HilbertError

abbrev pub max_refinement_level : ℕ
max_refinement_level = 8

abbrev pub coordinate_bits : ℕ
coordinate_bits = 21

abbrev pub hilbert_empty : ℕ
hilbert_empty = 0xffff_ffff_ffff_ffff

-- [state][quadrant], the entry next_state * 8 + curve_index
abbrev pub hilbert_rows : List (List ℕ)
hilbert_rows =
    (8 ∷ 17 ∷ 27 ∷ 18 ∷ 47 ∷ 38 ∷ 28 ∷ 37 ∷ [])
    ∷ (16 ∷ 71 ∷ 1 ∷ 62 ∷ 51 ∷ 52 ∷ 2 ∷ 61 ∷ [])
    ∷ (0 ∷ 75 ∷ 95 ∷ 76 ∷ 9 ∷ 10 ∷ 86 ∷ 85 ∷ [])
    ∷ (4 ∷ 77 ∷ 55 ∷ 78 ∷ 3 ∷ 66 ∷ 80 ∷ 65 ∷ [])
    ∷ (50 ∷ 49 ∷ 45 ∷ 46 ∷ 67 ∷ 88 ∷ 68 ∷ 7 ∷ [])
    ∷ (6 ∷ 57 ∷ 39 ∷ 72 ∷ 5 ∷ 58 ∷ 84 ∷ 83 ∷ [])
    ∷ (12 ∷ 11 ∷ 29 ∷ 90 ∷ 79 ∷ 32 ∷ 30 ∷ 89 ∷ [])
    ∷ (74 ∷ 91 ∷ 73 ∷ 40 ∷ 69 ∷ 92 ∷ 70 ∷ 15 ∷ [])
    ∷ (14 ∷ 13 ∷ 81 ∷ 82 ∷ 63 ∷ 36 ∷ 24 ∷ 35 ∷ [])
    ∷ (20 ∷ 31 ∷ 19 ∷ 56 ∷ 53 ∷ 54 ∷ 42 ∷ 41 ∷ [])
    ∷ (26 ∷ 93 ∷ 43 ∷ 44 ∷ 25 ∷ 94 ∷ 64 ∷ 23 ∷ [])
    ∷ (22 ∷ 87 ∷ 21 ∷ 60 ∷ 33 ∷ 48 ∷ 34 ∷ 59 ∷ [])
    ∷ []

-- [state][curve_index], the entry next_state * 8 + quadrant
abbrev pub inv_hilbert_rows : List (List ℕ)
inv_hilbert_rows =
    (8 ∷ 17 ∷ 19 ∷ 26 ∷ 30 ∷ 39 ∷ 37 ∷ 44 ∷ [])
    ∷ (16 ∷ 2 ∷ 6 ∷ 52 ∷ 53 ∷ 63 ∷ 59 ∷ 65 ∷ [])
    ∷ (0 ∷ 12 ∷ 13 ∷ 73 ∷ 75 ∷ 87 ∷ 86 ∷ 90 ∷ [])
    ∷ (86 ∷ 71 ∷ 69 ∷ 4 ∷ 0 ∷ 73 ∷ 75 ∷ 50 ∷ [])
    ∷ (93 ∷ 49 ∷ 48 ∷ 68 ∷ 70 ∷ 42 ∷ 43 ∷ 7 ∷ [])
    ∷ (75 ∷ 57 ∷ 61 ∷ 87 ∷ 86 ∷ 4 ∷ 0 ∷ 34 ∷ [])
    ∷ (37 ∷ 95 ∷ 91 ∷ 9 ∷ 8 ∷ 26 ∷ 30 ∷ 76 ∷ [])
    ∷ (43 ∷ 74 ∷ 72 ∷ 89 ∷ 93 ∷ 68 ∷ 70 ∷ 15 ∷ [])
    ∷ (30 ∷ 82 ∷ 83 ∷ 39 ∷ 37 ∷ 9 ∷ 8 ∷ 60 ∷ [])
    ∷ (59 ∷ 47 ∷ 46 ∷ 18 ∷ 16 ∷ 52 ∷ 53 ∷ 25 ∷ [])
    ∷ (70 ∷ 28 ∷ 24 ∷ 42 ∷ 43 ∷ 89 ∷ 93 ∷ 23 ∷ [])
    ∷ (53 ∷ 36 ∷ 38 ∷ 63 ∷ 59 ∷ 18 ∷ 16 ∷ 81 ∷ [])
    ∷ []

unfoldable pub hilbert_table : ℕ → ℕ → ℕ
hilbert_table state quadrant = get_or (get_or hilbert_rows state []) quadrant 0

unfoldable pub inv_hilbert_table : ℕ → ℕ → ℕ
inv_hilbert_table state curve_idx = get_or (get_or inv_hilbert_rows state []) curve_idx 0

-- `static_cast<uint32_t>` of an `int32_t`.
abbrev pub to_u32 : ℤ → ℕ
to_u32 (pos n) = n % 2 ^ 32
to_u32 (negsuc n) = 2 ^ 32 - 1 - n % 2 ^ 32

-- `static_cast<int32_t>` of a `uint32_t`.
abbrev pub to_i32 : ℕ → ℤ
to_i32 w = if ltb w (2 ^ 31) then pos w else negsuc (2 ^ 32 - 1 - w)

unfoldable pub truncate : ℤ → ℕ
truncate x = to_u32 x % 2 ^ coordinate_bits

abbrev pub bit_at : ℕ → ℕ → ℕ
bit_at u i = u / 2 ^ i % 2

-- The three bits at `i`.
abbrev pub quadrant_at : ℕ → ℕ → ℕ → ℕ → ℕ
quadrant_at i ux uy uz = bit_at uz i * 4 + bit_at uy i * 2 + bit_at ux i

-- The loop over the bits i - 1, …, 0.
unfoldable pub encode_loop : ℕ → ℕ → ℕ → ℕ → ℕ → ℕ → ℕ
encode_loop zero state ux uy uz h = h
encode_loop (suc i) state ux uy uz h =
    let val = hilbert_table state (quadrant_at i ux uy uz) in
    encode_loop i (val / 8) ux uy uz ((h * 8 + val % 8) % 2 ^ 64)

-- The counter is an `int8_t`, which starts below 0 where `level` is above 128.
abbrev pub rounds : ℕ → ℕ
rounds level = if leb level 128 then level else 0

-- The shift is a `uint8_t`.
unfoldable pub clear_high : ℕ → ℕ → ℕ
clear_high level h =
    let shift = (64 + 768 - level * 3) % 256 in
    if ltb shift 64 then h * 2 ^ shift % 2 ^ 64 / 2 ^ shift else h

unfoldable pub encode : ℤ → ℤ → ℤ → ℕ → ℕ
encode x y z level =
    clear_high level (encode_loop (rounds level) 0 (truncate x) (truncate y) (truncate z) 0)

pub record Cube : Type 0 where
  pub x : ℕ
  pub y : ℕ
  pub z : ℕ

unfoldable pub decode_loop : ℕ → ℕ → ℕ → ℕ → ℕ → ℕ → Cube
decode_loop zero state temp_h ux uy uz = record { x = ux; y = uy; z = uz }
decode_loop (suc left) state temp_h ux uy uz =
    let val = inv_hilbert_table state (temp_h / 2 ^ 61 % 8) in
    let quadrant = val % 8 in
    decode_loop left (val / 8) (temp_h * 8 % 2 ^ 64) ((ux * 2 + quadrant % 2) % 2 ^ 32)
      ((uy * 2 + quadrant / 2 % 2) % 2 ^ 32) ((uz * 2 + quadrant / 4 % 2) % 2 ^ 32)

pub record Point : Type 0 where
  pub x : ℤ
  pub y : ℤ
  pub z : ℤ

abbrev pub to_point : Cube → Point
to_point c = record { x = to_i32 c.x; y = to_i32 c.y; z = to_i32 c.z }

unfoldable pub decode : ℕ → ℕ → Point
decode hilbert level =
    if level == 0
    then record { x = pos 0; y = pos 0; z = pos 0 }
    else to_point (decode_loop level 0 (hilbert * 2 ^ (64 - level * 3) % 2 ^ 64) 0 0 0)

unfoldable pub get_parent : ℕ → ℕ → Result HilbertError ℕ
get_parent hilbert level = if level == 0 then err no_parent else ok (hilbert / 8)

-- `(hilbert << 3) | quadrant`, the low three bits being free.
unfoldable pub get_child : ℕ → ℕ → ℕ → Result HilbertError ℕ
get_child hilbert level quadrant =
    if leb max_refinement_level level
    then err no_child
    else if ltb 7 quadrant
    then err bad_quadrant
    else ok (hilbert * 8 % 2 ^ 64 + quadrant)

unfoldable pub is_valid : ℕ → ℕ → Bool
is_valid hilbert level =
    let unused_bits = (64 + 768 - level * 3) % 256 in
    if hilbert == hilbert_empty
    then false
    else if leb (2 ^ 63) hilbert
    then false
    else if ltb 0 unused_bits && ltb unused_bits 64
    then hilbert / 2 ^ (level * 3) == 0
    else true
