-- ===== src/Adaptation/Curve/Inverts.antt =====
-- `hilbert_decode_3d` gives back the low bits of the coordinates that `hilbert_encode_3d` was given.
use mathlib.Core.Path.{ap₂}
use native.Mathlib.Nat.{pow-suc, add-mul-div_right, div-eq_of_lt, one-le-pow}
use fluidloom.Prelude.{
  ℕ, zero, suc, ◌+◌, ◌*◌, ◌/◌, ◌%◌, ◌^◌, ◌≤◌, ◌<◌, ◌≡◌, refl, sym, ap, ◌∙◌, true, Bool, ◌&&◌, ◌==◌,
  ltb, arith, ℤ, pos, get_or, [],
}
use fluidloom.Hilbert.Codec.{to_u32, bit_at, quadrant_at}
use fluidloom.Hilbert.Digits.{holds_below, holds_below_at, quadrant_at-lt}
use fluidloom.Hilbert.Encode.{room_step, room_fits, regroup, pow-pos, pow-le}
use fluidloom.Hilbert.Shifts.{low_bits_suc}
use fluidloom.Hilbert.RoundTrip.{Room, push_bit, start-Room, room_word, point_eq}
use fluidloom.Hilbert.Coord.{append_bit}
use fluidloom.Hilbert.Coord.Octree.{half_word}
use fluidloom.Adaptation.Curve.{
  rotation_rows, rotation_table, direction_table, encode_3d_loop, hilbert_encode_3d, original_block,
  point, decode_3d_loop, hilbert_decode_3d,
}

-- The search undoes the rotation, and the rotations and the digits stay below 8.
abbrev undone : ℕ → ℕ → Bool
undone rotation block =
    (original_block (get_or rotation_rows rotation []) 0 (rotation_table rotation block) == block)
    && ltb (rotation_table rotation block) 8
    && ltb (direction_table rotation block) 8

all_undone : holds_below 64 (λ n. undone (n / 8) (n % 8)) ≡ true
unfolding holds_below original_block rotation_table direction_table
all_undone = refl

record Undone (rotation block : ℕ) : Type 0 where
  search :
      original_block (get_or rotation_rows rotation []) 0 (rotation_table rotation block) ≡ block
  digit : rotation_table rotation block < 8
  next : direction_table rotation block < 8

of_undone : (rotation block : ℕ) → undone rotation block ≡ true → Undone rotation block
of_undone rotation block h = record {
  search = ground (arith, h);
  digit = ground (arith, h);
  next = ground (arith, h);
}

table-Undone : (rotation block : ℕ) → rotation < 8 → block < 8 → Undone rotation block
table-Undone rotation block hr hb =
    let e : (rotation * 8 + block) / 8 ≡ rotation = omega arith in
    let e' : (rotation * 8 + block) % 8 ≡ block = omega arith in
    of_undone rotation block (
      ap₂ undone (sym e) (sym e')
      ∙ holds_below_at 64 (λ n. undone (n / 8) (n % 8)) (rotation * 8 + block) all_undone
          (omega arith))

-- The digits of the index for the levels r - 1, …, 0.
unfoldable pub digits : ℕ → ℕ → ℕ → ℕ → ℕ → ℕ
digits zero rotation x y z = 0
digits (suc r) rotation x y z =
    let block = quadrant_at r x y z in
    rotation_table rotation block * 8 ^ r + digits r (direction_table rotation block) x y z

digit_bound : (d p e : ℕ) → d < 8 → e < p → d * p + e < p * 8
digit_bound d p e hd he = grind arith

digits-lt : (r rotation x y z : ℕ) → rotation < 8 → digits r rotation x y z < 8 ^ r
unfolding digits
digits-lt zero rotation x y z h = omega arith
digits-lt (suc r) rotation x y z h =
    let block = quadrant_at r x y z in
    let u = table-Undone rotation block h (quadrant_at-lt r x y z) in
    let rest = digits-lt r (direction_table rotation block) x y z u.next in
    rw (pow-suc 8 r) (
      digit_bound (rotation_table rotation block) (8 ^ r)
        (digits r (direction_table rotation block) x y z) u.digit rest)

pub encode_3d_loop_lem :
    (r rotation x y z h : ℕ)
    → rotation < 8
    → (h + 1) * 8 ^ r ≤ 2 ^ 63
    → encode_3d_loop r rotation x y z h ≡ h * 8 ^ r + digits r rotation x y z
unfolding encode_3d_loop digits
encode_3d_loop_lem zero rotation x y z h small room = omega arith
encode_3d_loop_lem (suc r) rotation x y z h small room =
    let block = quadrant_at r x y z in
    let d = rotation_table rotation block in
    let u = table-Undone rotation block small (quadrant_at-lt r x y z) in
    let room' = room_step h d (8 ^ r) u.digit (rw (pow-suc 8 r) at room) in
    let fits = room_fits (h * 8 + d) (8 ^ r) (pow-pos r) room' in
    let exact : h * 8 % 2 ^ 64 ≡ h * 8 = omega arith in
    rw exact (
      encode_3d_loop_lem r (direction_table rotation block) x y z (h * 8 + d) u.next room'
      ∙ regroup h d (8 ^ r) (digits r (direction_table rotation block) x y z)
      ∙ rw (pow-suc 8 r) refl)

-- The digit at the place `p` of a number.
digit_at : (top d p e : ℕ) → d < 8 → e < p → (top * (p * 8) + (d * p + e)) / p % 8 ≡ d
digit_at top d p e hd he =
    let form : top * (p * 8) + (d * p + e) ≡ e + (top * 8 + d) * p = omega arith in
    let quotient : (e + (top * 8 + d) * p) / p ≡ top * 8 + d =
      add-mul-div_right e (top * 8 + d) (omega arith) ∙ rw (div-eq_of_lt he) (omega arith) in
    rw (form, quotient) (omega arith)

shift_power : (r : ℕ) → 2 ^ (3 * r) ≡ 8 ^ r
shift_power zero = refl
shift_power (suc r) =
    let e : 3 * suc r ≡ suc (suc (suc (3 * r))) = omega arith in
    rw (e, pow-suc 2 (suc (suc (3 * r))), pow-suc 2 (suc (3 * r)), pow-suc 2 (3 * r), pow-suc 8 r)
      (omega (arith, shift_power r))

append_bit-pos : (u b r : ℕ) → b < 2 → Room u (suc r) → append_bit (pos u) b ≡ pos (u * 2 + b)
append_bit-pos u b r hb room =
    let next = push_bit u b r 0 hb room in
    half_word u b hb
      (omega (arith, room_word (u * 2 + b) (2 ^ r) (one-le-pow r 2 (omega arith)) next.0.1))

decode_3d_loop_lem :
    (r rotation top x y z ux uy uz : ℕ)
    → rotation < 8
    → Room ux r
    → Room uy r
    → Room uz r
    → decode_3d_loop r rotation (top * 8 ^ r + digits r rotation x y z) (pos ux) (pos uy) (pos uz)
      ≡ point
          (pos (ux * 2 ^ r + x % 2 ^ r))
          (pos (uy * 2 ^ r + y % 2 ^ r))
          (pos (uz * 2 ^ r + z % 2 ^ r))
unfolding decode_3d_loop digits
decode_3d_loop_lem zero rotation top x y z ux uy uz small rx ry rz =
    point_eq (ap pos (omega arith)) (ap pos (omega arith)) (ap pos (omega arith))
decode_3d_loop_lem (suc r) rotation top x y z ux uy uz small rx ry rz =
    let q = quadrant_at r x y z in
    let d = rotation_table rotation q in
    let u = table-Undone rotation q small (quadrant_at-lt r x y z) in
    let e = digits r (direction_table rotation q) x y z in
    let shift : (top * 8 ^ suc r + (d * 8 ^ r + e)) / 2 ^ (3 * r) % 8 ≡ d =
      rw (pow-suc 8 r, shift_power r)
        (digit_at top d (8 ^ r) e u.digit
          (digits-lt r (direction_table rotation q) x y z u.next)) in
    let same : top * 8 ^ suc r + (d * 8 ^ r + e) ≡ (top * 8 + d) * 8 ^ r + e =
      rw (pow-suc 8 r) (sym (regroup top d (8 ^ r) e)) in
    let bx = bit_at x r in
    let by = bit_at y r in
    let bz = bit_at z r in
    let px = push_bit ux bx r (x % 2 ^ r) (omega arith) rx in
    let py = push_bit uy by r (y % 2 ^ r) (omega arith) ry in
    let pz = push_bit uz bz r (z % 2 ^ r) (omega arith) rz in
    let ex : q % 2 ≡ bx = omega arith in
    let ey : q / 2 % 2 ≡ by = omega arith in
    let ez : q / 4 % 2 ≡ bz = omega arith in
    rw (shift, u.search)
      (rw (same, ex, ey, ez)
        (rw
          (
            append_bit-pos ux bx r (omega arith) rx,
            append_bit-pos uy by r (omega arith) ry,
            append_bit-pos uz bz r (omega arith) rz,
          )
          (decode_3d_loop_lem r (direction_table rotation q) (top * 8 + d) x y z (ux * 2 + bx)
              (uy * 2 + by) (uz * 2 + bz) u.next px.0.1 py.0.1 pz.0.1
            ∙ point_eq (ap pos (omega (arith, px.1, low_bits_suc x r)))
                (ap pos (omega (arith, py.1, low_bits_suc y r)))
                (ap pos (omega (arith, pz.1, low_bits_suc z r))))))

-- Up to level 21, decoding the index of a cell gives back the low `max_level` bits of its three
-- coordinates, which are read as 32-bit words.
pub decode_3d-encode_3d :
    (x y z : ℤ) (max_level : ℕ)
    → max_level ≤ 21
    → hilbert_decode_3d (hilbert_encode_3d x y z max_level) max_level
      ≡ point
          (pos (to_u32 x % 2 ^ max_level))
          (pos (to_u32 y % 2 ^ max_level))
          (pos (to_u32 z % 2 ^ max_level))
unfolding hilbert_decode_3d hilbert_encode_3d
decode_3d-encode_3d x y z max_level le =
    let room = start-Room max_level le in
    rw
      (encode_3d_loop_lem max_level 0 (to_u32 x) (to_u32 y) (to_u32 z) 0 (omega arith)
        (omega (arith, pow-le max_level le)))
      (decode_3d_loop_lem max_level 0 0 (to_u32 x) (to_u32 y) (to_u32 z) 0 0 0 (omega arith) room
          room room
        ∙ point_eq (ap pos (omega arith)) (ap pos (omega arith)) (ap pos (omega arith)))
