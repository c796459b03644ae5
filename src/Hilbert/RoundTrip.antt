-- ===== src/Hilbert/RoundTrip.antt =====
-- `decode` gives back the low bits of the coordinates that `encode` was given.
use native.Mathlib.Nat.{
  pow-suc, mul-lt-mul_of_pos_right, one-le-pow, mod-lt, mod-eq_of_lt, pow-le-pow_right,
}
use fluidloom.Prelude.{
  ℕ, zero, suc, ◌+◌, ◌-◌, ◌*◌, ◌/◌, ◌%◌, ◌^◌, ◌≤◌, ◌<◌, ◌≡◌, refl, ap, ◌∙◌, true, false, ◌==◌, ltb,
  arith, ℤ, pos,
}
use fluidloom.Hilbert.Codec.{
  hilbert_table, inv_hilbert_table, bit_at, quadrant_at, truncate, to_i32, Cube, Point, to_point,
  decode_loop, decode, encode,
}
use fluidloom.Hilbert.Digits.{index_digits, index_digits-lt, tables-Inverse, quadrant_at-lt}
use fluidloom.Hilbert.Encode.{encode_lem, pow_product}
use fluidloom.Hilbert.Shifts.{low_bits_suc, top_digit, rest_digits, place}

-- A coordinate takes one more bit and stays a 31-bit word.
pub room_bit : (u b p : ℕ) → b < 2 → (u + 1) * (p * 2) ≤ 2 ^ 31 → (u * 2 + b + 1) * p ≤ 2 ^ 31
room_bit u b p hb room = grind arith

pub room_word : (u p : ℕ) → 0 < p → (u + 1) * p ≤ 2 ^ 31 → u < 2 ^ 31
room_word u p hp room = grind arith

abbrev pub Room : ℕ → ℕ → Type 0
Room u r = (u + 1) * 2 ^ r ≤ 2 ^ 31

pub push_bit :
    (u b r c : ℕ)
    → b < 2
    → Room u (suc r)
    → (((u * 2 + b) % 2 ^ 32 ≡ u * 2 + b) × Room (u * 2 + b) r)
      × ((u * 2 + b) * 2 ^ r + c ≡ u * 2 ^ suc r + (b * 2 ^ r + c))
push_bit u b r c hb room =
    let two : 2 ^ suc r ≡ 2 ^ r * 2 = pow-suc 2 r in
    let room' = room_bit u b (2 ^ r) hb (rw two at room) in
    let small = room_word (u * 2 + b) (2 ^ r) (one-le-pow r 2 (omega arith)) room' in
    ((omega arith, room'), rw two (omega arith))

abbrev cube : ℕ → ℕ → ℕ → Cube
cube x y z = record { x = x; y = y; z = z }

cube_eq : {a b c a' b' c' : ℕ} → a ≡ a' → b ≡ b' → c ≡ c' → cube a b c ≡ cube a' b' c'
cube_eq p q r = λ i. cube (p i) (q i) (r i)

decode_loop_lem :
    (r state x y z ux uy uz : ℕ)
    → r ≤ 21
    → state < 12
    → Room ux r
    → Room uy r
    → Room uz r
    → decode_loop r state (index_digits r state x y z * 2 ^ (64 - r * 3)) ux uy uz
      ≡ cube (ux * 2 ^ r + x % 2 ^ r) (uy * 2 ^ r + y % 2 ^ r) (uz * 2 ^ r + z % 2 ^ r)
unfolding decode_loop index_digits
decode_loop_lem zero state x y z ux uy uz le st rx ry rz =
    cube_eq (omega arith) (omega arith) (omega arith)
decode_loop_lem (suc r) state x y z ux uy uz le st rx ry rz =
    let q = quadrant_at r x y z in
    let val = hilbert_table state q in
    let e = index_digits r (val / 8) x y z in
    let w = 2 ^ (64 - suc r * 3) in
    let inverse = tables-Inverse state q st (quadrant_at-lt r x y z) in
    let (pw, next) = place r (omega arith) in
    let top : (val % 8 * 8 ^ r + e) * w / 2 ^ 61 % 8 ≡ val % 8 =
      top_digit (val % 8) (8 ^ r) w e (omega arith) (index_digits-lt r (val / 8) x y z) pw in
    let rest : (val % 8 * 8 ^ r + e) * w * 8 % 2 ^ 64 ≡ e * 2 ^ (64 - r * 3) =
      rest_digits (val % 8) (8 ^ r) w e (omega arith) (index_digits-lt r (val / 8) x y z) pw
      ∙ ap (λ (t : ℕ). e * t) next in
    let inv : inv_hilbert_table state (val % 8) ≡ val / 8 * 8 + q = inverse.forth in
    let bx = bit_at x r in
    let by = bit_at y r in
    let bz = bit_at z r in
    let px = push_bit ux bx r (x % 2 ^ r) (omega arith) rx in
    let py = push_bit uy by r (y % 2 ^ r) (omega arith) ry in
    let pz = push_bit uz bz r (z % 2 ^ r) (omega arith) rz in
    let s' : (val / 8 * 8 + q) / 8 ≡ val / 8 = omega arith in
    let ex : (val / 8 * 8 + q) % 8 % 2 ≡ bx = omega arith in
    let ey : (val / 8 * 8 + q) % 8 / 2 % 2 ≡ by = omega arith in
    let ez : (val / 8 * 8 + q) % 8 / 4 % 2 ≡ bz = omega arith in
    rw (top, rest, inv)
      (rw (s', ex, ey, ez)
        (rw (px.0.0, py.0.0, pz.0.0)
          (decode_loop_lem r (val / 8) x y z (ux * 2 + bx) (uy * 2 + by) (uz * 2 + bz) (omega arith)
              inverse.next px.0.1 py.0.1 pz.0.1
            ∙ cube_eq (omega (arith, px.1, low_bits_suc x r))
                (omega (arith, py.1, low_bits_suc y r)) (omega (arith, pz.1, low_bits_suc z r)))))

-- A coordinate of at most 21 bits is below 2 ^ 31, so it does not become negative.
pow2-le : (l : ℕ) → l ≤ 21 → 2 ^ l ≤ 2 ^ 21
pow2-le l le = pow-le-pow_right (omega arith) le

pub start-Room : (l : ℕ) → l ≤ 21 → Room 0 l
start-Room l le = omega (arith, pow2-le l le)

to_i32_low :
    (t level : ℕ) → level ≤ 21 → to_i32 (0 * 2 ^ level + t % 2 ^ level) ≡ pos (t % 2 ^ level)
to_i32_low t level le =
    let e : 0 * 2 ^ level + t % 2 ^ level ≡ t % 2 ^ level = omega arith in
    let small : ltb (t % 2 ^ level) (2 ^ 31) ≡ true =
      ground (arith, mod-lt t (one-le-pow level 2 (omega arith)), pow2-le level le) in
    rw e (rw small refl)

abbrev pub point : ℤ → ℤ → ℤ → Point
point a b c = record { x = a; y = b; z = c }

pub point_eq : {a b c a' b' c' : ℤ} → a ≡ a' → b ≡ b' → c ≡ c' → point a b c ≡ point a' b' c'
point_eq p q r = λ i. point (p i) (q i) (r i)

fits_word :
    (level e : ℕ)
    → level ≤ 21
    → e < 8 ^ level
    → e * 2 ^ (64 - level * 3) % 2 ^ 64 ≡ e * 2 ^ (64 - level * 3)
fits_word level e le lt = mod-eq_of_lt (
    omega (
      arith,
      pow_product level le,
      mul-lt-mul_of_pos_right {k = 2 ^ (64 - level * 3)} lt
          (one-le-pow (64 - level * 3) 2 (omega arith)),
    ))

decode_zero : (hilbert : ℕ) → decode hilbert 0 ≡ record { x = pos 0; y = pos 0; z = pos 0 }
unfolding decode
decode_zero hilbert = refl

decode-suc :
    (level hilbert : ℕ)
    → decode hilbert (suc level)
      ≡ to_point (decode_loop (suc level) 0 (hilbert * 2 ^ (64 - suc level * 3) % 2 ^ 64) 0 0 0)
unfolding decode
decode-suc level hilbert = let e : (suc level == 0) ≡ false = ground arith in rw e refl

pub decode_digits :
    (level a b c : ℕ)
    → level ≤ 21
    → decode (index_digits level 0 a b c) level
      ≡ record { x = pos (a % 2 ^ level); y = pos (b % 2 ^ level); z = pos (c % 2 ^ level) }
decode_digits zero a b c le =
    decode_zero (index_digits 0 0 a b c)
    ∙ point_eq (ap pos (omega arith)) (ap pos (omega arith)) (ap pos (omega arith))
decode_digits (suc l) a b c le =
    let level = suc l in
    let w = 2 ^ (64 - level * 3) in
    let e = index_digits level 0 a b c in
    let fits : e * w % 2 ^ 64 ≡ e * w = fits_word level e le (index_digits-lt level 0 a b c) in
    let room = start-Room level le in
    decode-suc l e
    ∙ rw fits (
        rw (decode_loop_lem level 0 a b c 0 0 0 le (omega arith) room room room)
          (point_eq (to_i32_low a level le) (to_i32_low b level le) (to_i32_low c level le)))

-- Up to level 21, decoding an index gives back the low `level` bits of the three coordinates that
-- were encoded, the coordinates being read as 32-bit words.
pub decode-encode :
    (x y z : ℤ) (level : ℕ)
    → level ≤ 21
    → decode (encode x y z level) level ≡ record {
      x = pos (truncate x % 2 ^ level);
      y = pos (truncate y % 2 ^ level);
      z = pos (truncate z % 2 ^ level);
    }
decode-encode x y z level le =
    rw (encode_lem x y z level le) (decode_digits level (truncate x) (truncate y) (truncate z) le)
