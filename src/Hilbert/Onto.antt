-- ===== src/Hilbert/Onto.antt =====
-- Every index below 8^level is the index of a cell, so `encode` gives back what `decode` was given.
use native.Mathlib.Nat.{
  pow-suc, one-le-pow, div-add-mod', mod-lt, mod-eq_of_lt, mul-add-div_right, div-eq_of_lt,
  pow-le-pow_right, div-lt_iff_lt-mul,
}
use fluidloom.Prelude.{
  ℕ, zero, suc, ◌+◌, ◌*◌, ◌/◌, ◌%◌, ◌^◌, ◌≤◌, ◌<◌, ◌≡◌, refl, ap, ◌∙◌, arith, pos,
}
use fluidloom.Hilbert.Codec.{inv_hilbert_table, bit_at, quadrant_at, truncate, encode, decode}
use fluidloom.Hilbert.Digits.{index_digits, tables-Inverse}
use fluidloom.Hilbert.Encode.{encode_lem, pow-pos}
use fluidloom.Hilbert.Bits.{bit_at-high, index_digits-same}
use fluidloom.Hilbert.RoundTrip.{decode_digits}

-- Coordinates of `r` bits whose digits from `state` on are `e`.
abbrev Preimage : ℕ → ℕ → ℕ → Type 0
Preimage r state e =
    (x y z : ℕ) × (x < 2 ^ r) × (y < 2 ^ r) × (z < 2 ^ r) × (index_digits r state x y z ≡ e)

bit_front : (b x r : ℕ) → b < 2 → x < 2 ^ r → bit_at (b * 2 ^ r + x) r ≡ b
bit_front b x r hb hx =
    ap (λ (t : ℕ). t % 2)
      (mul-add-div_right (one-le-pow r 2 (omega arith)) b x
        ∙ ap (λ (t : ℕ). b + t) (div-eq_of_lt hx))
    ∙ omega arith

bound_front : (b x r : ℕ) → b < 2 → x < 2 ^ r → b * 2 ^ r + x < 2 ^ suc r
bound_front b x r hb hx = rw (pow-suc 2 r) (grind arith)

pub preimage : (r state e : ℕ) → r ≤ 21 → state < 12 → e < 8 ^ r → Preimage r state e
unfolding index_digits
preimage zero state e le st lt = (0, 0, 0, omega arith, omega arith, omega arith, omega arith)
preimage (suc r) state e le st lt =
    let d = e / 8 ^ r in
    let rest = e % 8 ^ r in
    let val = inv_hilbert_table state d in
    let d_lt : d < 8 = (div-lt_iff_lt-mul (pow-pos r)).1 (omega (arith, lt, pow-suc 8 r)) in
    let inverse = tables-Inverse state d st d_lt in
    let q = val % 8 in
    let (x, y, z, hx, hy, hz, e') =
      preimage r (val / 8) rest (omega arith) inverse.inv_next (mod-lt e (pow-pos r)) in
    let bx = q % 2 in
    let by = q / 2 % 2 in
    let bz = q / 4 % 2 in
    let quadrant : quadrant_at r (bx * 2 ^ r + x) (by * 2 ^ r + y) (bz * 2 ^ r + z) ≡ q =
      rw
        (
          bit_front bx x r (omega arith) hx,
          bit_front by y r (omega arith) hy,
          bit_front bz z r (omega arith) hz,
        )
        (omega arith) in
    let lower : index_digits r (val / 8) (bx * 2 ^ r + x) (by * 2 ^ r + y) (bz * 2 ^ r + z) ≡ rest =
      index_digits-same r (val / 8) (bx * 2 ^ r + x) (by * 2 ^ r + y) (bz * 2 ^ r + z) x y z
        (λ i lt.
          rw (bit_at-high bx x i r lt, bit_at-high by y i r lt, bit_at-high bz z i r lt) refl)
      ∙ e' in
    let digit : (val / 8 * 8 + d) % 8 ≡ d = omega arith in
    let state_next : (val / 8 * 8 + d) / 8 ≡ val / 8 = omega arith in
    (
      bx * 2 ^ r + x,
      by * 2 ^ r + y,
      bz * 2 ^ r + z,
      bound_front bx x r (omega arith) hx,
      bound_front by y r (omega arith) hy,
      bound_front bz z r (omega arith) hz,
      rw (quadrant, inverse.back) (rw (digit, state_next, lower) (div-add-mod' e (8 ^ r))),
    )

low_coordinate : (x level : ℕ) → level ≤ 21 → x < 2 ^ level → truncate (pos (x % 2 ^ level)) ≡ x
unfolding truncate
low_coordinate x level le lt =
    let small : 2 ^ level ≤ 2 ^ 21 = pow-le-pow_right (omega arith) {j = 21} le in
    rw (mod-eq_of_lt lt) (omega (arith, small, lt))

encode-decode_digits :
    (level x y z : ℕ)
    → level ≤ 21
    → x < 2 ^ level
    → y < 2 ^ level
    → z < 2 ^ level
    → let h = index_digits level 0 x y z in
      encode (decode h level).x (decode h level).y (decode h level).z level ≡ h
encode-decode_digits level x y z le hx hy hz = rw (decode_digits level x y z le) (
    encode_lem (pos (x % 2 ^ level)) (pos (y % 2 ^ level)) (pos (z % 2 ^ level)) level le
    ∙ rw (low_coordinate x level le hx, low_coordinate y level le hy, low_coordinate z level le hz)
        refl)

-- Up to level 21, encoding the coordinates that an index below 8^level decodes to gives the index.
pub encode-decode :
    (h level : ℕ)
    → level ≤ 21
    → h < 8 ^ level
    → encode (decode h level).x (decode h level).y (decode h level).z level ≡ h
encode-decode h level le lt =
    let (x, y, z, hx, hy, hz, e) = preimage level 0 h le (omega arith) lt in
    rw e at (encode-decode_digits level x y z le hx hy hz)
