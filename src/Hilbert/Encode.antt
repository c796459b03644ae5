-- ===== src/Hilbert/Encode.antt =====
-- `encode` is the number of the digits: no shift of its loop loses a bit, up to level 21.
use native.Mathlib.Nat.{pow-suc, mod-eq_of_lt, mul-div_cancel, mul-lt-mul_of_pos_right}
use fluidloom.Prelude.{
  ℕ, zero, suc, ◌+◌, ◌-◌, ◌*◌, ◌/◌, ◌%◌, ◌^◌, ◌≤◌, ◌<◌, ◌≡◌, refl, ◌∙◌, true, ◌&&◌, ◌==◌, ltb, leb,
  arith, ℤ, Bool-cases, inl, inr,
}
use fluidloom.Hilbert.Codec.{
  hilbert_table, quadrant_at, truncate, encode_loop, rounds, clear_high, encode,
}
use fluidloom.Hilbert.Digits.{index_digits, holds_below, holds_below_at, index_digits-lt}

-- The step of the bound: one more digit, one power less.
pub room_step : (h d p : ℕ) → d < 8 → (h + 1) * (p * 8) ≤ 2 ^ 63 → (h * 8 + d + 1) * p ≤ 2 ^ 63
room_step h d p hd room = grind arith

pub room_fits : (h p : ℕ) → 0 < p → (h + 1) * p ≤ 2 ^ 63 → h < 2 ^ 63
room_fits h p hp room = grind arith

pub regroup : (h d p e : ℕ) → (h * 8 + d) * p + e ≡ h * (p * 8) + (d * p + e)
regroup h d p e = omega arith

pub pow-pos : (r : ℕ) → 0 < 8 ^ r
pow-pos zero = omega arith
pow-pos (suc r) = omega (arith, pow-suc 8 r, pow-pos r)

encode_loop_lem :
    (r state x y z h : ℕ)
    → (h + 1) * 8 ^ r ≤ 2 ^ 63
    → encode_loop r state x y z h ≡ h * 8 ^ r + index_digits r state x y z
unfolding encode_loop index_digits
encode_loop_lem zero state x y z h room = omega arith
encode_loop_lem (suc r) state x y z h room =
    let val = hilbert_table state (quadrant_at r x y z) in
    let room' = room_step h (val % 8) (8 ^ r) (omega arith) (rw (pow-suc 8 r) at room) in
    let fits = room_fits (h * 8 + val % 8) (8 ^ r) (pow-pos r) room' in
    let exact : (h * 8 + val % 8) % 2 ^ 64 ≡ h * 8 + val % 8 = omega arith in
    rw exact (
      encode_loop_lem r (val / 8) x y z (h * 8 + val % 8) room'
      ∙ regroup h (val % 8) (8 ^ r) (index_digits r (val / 8) x y z)
      ∙ rw (pow-suc 8 r) refl)

powers : holds_below 22 (λ l. (8 ^ l * 2 ^ (64 - l * 3) == 2 ^ 64) && leb (8 ^ l) (2 ^ 63)) ≡ true
unfolding holds_below
powers = refl

pub pow_product : (l : ℕ) → l ≤ 21 → 8 ^ l * 2 ^ (64 - l * 3) ≡ 2 ^ 64
pow_product l h = ground (
  arith,
  holds_below_at 22 (λ k. (8 ^ k * 2 ^ (64 - k * 3) == 2 ^ 64) && leb (8 ^ k) (2 ^ 63)) l powers,
)

pub pow-le : (l : ℕ) → l ≤ 21 → 8 ^ l ≤ 2 ^ 63
pow-le l h = ground (
  arith,
  holds_below_at 22 (λ k. (8 ^ k * 2 ^ (64 - k * 3) == 2 ^ 64) && leb (8 ^ k) (2 ^ 63)) l powers,
)

-- Shifting to the top and back loses nothing of a number that fits.
shift_back : (h p s : ℕ) → h < p → p * s ≡ 2 ^ 64 → h * s % 2 ^ 64 / s ≡ h
shift_back h p zero lt e = absurd (omega (arith, e))
shift_back h p (suc s) lt e =
    let pos : 0 < suc s = omega arith in
    let fits : h * suc s < 2 ^ 64 = omega (arith, e, mul-lt-mul_of_pos_right lt pos) in
    rw (mod-eq_of_lt fits) (mul-div_cancel h pos)

clear_high_lem : (level h : ℕ) → level ≤ 21 → h < 8 ^ level → clear_high level h ≡ h
unfolding clear_high
clear_high_lem level h le lt =
    let e : (64 + 768 - level * 3) % 256 ≡ 64 - level * 3 = omega arith in
    rw e (elim (Bool-cases (ltb (64 - level * 3) 64)) [
      | inl below ↦
          rw below (shift_back h (8 ^ level) (2 ^ (64 - level * 3)) lt (pow_product level le))
      | inr above ↦ rw above refl
    ])

pub encode_lem :
    (x y z : ℤ) (level : ℕ)
    → level ≤ 21
    → encode x y z level ≡ index_digits level 0 (truncate x) (truncate y) (truncate z)
unfolding encode
encode_lem x y z level le =
    let tx = truncate x in
    let ty = truncate y in
    let tz = truncate z in
    let e : rounds level ≡ level = ground arith in
    let room : (0 + 1) * 8 ^ level ≤ 2 ^ 63 = omega (arith, pow-le level le) in
    let loop : encode_loop level 0 tx ty tz 0 ≡ index_digits level 0 tx ty tz =
      encode_loop_lem level 0 tx ty tz 0 room ∙ omega arith in
    rw (e, loop)
      (clear_high_lem level (index_digits level 0 tx ty tz) le (index_digits-lt level 0 tx ty tz))
