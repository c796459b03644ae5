-- ===== src/Hilbert/Shifts.antt =====
-- What the shifts of the loops of the codec do to the digits and the coordinates.
use native.Mathlib.Nat.{
  pow-suc, mul-lt-mul_of_pos_right, one-le-pow, div-add-mod', mod-lt, mul-add-mod_self_right,
  mod-eq_of_lt,
}
use fluidloom.Prelude.{
  ℕ, zero, suc, ◌+◌, ◌-◌, ◌*◌, ◌/◌, ◌%◌, ◌^◌, ◌<◌, ◌≡◌, refl, ap, ◌∙◌, true, ◌&&◌, ◌==◌, arith,
}
use fluidloom.Hilbert.Codec.{bit_at}
use fluidloom.Hilbert.Digits.{holds_below, holds_below_at}

two_digits : (d p e : ℕ) → d < 2 → e < p → d * p + e < p * 2
two_digits d p e hd he = grind arith

split_number : (u p q : ℕ) → q * p + u % p ≡ u → u ≡ q / 2 * (p * 2) + (q % 2 * p + u % p)
split_number u p q e =
    let halves : q ≡ q / 2 * 2 + q % 2 = omega arith in
    omega (arith, e, ap (λ (t : ℕ). t * p) halves)

digits_of_mod : (u p : ℕ) → 0 < p → u % (p * 2) ≡ u / p % 2 * p + u % p
digits_of_mod u p hp =
    let q = u / p in
    let rest = q % 2 * p + u % p in
    ap (λ (t : ℕ). t % (p * 2)) (split_number u p q (div-add-mod' u p))
    ∙ mul-add-mod_self_right (q / 2) (p * 2) rest
    ∙ mod-eq_of_lt (two_digits (q % 2) p (u % p) (omega arith) (mod-lt u hp))

-- The low bits of a word, one more at a time.
pub low_bits_suc : (u r : ℕ) → u % 2 ^ suc r ≡ bit_at u r * 2 ^ r + u % 2 ^ r
low_bits_suc u r =
    let p = 2 ^ r in
    let two : 2 ^ suc r ≡ p * 2 = pow-suc 2 r in
    rw two (digits_of_mod u p (one-le-pow r 2 (omega arith)))

-- The shifted index: `w` is the place of the last digit.
shifted :
    (q p w e : ℕ)
    → e < p
    → p * w ≡ 2 ^ 61
    → ((q * p + e) * w ≡ q * 2 ^ 61 + e * w) × (e * w < 2 ^ 61)
shifted q p zero e he hw = absurd (omega (arith, hw))
shifted q p (suc w) e he hw = (
  omega (arith, ap (λ (t : ℕ). q * t) hw),
  omega (arith, hw, mul-lt-mul_of_pos_right {k = suc w} he (omega arith)),
)

-- Its top digit, and what is left once that is shifted out.
pub top_digit : (q p w e : ℕ) → q < 8 → e < p → p * w ≡ 2 ^ 61 → (q * p + e) * w / 2 ^ 61 % 8 ≡ q
top_digit q p w e hq he hw = omega (arith, shifted q p w e he hw)

pub rest_digits :
    (q p w e : ℕ) → q < 8 → e < p → p * w ≡ 2 ^ 61 → (q * p + e) * w * 8 % 2 ^ 64 ≡ e * (w * 8)
rest_digits q p w e hq he hw = omega (arith, shifted q p w e he hw)

place_table :
    holds_below 21 (λ r.
      (8 ^ r * 2 ^ (64 - suc r * 3) == 2 ^ 61) && (2 ^ (64 - suc r * 3) * 8 == 2 ^ (64 - r * 3)))
    ≡ true
unfolding holds_below
place_table = refl

pub place :
    (r : ℕ)
    → r < 21
    → (8 ^ r * 2 ^ (64 - suc r * 3) ≡ 2 ^ 61) × (2 ^ (64 - suc r * 3) * 8 ≡ 2 ^ (64 - r * 3))
place r h = ground (
  arith,
  holds_below_at 21
      (λ k.
        (8 ^ k * 2 ^ (64 - suc k * 3) == 2 ^ 61) && (2 ^ (64 - suc k * 3) * 8 == 2 ^ (64 - k * 3)))
      r place_table,
)
