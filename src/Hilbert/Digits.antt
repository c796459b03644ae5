-- ===== src/Hilbert/Digits.antt =====
-- The index as a number in base 8: what the loops of the codec compute, without their words.
use mathlib.Core.Path.{ap₂}
use native.Mathlib.Nat.{pow-suc}
use fluidloom.Prelude.{
  ℕ, zero, suc, ◌+◌, ◌*◌, ◌/◌, ◌%◌, ◌^◌, ◌<◌, ◌≡◌, refl, sym, ◌∙◌, Bool, true, ◌&&◌, ◌==◌, ltb,
  arith,
}
use fluidloom.Hilbert.Codec.{hilbert_table, inv_hilbert_table, quadrant_at}

-- The digits for the bits r - 1, …, 0, from `state` on.
unfoldable pub index_digits : ℕ → ℕ → ℕ → ℕ → ℕ → ℕ
index_digits zero state x y z = 0
index_digits (suc r) state x y z =
    let val = hilbert_table state (quadrant_at r x y z) in
    val % 8 * 8 ^ r + index_digits r (val / 8) x y z

-- Checking a finite range by evaluation.
unfoldable pub holds_below : ℕ → (ℕ → Bool) → Bool
holds_below zero p = true
holds_below (suc n) p = p n && holds_below n p

pub holds_below_at : (n : ℕ) (p : ℕ → Bool) (x : ℕ) → holds_below n p ≡ true → x < n → p x ≡ true
unfolding holds_below
holds_below_at zero p x h lt = absurd (omega arith)
holds_below_at (suc n) p x h lt = ground (arith, holds_below_at n p x)

-- The entries of the two tables invert one another, and lead to states below 12 only.
abbrev inverse : (val inv val_back inv_back q : ℕ) → Bool
inverse val inv val_back inv_back q =
    (val_back == val / 8 * 8 + q) && (inv_back == inv / 8 * 8 + q) && ltb val 96 && ltb inv 96

abbrev inverse_entry : ℕ → ℕ → Bool
inverse_entry state q =
    let val = hilbert_table state q in
    let inv = inv_hilbert_table state q in
    inverse val inv (inv_hilbert_table state (val % 8)) (hilbert_table state (inv % 8)) q

inverse_entries : holds_below 96 (λ n. inverse_entry (n / 8) (n % 8)) ≡ true
unfolding holds_below hilbert_table inv_hilbert_table
inverse_entries = refl

pub record Inverse (state q : ℕ) : Type 0 where
  pub forth :
      inv_hilbert_table state (hilbert_table state q % 8) ≡ hilbert_table state q / 8 * 8 + q
  pub back :
      hilbert_table state (inv_hilbert_table state q % 8) ≡ inv_hilbert_table state q / 8 * 8 + q
  pub next : hilbert_table state q / 8 < 12
  pub inv_next : inv_hilbert_table state q / 8 < 12

of_entry : (state q : ℕ) → inverse_entry state q ≡ true → Inverse state q
of_entry state q h = record {
  forth = ground (arith, h);
  back = ground (arith, h);
  next = ground (arith, h);
  inv_next = ground (arith, h);
}

pub tables-Inverse : (state q : ℕ) → state < 12 → q < 8 → Inverse state q
tables-Inverse state q hs hq =
    let e : (state * 8 + q) / 8 ≡ state = omega arith in
    let e' : (state * 8 + q) % 8 ≡ q = omega arith in
    of_entry state q (
      ap₂ inverse_entry (sym e) (sym e')
      ∙ holds_below_at 96 (λ n. inverse_entry (n / 8) (n % 8)) (state * 8 + q) inverse_entries
          (omega arith))

pub quadrant_at-lt : (i x y z : ℕ) → quadrant_at i x y z < 8
quadrant_at-lt i x y z = omega arith

-- A digit in front of a number with fewer digits.
pub digit_bound : (d p e : ℕ) → d < 8 → e < p → d * p + e < p * 8
digit_bound d p e hd he = grind arith

pub index_digits-lt : (r state x y z : ℕ) → index_digits r state x y z < 8 ^ r
unfolding index_digits
index_digits-lt zero state x y z = omega arith
index_digits-lt (suc r) state x y z =
    let val = hilbert_table state (quadrant_at r x y z) in
    rw (pow-suc 8 r) (
      digit_bound (val % 8) (8 ^ r) (index_digits r (val / 8) x y z) (omega arith)
        (index_digits-lt r (val / 8) x y z))
