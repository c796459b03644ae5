-- ===== src/Hilbert/Bits.antt =====
-- The digits of an index depend on the low bits of the coordinates only.
use native.Mathlib.Nat.{
  pow-suc, one-le-pow, div-div-eq-div-mul, mul-add-div_right, mul-add-mod_self_right,
}
use fluidloom.Prelude.{
  ℕ, zero, suc, ◌+◌, ◌*◌, ◌/◌, ◌%◌, ◌^◌, ◌<◌, ◌≡◌, refl, ap, ◌∙◌, arith, Bool-cases, ◌==◌, inl, inr,
}
use fluidloom.Hilbert.Codec.{bit_at, quadrant_at, hilbert_table}
use fluidloom.Hilbert.Digits.{index_digits}

factor : (i k : ℕ) → i < k → (m : ℕ) × (2 ^ k ≡ m * 2 * 2 ^ i)
factor i zero lt = absurd (omega arith)
factor i (suc k) lt = elim (Bool-cases (i == k)) [
  | inl last ↦ let e : i ≡ k = ground arith in (1, pow-suc 2 k ∙ rw e (omega arith))
  | inr more ↦
      let (m, e) = factor i k (ground (arith, more)) in (m * 2, pow-suc 2 k ∙ rw e (omega arith))
]

even_front : (c m p v : ℕ) → 0 < p → (c * (m * 2 * p) + v) / p % 2 ≡ v / p % 2
even_front c m p v hp =
    let e : c * (m * 2 * p) + v ≡ c * m * 2 * p + v = omega arith in
    ap (λ (t : ℕ). t / p % 2) e
    ∙ ap (λ (t : ℕ). t % 2) (mul-add-div_right hp (c * m * 2) v)
    ∙ mul-add-mod_self_right (c * m) 2 (v / p)

-- A multiple of 2 ^ k in front does not change the bits below k.
pub bit_at-high : (a v i k : ℕ) → i < k → bit_at (a * 2 ^ k + v) i ≡ bit_at v i
bit_at-high a v i k lt =
    let (m, e) = factor i k lt in rw e (even_front a m (2 ^ i) v (one-le-pow i 2 (omega arith)))

pub bit_at-half : (u i : ℕ) → bit_at (u / 2) i ≡ bit_at u (suc i)
bit_at-half u i =
    let e : 2 * 2 ^ i ≡ 2 ^ suc i = omega (arith, pow-suc 2 i) in
    rw (div-div-eq-div-mul u 2 (2 ^ i), e) refl

pub index_digits-same :
    (r state x y z x' y' z' : ℕ)
    → ((i : ℕ) → i < r → quadrant_at i x y z ≡ quadrant_at i x' y' z')
    → index_digits r state x y z ≡ index_digits r state x' y' z'
unfolding index_digits
index_digits-same zero state x y z x' y' z' same = refl
index_digits-same (suc r) state x y z x' y' z' same =
    let rest =
      index_digits-same r (hilbert_table state (quadrant_at r x' y' z') / 8) x y z x' y' z'
        (λ i lt. same i (omega arith)) in
    rw (same r (omega arith)) (rw rest refl)

front_half : (d p e : ℕ) → (d * (p * 8) + e) / 8 ≡ d * p + e / 8
front_half d p e = omega arith

-- Halving the coordinates drops the last digit.
pub index_digits-half :
    (r state x y z : ℕ)
    → index_digits (suc r) state x y z / 8 ≡ index_digits r state (x / 2) (y / 2) (z / 2)
unfolding index_digits
index_digits-half zero state x y z = omega arith
index_digits-half (suc r) state x y z =
    let q : quadrant_at r (x / 2) (y / 2) (z / 2) ≡ quadrant_at (suc r) x y z =
      rw (bit_at-half x r, bit_at-half y r, bit_at-half z r) refl in
    let s' = hilbert_table state (quadrant_at (suc r) x y z) / 8 in
    rw (q, pow-suc 8 r)
      (front_half (hilbert_table state (quadrant_at (suc r) x y z) % 8) (8 ^ r)
          (index_digits (suc r) s' x y z)
        ∙ rw (index_digits-half r s' x y z) refl)
