-- ===== src/Adaptation/Probing/Sizes.antt =====
-- The size of the hash table.
use native.Mathlib.Nat.{pow-suc, one-le-pow}
use fluidloom.Prelude.{
  ℕ, zero, suc, ◌*◌, ◌%◌, ◌^◌, ◌≤◌, ◌<◌, ◌≡◌, refl, inl, inr, arith, false, Bool-cases, ltb,
}
use fluidloom.Adaptation.Probing.{doubled, table_size_for}

factor-le : (a p b : ℕ) → 0 < p → a * p ≡ b → a ≤ b
factor-le a p b h e = grind arith

-- The table is at least twice as large as the cells are many, and has 32-bit slots.
doubled_lem :
    (fuel k size n : ℕ)
    → k ≤ fuel
    → size * 2 ^ k ≡ 2 ^ 32
    → n * 2 ≤ 2 ^ 32
    → (n * 2 ≤ doubled fuel size n) × (doubled fuel size n ≤ 2 ^ 32)
unfolding doubled
doubled_lem zero zero size n le e hn = (omega (arith, e), omega (arith, e))
doubled_lem zero (suc k) size n le e hn = absurd (omega arith)
doubled_lem (suc fuel) zero size n le e hn =
    let enough : ltb size (n * 2 % 2 ^ 64) ≡ false = ground (arith, e, hn) in
    rw enough (omega (arith, e), omega (arith, e))
doubled_lem (suc fuel) (suc k) size n le e hn = elim (Bool-cases (ltb size (n * 2 % 2 ^ 64))) [
  | inl more ↦
      let small : size * 2 % 2 ^ 64 ≡ size * 2 = ground (arith, more, hn) in
      let half : size * 2 * 2 ^ k ≡ 2 ^ 32 = omega (arith, rw (pow-suc 2 k) at e) in
      rw (more, small) (doubled_lem fuel k (size * 2) n (omega arith) half hn)
  | inr enough ↦ rw enough (
    ground (arith, enough, hn),
    factor-le size (2 ^ suc k) (2 ^ 32) (one-le-pow (suc k) 2 (omega arith)) e,
  )
]

pub table_size_for_lem :
    (n : ℕ)
    → n * 2 ≤ 2 ^ 32
    → (n * 2 ≤ table_size_for n) × (table_size_for n ≤ 2 ^ 32) × (0 < table_size_for n)
unfolding table_size_for
table_size_for_lem n hn = ground (arith, doubled_lem 64 32 1 n (omega arith) refl hn)
