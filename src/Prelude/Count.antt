-- ===== src/Prelude/Count.antt =====
-- Occurrences of a number in a list, sums over the numbers below a bound, and positions.
use Prim.Native.Nat.{ℕ, zero, suc, ◌+◌, ◌<◌, ◌≤◌}
use mathlib.Core.Path.{◌≡◌, refl, ap}
use mathlib.Core.Logic.{inl, inr}
use mathlib.Core.Bool.{false}
use mathlib.Core.List.{List, [], ◌∷◌, ◌++◌}
use native.Mathlib.Omega.{arith}
use fluidloom.Prelude.Tests.{◌==◌, ltb, if◌then◌else◌, Bool-cases}
use fluidloom.Prelude.Lists.{length}

abbrev pub count : ℕ → List ℕ → ℕ
count a [] = 0
count a (x ∷ xs) = (if x == a then 1 else 0) + count a xs

pub count-append : (v : ℕ) (us vs : List ℕ) → count v (us ++ vs) ≡ count v us + count v vs
count-append v [] vs = omega arith
count-append v (u ∷ us) vs = omega (arith, count-append v us vs)

-- f 0 + … + f (n - 1)
abbrev pub sum_below : ℕ → (ℕ → ℕ) → ℕ
sum_below zero f = 0
sum_below (suc n) f = f n + sum_below n f

pub sum_below-le :
    (n : ℕ) (f g : ℕ → ℕ) → ((i : ℕ) → i < n → f i ≤ g i) → sum_below n f ≤ sum_below n g
sum_below-le zero f g h = omega arith
sum_below-le (suc n) f g h =
    omega (arith, h n (omega arith), sum_below-le n f g (λ i lt. h i (omega arith)))

pub sum_below-eq :
    (n : ℕ) (f g : ℕ → ℕ) → ((i : ℕ) → i < n → f i ≡ g i) → sum_below n f ≡ sum_below n g
sum_below-eq zero f g h = refl
sum_below-eq (suc n) f g h =
    omega (arith, h n (omega arith), sum_below-eq n f g (λ i lt. h i (omega arith)))

pub sum_below-add :
    (n : ℕ) (f g : ℕ → ℕ) → sum_below n (λ i. f i + g i) ≡ sum_below n f + sum_below n g
sum_below-add zero f g = refl
sum_below-add (suc n) f g = omega (arith, sum_below-add n f g)

-- A summand is at most the sum.
pub le-sum_below : (n i : ℕ) (f : ℕ → ℕ) → i < n → f i ≤ sum_below n f
le-sum_below zero i f h = absurd (omega arith)
le-sum_below (suc n) i f h = ground (arith, le-sum_below n i f)

-- The indicator of one number adds up to 1 if it is below the bound.
pub sum_below_single :
    (n a : ℕ) → sum_below n (λ i. if a == i then 1 else 0) ≡ (if ltb a n then 1 else 0)
sum_below_single zero a = ground arith
sum_below_single (suc n) a = ground (arith, sum_below_single n a)

-- A list whose members are below the bound has as many members as their counts add up to.
pub length-eq-sum_below :
    (n : ℕ) (xs : List ℕ)
    → ((v : ℕ) → n ≤ v → count v xs ≡ 0)
    → length xs ≡ sum_below n (λ v. count v xs)
length-eq-sum_below n [] h = zeros n
  where
    zeros : (k : ℕ) → 0 ≡ sum_below k (λ v. 0)
    zeros zero = refl
    zeros (suc k) = omega (arith, zeros k)
length-eq-sum_below n (x ∷ xs) h = ground (
  arith,
  sum_below-add n (λ v. if x == v then 1 else 0) (λ v. count v xs),
  sum_below_single n x,
  length-eq-sum_below n xs (λ v le. omega (arith, h v le)),
  h x,
)

-- The index of the first occurrence, or the length.
abbrev pub position : ℕ → List ℕ → ℕ
position a [] = 0
position a (x ∷ xs) = if x == a then 0 else suc (position a xs)

pub position-lt : (a : ℕ) (xs : List ℕ) → 0 < count a xs → position a xs < length xs
position-lt a [] h = absurd (omega arith)
position-lt a (x ∷ xs) h = ground (arith, position-lt a xs)

-- Two summands that differ at one number only.
pub sum_below-point :
    (n a : ℕ) (f g : ℕ → ℕ)
    → a < n
    → ((i : ℕ) → (i == a) ≡ false → f i ≡ g i)
    → sum_below n f + g a ≡ sum_below n g + f a
sum_below-point zero a f g lt same = absurd (omega arith)
sum_below-point (suc n) a f g lt same = elim (Bool-cases (n == a)) [
  | inl here ↦
      let e : n ≡ a = ground arith in
      let rest = sum_below-eq n f g (λ i below. same i (ground (arith, below))) in
      omega (arith, rest, ap f e, ap g e)
  | inr there ↦ omega (arith, same n there, sum_below-point n a f g (ground arith) same)
]
