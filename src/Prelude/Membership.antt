-- ===== src/Prelude/Membership.antt =====
-- Membership in a list, as a sum that the tactics take apart.
use mathlib.Core.Path.{◌≡◌}
use mathlib.Core.Logic.{◌⊎◌, inl, inr, ◌↔◌}
use mathlib.Core.List.{List, [], ◌∷◌, ◌++◌}
use native.Mathlib.Omega.{arith}

module _ {A : Type 0} where
  abbrev pub In : A → List A → Type 0
  In a [] = ⊥
  In a (x ∷ xs) = (x ≡ a) ⊎ In a xs

  pub In-append : (a : A) (xs ys : List A) → In a (xs ++ ys) ↔ (In a xs ⊎ In a ys)
  In-append a [] ys = (λ m. inr m, λ s. elim s [ inl m ↦ absurd m | inr m ↦ m ])
  In-append a (x ∷ xs) ys = ground (arith, In-append a xs ys)
