-- ===== src/Fields/Manager/ById.antt =====
-- A map from numbers as an association list.
use fluidloom.Prelude.{ℕ, ◌≡◌, refl, List, [], ◌∷◌, Option, none, some, ◌==◌, if◌then◌else◌, arith}

abbrev pub Table {ℓ} : Type ℓ → Type ℓ
Table V = List (ℕ × V)

module _ {V : Type 0} where
  unfoldable pub find : ℕ → Table V → Option V
  find k [] = none
  find k ((j, v) ∷ t) = if j == k then some v else find k t

  unfoldable pub store : ℕ → V → Table V → Table V
  store k v [] = (k, v) ∷ []
  store k v ((j, w) ∷ t) = if j == k then (k, v) ∷ t else (j, w) ∷ store k v t

  unfoldable pub erase : ℕ → Table V → Table V
  erase k [] = []
  erase k ((j, w) ∷ t) = let rest = erase k t in if j == k then rest else (j, w) ∷ rest

  pub find-store :
      (k wanted : ℕ) (v : V) (t : Table V)
      → find wanted (store k v t) ≡ (if k == wanted then some v else find wanted t)
  unfolding find store
  find-store k wanted v [] = refl
  find-store k wanted v ((j, w) ∷ t) = ground (arith, find-store k wanted v t)

  pub find-erase :
      (k wanted : ℕ) (t : Table V)
      → find wanted (erase k t) ≡ (if k == wanted then none else find wanted t)
  unfolding find erase
  find-erase k wanted [] = ground arith
  find-erase k wanted ((j, w) ∷ t) = ground (arith, find-erase k wanted t)
