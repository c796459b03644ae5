-- ===== src/Runtime/Scheduler/Reorder.antt =====
-- Steps that are run in another order: where every two steps that conflict keep their order, and
-- all others commute, the result is that of the ascending order.
use fluidloom.Prelude.{
  ℕ, zero, suc, ◌+◌, ◌<◌, ◌≤◌, ◌≡◌, ◌≢◌, refl, ap, ◌∙◌, inl, inr, List, [], ◌∷◌, arith, count,
  position, Bool-cases, ltb, if◌then◌else◌, ◌==◌, leb,
}

unfoldable pub ascending : ℕ → ℕ → List ℕ
ascending k zero = []
ascending k (suc left) = k ∷ ascending (suc k) left

-- The list without the first occurrence.
remove : ℕ → List ℕ → List ℕ
remove k [] = []
remove k (x ∷ xs) = if x == k then xs else x ∷ remove k xs

count-remove :
    (k v : ℕ) (xs : List ℕ)
    → 0 < count k xs
    → count v (remove k xs) + (if k == v then 1 else 0) ≡ count v xs
unfolding remove
count-remove k v [] up = absurd (omega arith)
count-remove k v (x ∷ xs) up = ground (arith, count-remove k v xs)

module _ {M : Type 0} (step : ℕ → M → M) where
  unfoldable pub run : List ℕ → M → M
  run [] m = m
  run (i ∷ is) m = run is (step i m)

module _ {M : Type 0} (step : ℕ → M → M) (Conflicts : ℕ → ℕ → Type 0)
    (commute : (i j : ℕ) (m : M)
      → i < j
      → ¬ Conflicts i j
      → step i (step j m) ≡ step j (step i m)) where
  -- No step comes before one that it conflicts with as the later of the two.
  abbrev pub Respects : List ℕ → Type 0
  Respects [] = Unit
  Respects (x ∷ xs) = ((y : ℕ) → 0 < count y xs → ¬ Conflicts y x) × Respects xs

  Respects-remove : (k : ℕ) (xs : List ℕ) → Respects xs → Respects (remove k xs)
  unfolding remove
  Respects-remove k [] r = tt
  Respects-remove k (x ∷ xs) r = elim (Bool-cases (x == k)) [
    | inl here ↦ rw here r.1
    | inr there ↦ rw there (
      λ y up. r.0 y (ground (arith, up, count-remove k y xs, removed k y xs)),
      Respects-remove k xs r.1,
    )
  ]
    where
      removed : (k y : ℕ) (xs : List ℕ) → count y (remove k xs) ≤ count y xs
      removed k y [] = omega arith
      removed k y (z ∷ zs) = ground (arith, removed k y zs)

  move_front :
      (k : ℕ) (xs : List ℕ) (m : M)
      → 0 < count k xs
      → ((x : ℕ) → 0 < count x xs → x ≢ k → k < x)
      → Respects xs
      → run step xs m ≡ run step (remove k xs) (step k m)
  unfolding run remove
  move_front k [] m up least r = absurd (omega arith)
  move_front k (x ∷ xs) m up least r = elim (Bool-cases (x == k)) [
    | inl here ↦
        let same : x ≡ k = ground (arith, here) in
        rw here (ap (λ (y : ℕ). run step xs (step y m)) same)
    | inr there ↦
        let behind : 0 < count k xs = ground (arith, there) in
        let lt = least x (ground (arith)) (ground (arith, there)) in
        rw there (
          move_front k xs (step x m) behind (λ y more. least y (ground (arith, more))) r.1
          ∙ ap (run step (remove k xs)) (commute k x m lt (r.0 k behind)))
  ]

  -- A list of the numbers k … k + left - 1, each once, is empty with left = 0.
  reorder_from :
      (k left : ℕ) (xs : List ℕ) (m : M)
      → ((v : ℕ) → count v xs ≡ (if leb k v then (if ltb v (k + left) then 1 else 0) else 0))
      → Respects xs
      → run step xs m ≡ run step (ascending k left) m
  unfolding run ascending
  reorder_from k zero [] m once r = refl
  reorder_from k zero (x ∷ xs) m once r = absurd (ground (arith, once x))
  reorder_from k (suc left) xs m once r =
      let up : 0 < count k xs = ground (arith, once k) in
      move_front k xs m up (λ x c ne. ground (arith, once x, c, ne)) r
      ∙ reorder_from (suc k) left (remove k xs) (step k m)
          (λ v. ground (arith, once v, count-remove k v xs)) (Respects-remove k xs r)

  Respects-of_positions :
      (xs : List ℕ)
      → ((v : ℕ) → count v xs ≤ 1)
      → ((i j : ℕ)
          → 0 < count i xs
          → 0 < count j xs
          → Conflicts i j
          → position i xs < position j xs)
      → Respects xs
  Respects-of_positions [] once before = tt
  Respects-of_positions (x ∷ xs) once before = (
    λ y up c. absurd (ground (arith, once x, before y x (ground (arith, up)) (ground arith) c)),
    Respects-of_positions xs (λ v. ground (arith, once v))
        (λ i j ui uj c.
          ground (
            arith,
            before i j (ground (arith, ui)) (ground (arith, uj)) c,
            once i,
            once j,
            ui,
            uj,
          )),
  )

  -- Each of the first `n` steps once, conflicting ones in ascending order.
  pub reorder :
      (n : ℕ) (order : List ℕ) (m : M)
      → ((v : ℕ) → count v order ≡ (if ltb v n then 1 else 0))
      → ((i j : ℕ) → Conflicts i j → position i order < position j order)
      → run step order m ≡ run step (ascending 0 n) m
  reorder n order m once before =
      reorder_from 0 n order m (λ v. ground (arith, once v))
        (Respects-of_positions order (λ v. ground (arith, once v)) (λ i j _ _. before i j))
