-- ===== src/Adaptation/Buffers.antt =====
-- Writes into the buffers of the adaptation's kernels, a thread after the other.
use fluidloom.Prelude.{
  ℕ, suc, ◌+◌, ◌≡◌, refl, sym, ap, arith, List, [], ◌∷◌, ◌++◌, length, set, replicate, append_assoc,
  append-nil,
}

module _ {A : Type 0} where
  -- Consecutive places from `start` on.
  unfoldable pub write_from : ℕ → List A → List A → List A
  write_from start [] buffer = buffer
  write_from start (x ∷ xs) buffer = write_from (suc start) xs (set buffer start x)

  pub set-append :
      (front : List A) (old new : A) (back : List A)
      → set (front ++ old ∷ back) (length front) new ≡ front ++ new ∷ back
  set-append [] old new back = refl
  set-append (x ∷ xs) old new back = ap (λ (t : List A). x ∷ t) (set-append xs old new back)

  snoc : (front : List A) (x : A) (back : List A) → front ++ x ∷ back ≡ (front ++ x ∷ []) ++ back
  snoc front x back = sym (append_assoc front (x ∷ []) back)

  pub length-snoc : (front : List A) (x : A) → length (front ++ x ∷ []) ≡ suc (length front)
  length-snoc [] x = refl
  length-snoc (y ∷ ys) x = ap suc (length-snoc ys x)

  -- Behind what is written, the places are filled.
  pub write_from_lem :
      (xs front : List A) (blank : A) (room : ℕ)
      → write_from (length front) xs (front ++ replicate (length xs + room) blank)
        ≡ (front ++ xs) ++ replicate room blank
  unfolding write_from
  write_from_lem [] front blank room =
      let count : 0 + room ≡ room = omega arith in rw (count, append-nil front) refl
  write_from_lem (x ∷ xs) front blank room =
      let count : suc (length xs) + room ≡ suc (length xs + room) = omega arith in
      let rest = write_from_lem xs (front ++ x ∷ []) blank room in
      rw
        (
          count,
          set-append front blank x (replicate (length xs + room) blank),
          snoc front x (replicate (length xs + room) blank),
          snoc front x xs,
        )
        (rw (length-snoc front x) at rest)
