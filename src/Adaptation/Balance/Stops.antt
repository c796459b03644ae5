-- ===== src/Adaptation/Balance/Stops.antt =====
-- The loop of `enforce` stops by itself once there are no more cells to mark.
use native.Mathlib.Nat.{mod-eq_of_lt}
use fluidloom.Prelude.{
  ℕ, zero, suc, ◌+◌, ◌*◌, ◌%◌, ◌^◌, ◌≤◌, ◌<◌, ◌≡◌, refl, ap, ◌⊎◌, inl, inr, arith, List, [], ◌∷◌,
  Bool, true, false, Bool-cases, length, ◌==◌, if◌then◌else◌, ℤ, pos, ok,
}
use fluidloom.Adaptation.Cell.{CellDescriptor}
use fluidloom.Adaptation.Balance.Detect.{detect, detect_from}
use fluidloom.Adaptation.Balance.{
  is_set, is_marked, mark, marked, shadow_of, count_true, Progress, add_violations, add_marked,
  stop_at, progress, enforce_loop,
}

-- The cells that are not to be refined.
unfoldable pub unmarked : List ℤ → ℕ
unmarked [] = 0
unmarked (flag ∷ flags) = (if is_set flag then 0 else 1) + unmarked flags

unmarked-le : (flags : List ℤ) → unmarked flags ≤ length flags
unfolding unmarked
unmarked-le [] = omega arith
unmarked-le (flag ∷ flags) = ground (arith, unmarked-le flags)

marked_unset :
    (c : CellDescriptor) (l : ℕ) (v : Bool) (flag : ℤ)
    → is_marked c l v flag ≡ true
    → is_set flag ≡ false
unfolding is_marked
marked_unset c l v flag h = ground (arith, h)

mark_one :
    (c : CellDescriptor) (l : ℕ) (v : Bool) (flag : ℤ)
    → (if is_set (if is_marked c l v flag then pos 1 else flag) then 0 else 1)
        + (if is_marked c l v flag then 1 else 0)
      ≡ (if is_set flag then 0 else 1)
mark_one c l v flag = elim (Bool-cases (is_marked c l v flag)) [
  | inl taken ↦ rw (taken, marked_unset c l v flag taken) refl
  | inr left ↦ rw left (omega arith)
]

-- Every marked cell was unmarked.
unmarked-mark :
    (cs : List CellDescriptor) (ls : List ℕ) (vs : List Bool) (flags : List ℤ)
    → unmarked (mark cs ls vs flags) + marked cs ls vs flags ≡ unmarked flags
unfolding mark marked unmarked
unmarked-mark (c ∷ cs) (l ∷ ls) (v ∷ vs) (flag ∷ flags) =
    omega (arith, mark_one c l v flag, unmarked-mark cs ls vs flags)
unmarked-mark cs ls vs flags = omega arith

mark_none :
    (cs : List CellDescriptor) (ls : List ℕ) (vs : List Bool) (flags : List ℤ)
    → marked cs ls vs flags ≡ 0
    → mark cs ls vs flags ≡ flags
unfolding mark marked
mark_none (c ∷ cs) (l ∷ ls) (v ∷ vs) (flag ∷ flags) h = elim (Bool-cases (is_marked c l v flag)) [
  | inl taken ↦ absurd (omega (arith, rw taken at h))
  | inr left ↦
      rw left
        (ap (λ (t : List ℤ). flag ∷ t) (mark_none cs ls vs flags (omega (arith, rw left at h))))
]
mark_none cs ls vs flags h = refl

count_true-detect_from :
    (table : List ℕ) (all : List CellDescriptor) (levels : List ℕ) (cs : List CellDescriptor)
    (ls : List ℕ)
    → count_true (detect_from table all levels cs ls) ≤ length cs
unfolding count_true detect_from
count_true-detect_from table all levels (c ∷ cs) (l ∷ ls) =
    ground (arith, count_true-detect_from table all levels cs ls)
count_true-detect_from table all levels cs ls = omega arith

-- Where the loop stops, from the iteration `iter` on, with `n` cells that could still be marked.
pub record Settled (table : List ℕ) (cells : List CellDescriptor) (levels : List ℕ) (iter n : ℕ)
    (e : Progress) : Type 0 where
  pub started : iter < e.result.iterations
  pub soon : e.result.iterations ≤ iter + suc n
  pub balanced : e.result.converged ≡ true → count_true (detect table cells e.shadow) ≡ 0
  pub stuck :
      e.result.converged ≡ false → marked cells levels (detect table cells e.shadow) e.flags ≡ 0
  pub shadow_kept : (e.shadow ≡ levels) ⊎ (e.shadow ≡ shadow_of levels e.flags)

module _ (launches : ℕ → Bool) (table : List ℕ) (cells : List CellDescriptor) (levels : List ℕ)
    (launched : (k : ℕ) → launches k ≡ true) (few : length cells < 2 ^ 31) where
  detect-few : (shadow : List ℕ) → count_true (detect table cells shadow) < 2 ^ 32
  unfolding detect
  detect-few shadow = omega (arith, count_true-detect_from table cells shadow cells shadow)

  pub enforce_loop-Settled :
      (left iter : ℕ) (p : Progress)
      → iter + left < 2 ^ 32
      → unmarked p.flags < left
      → (p.shadow ≡ levels) ⊎ (p.shadow ≡ shadow_of levels p.flags)
      → (e : Progress) × (enforce_loop launches table cells levels left iter p ≡ ok e)
        × Settled table cells levels iter (unmarked p.flags) e
  unfolding enforce_loop
  enforce_loop-Settled zero iter p fits h kept = absurd (omega arith)
  enforce_loop-Settled (suc left) iter p fits h kept =
      let violations = detect table cells p.shadow in
      let count = count_true violations in
      let n = count % 2 ^ 32 in
      let taken = marked cells levels violations p.flags in
      let flags = mark cells levels violations p.flags in
      let m = taken % 2 ^ 32 in
      let seen = add_violations n p.result in
      let result = add_marked n m seen in
      let exact : n ≡ count = mod-eq_of_lt (detect-few p.shadow) in
      let sum = unmarked-mark cells levels violations p.flags in
      let exact' : m ≡ taken = mod-eq_of_lt (omega (arith, sum, h, fits)) in
      let word : (iter + 1) % 2 ^ 32 ≡ iter + 1 = mod-eq_of_lt (omega (arith, fits)) in
      elim (Bool-cases (n == 0)) [
        | inl none_left ↦ (
          progress p.flags p.shadow (stop_at true iter seen),
          rw (launched (3 * iter), none_left) refl,
          record {
            started = omega (arith, word);
            soon = omega (arith, word);
            balanced = λ c. ground (arith, none_left, exact);
            stuck = λ c. absurd (cc);
            shadow_kept = kept;
          },
        )
        | inr some_left ↦ elim (Bool-cases (m == 0)) [
          | inl nothing ↦
              let zero_taken : taken ≡ 0 = ground (arith, nothing, exact') in
              let same = mark_none cells levels violations p.flags zero_taken in
              (
                progress flags p.shadow (stop_at false iter result),
                rw (launched (3 * iter), some_left, launched (3 * iter + 1), nothing) refl,
                record {
                  started = omega (arith, word);
                  soon = omega (arith, word);
                  balanced = λ c. absurd (cc);
                  stuck = λ c. rw same zero_taken;
                  shadow_kept = rw same kept;
                },
              )
          | inr something ↦
              let fewer : unmarked flags < unmarked p.flags =
                ground (arith, something, exact', sum) in
              let (e, run, settled) =
                enforce_loop-Settled left (suc iter)
                  (progress flags (shadow_of levels flags) result) (omega (arith, fits))
                  (omega (arith, fewer, h)) (inr refl) in
              (
                e,
                rw
                    (
                      launched (3 * iter),
                      some_left,
                      launched (3 * iter + 1),
                      something,
                      launched (3 * iter + 2),
                    )
                    run,
                record {
                  started = omega (arith, settled.started);
                  soon = omega (arith, settled.soon, fewer);
                  balanced = settled.balanced;
                  stuck = settled.stuck;
                  shadow_kept = settled.shadow_kept;
                },
              )
        ]
      ]
