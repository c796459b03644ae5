-- ===== src/Adaptation/Balance/Returns.antt =====
-- Whatever the number of iterations, `enforce` returns and keeps the number of the refine flags.
use fluidloom.Prelude.{
  ℕ, zero, suc, ◌+◌, ◌*◌, ◌%◌, ◌^◌, ◌<◌, ◌≡◌, refl, ap, ◌∙◌, inl, inr, arith, List, ◌∷◌, Bool, true,
  false, Bool-cases, length, ◌==◌, ℤ, ok,
}
use fluidloom.Adaptation.Cell.{CellDescriptor}
use fluidloom.Adaptation.Probing.{HashState}
use fluidloom.Adaptation.Probing.Filled.{build_hash_table-Built}
use fluidloom.Adaptation.Balance.Detect.{detect, hash_words}
use fluidloom.Adaptation.Balance.{
  mark, marked, shadow_of, count_true, Progress, add_violations, add_marked, stop_at, progress,
  enforce_loop, Enforced, enforce, new_result,
}

length-mark :
    (cs : List CellDescriptor) (ls : List ℕ) (vs : List Bool) (flags : List ℤ)
    → length (mark cs ls vs flags) ≡ length flags
unfolding mark
length-mark (c ∷ cs) (l ∷ ls) (v ∷ vs) (flag ∷ flags) = ap suc (length-mark cs ls vs flags)
length-mark cs ls vs flags = refl

module _ (launches : ℕ → Bool) (table : List ℕ) (cells : List CellDescriptor) (levels : List ℕ)
    (launched : (k : ℕ) → launches k ≡ true) where
  enforce_loop-returns :
      (left iter : ℕ) (p : Progress)
      → (e : Progress) × (enforce_loop launches table cells levels left iter p ≡ ok e)
        × (length e.flags ≡ length p.flags)
  unfolding enforce_loop
  enforce_loop-returns zero iter p = (p, refl, refl)
  enforce_loop-returns (suc left) iter p =
      let violations = detect table cells p.shadow in
      let n = count_true violations % 2 ^ 32 in
      let m = marked cells levels violations p.flags % 2 ^ 32 in
      let flags = mark cells levels violations p.flags in
      let seen = add_violations n p.result in
      let result = add_marked n m seen in
      let sized = length-mark cells levels violations p.flags in
      elim (Bool-cases (n == 0)) [
        | inl calm ↦ (
          progress p.flags p.shadow (stop_at true iter seen),
          rw (launched (3 * iter), calm) refl,
          refl,
        )
        | inr unrest ↦ elim (Bool-cases (m == 0)) [
          | inl stuck ↦ (
            progress flags p.shadow (stop_at false iter result),
            rw (launched (3 * iter), unrest, launched (3 * iter + 1), stuck) refl,
            sized,
          )
          | inr some_marked ↦
              let (e, run, kept) =
                enforce_loop-returns left (suc iter)
                  (progress flags (shadow_of levels flags) result) in
              (
                e,
                rw
                    (
                      launched (3 * iter),
                      unrest,
                      launched (3 * iter + 1),
                      some_marked,
                      launched (3 * iter + 2),
                    )
                    run,
                kept ∙ sized,
              )
        ]
      ]

pub enforce-returns :
    (allocates launches : ℕ → Bool) (max_balance_iterations : ℕ) (cells : List CellDescriptor)
    (levels : List ℕ) (flags : List ℤ) (s : HashState)
    → ((bytes : ℕ) → allocates bytes ≡ true)
    → ((k : ℕ) → launches k ≡ true)
    → 0 < length cells
    → length cells < 2 ^ 31
    → (e : Enforced) × (enforce allocates launches max_balance_iterations cells levels flags s
        ≡ ok e)
      × (length e.progress_made.flags ≡ length flags)
unfolding enforce
enforce-returns allocates launches rounds cells levels flags s alloc launched one_cell few =
    let (built, made, holds) = build_hash_table-Built allocates cells s few alloc in
    let filled : (length cells == 0) ≡ false = ground (arith, one_cell) in
    let (p, run, kept) =
      enforce_loop-returns launches (hash_words built) cells levels launched rounds 0
        (progress flags levels new_result) in
    (record { hash_state = built; progress_made = p }, rw (filled, made, run) refl, kept)
