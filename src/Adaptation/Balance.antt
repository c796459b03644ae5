-- ===== src/Adaptation/Balance.antt =====
-- `BalanceEnforcer::enforce` (src/adaptation/BalanceEnforcer.cpp) and its kernels
-- (src/adaptation/kernels/balance_enforce.cl).
-- The buffers of the coordinates and of the states are the list of the cells; the levels, the shadow
-- levels, the violation flags and the refine flags are lists beside it. The threads of a launch write
-- to their own places only, so a launch maps the lists. `launches` tells which launch succeeds, by
-- its number. The times and the log lines are left out.
pub mod Detect
pub mod Stops
pub mod Returns
use fluidloom.Prelude.{
  ℕ, zero, suc, ◌+◌, ◌*◌, ◌%◌, ◌^◌, List, [], ◌∷◌, ◌++◌, Bool, true, false, not, length, leb, ◌==◌,
  if◌then◌else◌, ℤ, pos, negsuc, Result, ok, err,
}
use fluidloom.Adaptation.Cell.{CellDescriptor, fluid, max_refinement_level}
use fluidloom.Adaptation.Probing.{EngineError, HashState, build_hash_table}
use fluidloom.Adaptation.Balance.Detect.{detect, hash_words}

abbrev pub is_set : ℤ → Bool
is_set (pos zero) = false
is_set (pos (suc n)) = true
is_set (negsuc n) = false

-- The conditions of `mark_cascading_refinement` for one cell.
unfoldable pub is_marked : CellDescriptor → ℕ → Bool → ℤ → Bool
is_marked c level violates flag =
    if not violates
    then false
    else if not (c.state == fluid)
    then false
    else if leb max_refinement_level level
    then false
    else not (is_set flag)

-- The new refine flags.
unfoldable pub mark : List CellDescriptor → List ℕ → List Bool → List ℤ → List ℤ
mark (c ∷ cs) (l ∷ ls) (v ∷ vs) (flag ∷ flags) =
    (if is_marked c l v flag then pos 1 else flag) ∷ mark cs ls vs flags
mark cs ls vs flags = flags

-- `marked_count`.
unfoldable pub marked : List CellDescriptor → List ℕ → List Bool → List ℤ → ℕ
marked (c ∷ cs) (l ∷ ls) (v ∷ vs) (flag ∷ flags) =
    (if is_marked c l v flag then 1 else 0) + marked cs ls vs flags
marked cs ls vs flags = 0

-- `update_shadow_levels`.
unfoldable pub shadow_of : List ℕ → List ℤ → List ℕ
shadow_of (l ∷ ls) (flag ∷ flags) = (l + (if is_set flag then 1 else 0)) % 256 ∷ shadow_of ls flags
shadow_of ls flags = []

unfoldable pub count_true : List Bool → ℕ
count_true [] = 0
count_true (b ∷ bs) = (if b then 1 else 0) + count_true bs

pub record IterationStats : Type 0 where
  pub violations_this_iter : ℕ
  pub cells_marked_this_iter : ℕ

pub record BalanceResult : Type 0 where
  pub converged : Bool
  pub iterations : ℕ
  pub total_violations_detected : ℕ
  pub total_cells_marked_for_balance : ℕ
  pub final_cell_count : ℕ
  pub per_iteration_stats : List IterationStats

abbrev pub new_result : BalanceResult
new_result = record {
  converged = false;
  iterations = 0;
  total_violations_detected = 0;
  total_cells_marked_for_balance = 0;
  final_cell_count = 0;
  per_iteration_stats = [];
}

-- The refine flags, the shadow levels and the result, as the loop changes them.
pub record Progress : Type 0 where
  pub flags : List ℤ
  pub shadow : List ℕ
  pub result : BalanceResult

pub data BalanceError : Type 0 where
  detect_failed mark_failed update_failed : BalanceError
  table_failed : EngineError → BalanceError

abbrev pub add_violations : ℕ → BalanceResult → BalanceResult
add_violations n r = record r {
  total_violations_detected = (r.total_violations_detected + n) % 2 ^ 32;
}

abbrev pub add_marked : ℕ → ℕ → BalanceResult → BalanceResult
add_marked n m r = record r {
  total_cells_marked_for_balance = (r.total_cells_marked_for_balance + m) % 2 ^ 32;
  per_iteration_stats =
      r.per_iteration_stats ++ record { violations_this_iter = n; cells_marked_this_iter = m } ∷ [];
}

abbrev pub stop_at : Bool → ℕ → BalanceResult → BalanceResult
stop_at converged iter r = record r { converged = converged; iterations = (iter + 1) % 2 ^ 32 }

abbrev pub progress : List ℤ → List ℕ → BalanceResult → Progress
progress flags shadow r = record { flags = flags; shadow = shadow; result = r }

-- The launches that change state: the third is numbered from the iteration, as the others are.
module _ (launches : ℕ → Bool) (table : List ℕ) (cells : List CellDescriptor)
    (levels : List ℕ) where
  -- The loop from the iteration `iter` on, with `left` iterations to go.
  unfoldable pub enforce_loop : ℕ → ℕ → Progress → Result BalanceError Progress
  enforce_loop zero iter p = ok p
  enforce_loop (suc left) iter p =
      let violations = detect table cells p.shadow in
      let n = count_true violations % 2 ^ 32 in
      let m = marked cells levels violations p.flags % 2 ^ 32 in
      let flags = mark cells levels violations p.flags in
      let seen = add_violations n p.result in
      let result = add_marked n m seen in
      let rest = enforce_loop left (suc iter) (progress flags (shadow_of levels flags) result) in
      if not (launches (3 * iter))
      then err detect_failed
      else if n == 0
      then ok (progress p.flags p.shadow (stop_at true iter seen))
      else if not (launches (3 * iter + 1))
      then err mark_failed
      else if m == 0
      then ok (progress flags p.shadow (stop_at false iter result))
      else if not (launches (3 * iter + 2))
      then err update_failed
      else rest

-- The state of the hash table and the progress at the end; the shadow levels are then released.
pub record Enforced : Type 0 where
  pub hash_state : HashState
  pub progress_made : Progress

abbrev pub with_table : HashState → Result BalanceError Progress → Result BalanceError Enforced
with_table s (ok p) = ok (record { hash_state = s; progress_made = p })
with_table s (err e) = err e

unfoldable pub enforce :
    (ℕ → Bool)
    → (ℕ → Bool)
    → ℕ
    → List CellDescriptor
    → List ℕ
    → List ℤ
    → HashState
    → Result BalanceError Enforced
enforce allocates launches max_balance_iterations cells levels flags s =
    if length cells == 0
    then with_table s (ok (progress flags [] new_result))
    else elim (build_hash_table allocates cells s) [
      | err e ↦ err (table_failed e)
      | ok built ↦ with_table built (
          enforce_loop launches (hash_words built) cells levels max_balance_iterations 0
            (progress flags levels new_result))
    ]
