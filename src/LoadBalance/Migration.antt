-- ===== src/LoadBalance/Migration.antt =====
-- `MigrationPlan` (include/fluidloom/load_balance/MigrationPlan.h): the validity of a plan, and its
-- optimisation.
-- `std::sort` may order equal elements in any way: the sorted list is a parameter, of which the
-- theorems use that it is a permutation. The estimated time, a float, is left out. Counts are
-- 64-bit and wrap.
pub mod Optimized
use fluidloom.Prelude.{
  ℕ, zero, suc, ◌+◌, ◌%◌, ◌^◌, List, [], ◌∷◌, Bool, true, false, not, ◌&&◌, ◌||◌, ltb, ◌==◌,
  if◌then◌else◌, ℤ, pos, ltb_ℤ, eqb_ℤ,
}

pub record Transfer : Type 0 where
  pub source_rank : ℤ
  pub dest_rank : ℤ
  pub hilbert_start : ℕ
  pub hilbert_end : ℕ
  pub num_cells : ℕ

unfoldable pub transfer_valid : Transfer → Bool
transfer_valid t =
    not (ltb_ℤ t.source_rank (pos 0))
    && (not (ltb_ℤ t.dest_rank (pos 0))
        && (not (eqb_ℤ t.source_rank t.dest_rank)
            && (ltb t.hilbert_start t.hilbert_end && ltb 0 t.num_cells)))

pub record MigrationPlan : Type 0 where
  pub transfers : List Transfer
  pub total_cells_to_migrate : ℕ

-- The loop of `isValid`, with the total so far.
unfoldable pub valid_from : List Transfer → ℕ → ℕ → Bool
valid_from [] computed_total total = computed_total == total
valid_from (t ∷ ts) computed_total total =
    let rest = valid_from ts ((computed_total + t.num_cells) % 2 ^ 64) total in
    if not (transfer_valid t) then false else rest

unfoldable pub plan_valid : MigrationPlan → Bool
plan_valid p = elim p.transfers [
  | [] ↦ true
  | t ∷ ts ↦ valid_from (t ∷ ts) 0 p.total_cells_to_migrate
]

-- `remove_if` with the test of `optimize`.
unfoldable pub remove_invalid : List Transfer → List Transfer
remove_invalid [] = []
remove_invalid (t ∷ ts) =
    let rest = remove_invalid ts in
    if not (transfer_valid t) || (t.num_cells == 0) then rest else t ∷ rest

unfoldable pub adjacent : Transfer → Transfer → Bool
adjacent back t =
    eqb_ℤ back.source_rank t.source_rank
    && (eqb_ℤ back.dest_rank t.dest_rank && (back.hilbert_end == t.hilbert_start))

abbrev pub join : Transfer → Transfer → Transfer
join back t = record back {
  hilbert_end = t.hilbert_end;
  num_cells = (back.num_cells + t.num_cells) % 2 ^ 64;
}

-- The loop of the merge, behind the last element `back` of the merged list.
unfoldable pub merge_from : Transfer → List Transfer → List Transfer
merge_from back [] = back ∷ []
merge_from back (t ∷ ts) = elim (adjacent back t) [
  | true ↦ merge_from (join back t) ts
  | false ↦ back ∷ merge_from t ts
]

unfoldable pub merge : List Transfer → List Transfer
merge [] = []
merge (t ∷ ts) = merge_from t ts

unfoldable pub recompute : List Transfer → ℕ → ℕ
recompute [] total = total
recompute (t ∷ ts) total = recompute ts ((total + t.num_cells) % 2 ^ 64)

unfoldable pub optimize : (List Transfer → List Transfer) → MigrationPlan → MigrationPlan
optimize sort p =
    let merged = merge (sort (remove_invalid p.transfers)) in
    record { transfers = merged; total_cells_to_migrate = recompute merged 0 }
