-- ===== src/LoadBalance/Balancer.antt =====
-- `LoadBalancer` (src/load_balance/LoadBalancer.cpp): the owner of an index, and the plan of a rank.
-- `cells_above split_point min max count` is the estimate in double arithmetic of the cells above a
-- split point, a parameter, as are the estimate of a split point and `std::sort`. A split point is a 64-bit index.
pub mod Leaves
pub mod Plans
use fluidloom.Prelude.{
  ℕ, zero, suc, ◌+◌, ◌-◌, ◌/◌, ◌%◌, ◌^◌, List, [], ◌∷◌, Bool, true, false, ◌&&◌, ltb, leb, length,
  if◌then◌else◌, ℤ, pos, negsuc, eqb_ℤ,
}
use fluidloom.LoadBalance.Migration.{Transfer, MigrationPlan, optimize, recompute}

-- `std::accumulate` over the counts, from a start.
unfoldable pub total_from : ℕ → List ℕ → ℕ
total_from sum [] = sum
total_from sum (count ∷ counts) = total_from ((sum + count) % 2 ^ 64) counts

-- `estimate cumulative total range` is `static_cast<uint64_t>(fraction * hilbert_range)`.
module _ (estimate : ℕ → ℕ → ℕ → ℕ) where
  -- The loop of `computeSplitPoints`, for the GPUs that remain.
  unfoldable pub splits_from : ℕ → ℕ → ℕ → ℕ → ℕ → ℕ → List ℕ
  splits_from zero target total hilbert_min hilbert_range cumulative = []
  splits_from (suc gpus) target total hilbert_min hilbert_range cumulative =
      let reached = (cumulative + target) % 2 ^ 64 in
      (hilbert_min + estimate reached total hilbert_range) % 2 ^ 64
      ∷ splits_from gpus target total hilbert_min hilbert_range reached

  unfoldable pub compute_split_points : List ℕ → ℕ → ℕ → List ℕ
  compute_split_points counts hilbert_min hilbert_max =
      let num_gpus = length counts in
      let total_cells = total_from 0 counts in
      let hilbert_range = (hilbert_max + 2 ^ 64 - hilbert_min) % 2 ^ 64 in
      if leb num_gpus 1
      then []
      else splits_from (num_gpus - 1) (total_cells / num_gpus) total_cells hilbert_min hilbert_range
          0

-- The number of the last one of the ranks, -1 where there is none.
abbrev pub last_gpu : ℕ → ℤ
last_gpu zero = negsuc 0
last_gpu (suc n) = pos n

-- The loop of `getOwnerGPU` from the split point `i` on.
unfoldable pub owner_from : ℕ → ℕ → ℕ → List ℕ → ℤ
owner_from num_gpus hilbert_index i [] = last_gpu num_gpus
owner_from num_gpus hilbert_index i (split_point ∷ splits) =
    let rest = owner_from num_gpus hilbert_index (suc i) splits in
    if ltb hilbert_index split_point then pos i else rest

unfoldable pub get_owner_gpu : ℕ → ℕ → List ℕ → ℤ
get_owner_gpu num_gpus hilbert_index splits = owner_from num_gpus hilbert_index 0 splits

abbrev pub inside : ℕ → ℕ → ℕ → Bool
inside local_min local_max split_point = ltb local_min split_point && ltb split_point local_max

module _ (cells_above : ℕ → ℕ → ℕ → ℕ → ℕ) where
  -- The transfers of the loop over the new split points, from the split point `i` on.
  unfoldable pub partial_from : ℕ → ℕ → ℕ → ℕ → ℕ → List ℕ → List Transfer
  partial_from my_rank local_min local_max local_cell_count i [] = []
  partial_from my_rank local_min local_max local_cell_count i (split_point ∷ splits) =
      let rest = partial_from my_rank local_min local_max local_cell_count (suc i) splits in
      if inside local_min local_max split_point
      then record {
        source_rank = pos my_rank;
        dest_rank = pos (i + 1);
        hilbert_start = split_point;
        hilbert_end = local_max;
        num_cells = cells_above split_point local_min local_max local_cell_count;
      }
        ∷ rest
      else rest

  abbrev pub whole : ℕ → ℤ → ℕ → ℕ → ℕ → List Transfer
  whole my_rank new_owner local_min local_max local_cell_count =
      record {
        source_rank = pos my_rank;
        dest_rank = new_owner;
        hilbert_start = local_min;
        hilbert_end = local_max;
        num_cells = local_cell_count;
      }
      ∷ []

  -- The transfers before the plan is optimized.
  unfoldable pub planned : ℕ → ℕ → List ℕ → List ℕ → ℕ → ℕ → ℕ → List Transfer
  planned my_rank num_gpus new_splits current_splits local_min local_max local_cell_count =
      let old_owner = get_owner_gpu num_gpus local_min current_splits in
      let new_owner = get_owner_gpu num_gpus local_min new_splits in
      if eqb_ℤ old_owner new_owner
      then partial_from my_rank local_min local_max local_cell_count 0 new_splits
      else whole my_rank new_owner local_min local_max local_cell_count

  unfoldable pub create_migration_plan :
      (List Transfer → List Transfer) → ℕ → ℕ → List ℕ → List ℕ → ℕ → ℕ → ℕ → MigrationPlan
  create_migration_plan sort my_rank num_gpus new_splits current_splits local_min local_max count =
      let transfers =
        planned my_rank num_gpus new_splits current_splits local_min local_max count in
      optimize sort
        (record { transfers = transfers; total_cells_to_migrate = recompute transfers 0 })

  -- The plan that `RebalanceMeshNode::execute` makes of the counts of all ranks.
  unfoldable pub rebalance_plan :
      (ℕ → ℕ → ℕ → ℕ)
      → (List Transfer → List Transfer)
      → ℕ
      → List ℕ
      → List ℕ
      → ℕ
      → ℕ
      → ℕ
      → MigrationPlan
  rebalance_plan estimate sort my_rank counts current_splits local_min local_max count =
      let new_splits = compute_split_points estimate counts 0 (2 ^ 64 - 1) in
      create_migration_plan sort my_rank (length counts) new_splits current_splits local_min
        local_max count
