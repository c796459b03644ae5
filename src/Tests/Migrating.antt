-- ===== src/Tests/Migrating.antt =====
-- A plan with an empty transfer and two adjacent ones.
use mathlib.Core.List.Permᴰ
use fluidloom.Prelude.{ℕ, ◌≡◌, refl, ◌<◌, ◌^◌, List, [], ◌∷◌, pos, true, arith}
use fluidloom.LoadBalance.Migration.{
  Transfer, transfer_valid, MigrationPlan, plan_valid, optimize, remove_invalid, merge, merge_from,
  adjacent, recompute,
}
use fluidloom.LoadBalance.Migration.Optimized.{cells, valid_cells, optimize_lem}

abbrev transfer : ℕ → ℕ → ℕ → Transfer
transfer from to cells = record {
  source_rank = pos 0;
  dest_rank = pos 1;
  hilbert_start = from;
  hilbert_end = to;
  num_cells = cells;
}

abbrev plan : MigrationPlan
plan = record {
  transfers = transfer 0 8 5 ∷ transfer 8 8 0 ∷ transfer 8 16 6 ∷ [];
  total_cells_to_migrate = 11;
}

abbrev unsorted : List Transfer → List Transfer
unsorted ts = ts

few_cells : valid_cells plan.transfers < 2 ^ 64
unfolding valid_cells transfer_valid
few_cells = omega arith

optimize_lem_example :
    (plan_valid (optimize unsorted plan) ≡ true)
    × ((optimize unsorted plan).total_cells_to_migrate ≡ valid_cells plan.transfers)
    × (cells (optimize unsorted plan).transfers ≡ valid_cells plan.transfers)
optimize_lem_example = optimize_lem unsorted plan Permᴰ.refl few_cells

merged_once : (optimize unsorted plan).transfers ≡ transfer 0 16 11 ∷ []
unfolding optimize remove_invalid merge merge_from adjacent transfer_valid recompute
merged_once = refl
