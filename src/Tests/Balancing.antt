-- ===== src/Tests/Balancing.antt =====
-- A rank whose range a split point divides, and one whose range two split points divide.
use mathlib.Core.List.Permᴰ
use fluidloom.Prelude.{ℕ, ◌-◌, ◌*◌, ◌/◌, ◌^◌, ◌≤◌, ◌≡◌, refl, List, [], ◌∷◌, true, max, arith}
use fluidloom.LoadBalance.Migration.{
  Transfer, transfer_valid, plan_valid, optimize, remove_invalid, merge, merge_from, adjacent,
  recompute,
}
use fluidloom.LoadBalance.Migration.Optimized.{cells}
use fluidloom.LoadBalance.Balancer.{
  owner_from, get_owner_gpu, partial_from, planned, create_migration_plan, total_from, splits_from,
  compute_split_points, rebalance_plan,
}
use fluidloom.LoadBalance.Balancer.Leaves.{AllLeave}
use fluidloom.LoadBalance.Balancer.Plans.{crossings, rebalance_plan-Leaves}

-- The share of the cells above the split point, rounded down; all where the range is empty.
abbrev share_above : ℕ → ℕ → ℕ → ℕ → ℕ
share_above split_point from to count = count - count * (split_point - from) / (to - from)

abbrev unsorted : List Transfer → List Transfer
unsorted ts = ts

share_above-le : (s from to count : ℕ) → share_above s from to count ≤ count
share_above-le s from to count = omega arith

abbrev share_of_range : ℕ → ℕ → ℕ → ℕ
share_of_range cumulative total range = cumulative * range / total

rebalance_plan-Leaves_example :
    let q =
      rebalance_plan share_above share_of_range unsorted 0
        (10 ∷ 2 ∷ [])
        ((2 ^ 64 - 2) ∷ [])
        0
        (2 ^ 64 - 4)
        10 in
    let new_splits = compute_split_points share_of_range (10 ∷ 2 ∷ []) 0 (2 ^ 64 - 1) in
    (plan_valid q ≡ true)
    × AllLeave 0 2 0 (2 ^ 64 - 4) q.transfers
    × (q.total_cells_to_migrate ≡ cells q.transfers)
    × (q.total_cells_to_migrate ≤ max 1 (crossings 0 (2 ^ 64 - 4) new_splits) * 10)
rebalance_plan-Leaves_example =
    rebalance_plan-Leaves share_of_range unsorted share_above 0 (10 ∷ 2 ∷ []) ((2 ^ 64 - 2) ∷ []) 0
      (2 ^ 64 - 4) 10 Permᴰ.refl share_above-le (omega arith) (omega arith)

rebalanced :
    (rebalance_plan share_above share_of_range unsorted 0
      (10 ∷ 2 ∷ [])
      ((2 ^ 64 - 2) ∷ [])
      0
      (2 ^ 64 - 4)
      10).total_cells_to_migrate
    ≡ 5
unfolding rebalance_plan compute_split_points splits_from total_from create_migration_plan planned
    get_owner_gpu owner_from partial_from optimize remove_invalid merge merge_from adjacent
    transfer_valid recompute
rebalanced = refl

-- Two split points inside: the ranges of the transfers overlap, and 10 cells of 8 are to leave.
moved_twice :
    (create_migration_plan share_above unsorted 0 3
      (2 ∷ 4 ∷ [])
      (8 ∷ 16 ∷ [])
      0
      8
      8).total_cells_to_migrate
    ≡ 10
unfolding create_migration_plan planned get_owner_gpu owner_from partial_from optimize
    remove_invalid merge merge_from adjacent transfer_valid recompute
moved_twice = refl
