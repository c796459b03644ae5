-- ===== src/LoadBalance/Balancer/Plans.antt =====
-- The plan that a rank makes is valid, and what it moves goes from this rank to others.
use mathlib.Core.List.{Permᴰ}
use native.Mathlib.Nat.{mul-le-mul_right}
use fluidloom.Prelude.{
  ℕ, zero, suc, ◌+◌, ◌*◌, ◌%◌, ◌^◌, ◌<◌, ◌≤◌, ◌≡◌, refl, sym, ◌∙◌, inl, inr, arith, List, [], ◌∷◌,
  true, Bool-cases, if◌then◌else◌, pos, ltb_ℤ, eqb_ℤ, length, max, ◌-◌, ◌/◌, leb,
}
use fluidloom.LoadBalance.Migration.{Transfer, MigrationPlan, plan_valid, recompute}
use fluidloom.LoadBalance.Migration.Optimized.{cells, valid_cells, optimize_lem}
use fluidloom.LoadBalance.Balancer.Leaves.{Leaves, AllLeave, optimize-AllLeave}
use fluidloom.LoadBalance.Balancer.{
  owner_from, get_owner_gpu, inside, partial_from, planned, create_migration_plan, splits_from,
  compute_split_points, rebalance_plan, total_from,
}

-- The split points inside the range.
unfoldable pub crossings : ℕ → ℕ → List ℕ → ℕ
crossings local_min local_max [] = 0
crossings local_min local_max (s ∷ splits) =
    let rest = crossings local_min local_max splits in
    if inside local_min local_max s then suc rest else rest

crossings-le :
    (local_min local_max : ℕ) (splits : List ℕ)
    → crossings local_min local_max splits ≤ length splits
unfolding crossings
crossings-le local_min local_max [] = omega arith
crossings-le local_min local_max (s ∷ splits) =
    ground (arith, crossings-le local_min local_max splits)

valid_cells-le : (ts : List Transfer) → valid_cells ts ≤ cells ts
unfolding valid_cells cells
valid_cells-le [] = omega arith
valid_cells-le (t ∷ ts) = ground (arith, valid_cells-le ts)

last_owner :
    (num_gpus : ℕ) → 0 < num_gpus → ltb_ℤ (owner_from num_gpus 0 0 []) (pos num_gpus) ≡ true
unfolding owner_from
last_owner zero h = absurd (omega arith)
last_owner (suc n) h = ground arith

owner_from-lt :
    (num_gpus hilbert_index i : ℕ) (splits : List ℕ)
    → i + length splits < num_gpus
    → ltb_ℤ (owner_from num_gpus hilbert_index i splits) (pos num_gpus) ≡ true
unfolding owner_from
owner_from-lt num_gpus hilbert_index i [] h = last_owner num_gpus (omega arith)
owner_from-lt num_gpus hilbert_index i (s ∷ splits) h =
    ground (arith, owner_from-lt num_gpus hilbert_index (suc i) splits (omega arith))

module _ (cells_above : ℕ → ℕ → ℕ → ℕ → ℕ)
    (fewer : (s a b count : ℕ) → cells_above s a b count ≤ count) where
  partial_from-AllLeave :
      (my_rank num_gpus local_min local_max count i : ℕ) (splits : List ℕ)
      → i + length splits < num_gpus
      → AllLeave my_rank num_gpus local_min local_max
          (partial_from cells_above my_rank local_min local_max count i splits)
        × (cells (partial_from cells_above my_rank local_min local_max count i splits)
            ≤ crossings local_min local_max splits * count)
  unfolding partial_from AllLeave cells crossings
  partial_from-AllLeave my_rank num_gpus local_min local_max count i [] h = (tt, omega arith)
  partial_from-AllLeave my_rank num_gpus local_min local_max count i (s ∷ splits) h =
      let (all, few) =
        partial_from-AllLeave my_rank num_gpus local_min local_max count (suc i) splits
          (omega (arith, h)) in
      elim (Bool-cases (inside local_min local_max s)) [
        | inl in_range ↦
            let out : Leaves my_rank num_gpus local_min local_max (record {
              source_rank = pos my_rank;
              dest_rank = pos (i + 1);
              hilbert_start = s;
              hilbert_end = local_max;
              num_cells = cells_above s local_min local_max count;
            }) =
              record {
                from_here = refl;
                to_rank = ground (arith, h);
                starts = ground (arith, in_range);
                ends = omega arith;
              } in
            simp (in_range, partial_from, crossings)
              ((out, all), omega (arith, few, fewer s local_min local_max count))
        | inr out_of_range ↦ simp (out_of_range, partial_from, crossings) (all, few)
      ]

  pub planned-AllLeave :
      (my_rank num_gpus : ℕ) (new_splits current_splits : List ℕ) (local_min local_max count : ℕ)
      → length new_splits < num_gpus
      → AllLeave my_rank num_gpus local_min local_max
          (planned cells_above my_rank num_gpus new_splits current_splits local_min local_max count)
        × (cells (
              planned cells_above my_rank num_gpus new_splits current_splits local_min local_max
                count)
            ≤ max 1 (crossings local_min local_max new_splits) * count)
  unfolding planned AllLeave cells get_owner_gpu
  planned-AllLeave my_rank num_gpus new_splits current_splits local_min local_max count h =
      let same =
        eqb_ℤ (get_owner_gpu num_gpus local_min current_splits)
          (get_owner_gpu num_gpus local_min new_splits) in
      let crossed = crossings local_min local_max new_splits in
      elim (Bool-cases same) [
        | inl kept ↦
            let (all, few) =
              partial_from-AllLeave my_rank num_gpus local_min local_max count 0 new_splits
                (omega (arith, h)) in
            let more : crossed * count ≤ max 1 crossed * count =
              mul-le-mul_right count (omega arith) in
            simp (kept, planned) (all, omega (arith, few, more))
        | inr moved ↦
            let once : 1 * count ≤ max 1 crossed * count = mul-le-mul_right count (omega arith) in
            let out = owner_from-lt num_gpus local_min 0 new_splits (omega (arith, h)) in
            simp (moved, planned)
              (
                (
                  record {
                    from_here = refl;
                    to_rank = out;
                    starts = omega arith;
                    ends = omega arith;
                  },
                  tt,
                ),
                omega (arith, once),
              )
      ]

-- The plan for any new split points that are fewer than the ranks.
create_migration_plan_lem :
    (sort : List Transfer → List Transfer) (cells_above : ℕ → ℕ → ℕ → ℕ → ℕ) (my_rank num_gpus : ℕ)
    (new_splits current_splits : List ℕ) (local_min local_max count : ℕ)
    → ((ts : List Transfer) → Permᴰ (sort ts) ts)
    → ((s a b n : ℕ) → cells_above s a b n ≤ n)
    → length new_splits < num_gpus
    → num_gpus * count < 2 ^ 64
    → let q =
        create_migration_plan cells_above sort my_rank num_gpus new_splits current_splits local_min
          local_max count in
      (plan_valid q ≡ true)
      × AllLeave my_rank num_gpus local_min local_max q.transfers
      × (q.total_cells_to_migrate ≡ cells q.transfers)
      × (q.total_cells_to_migrate ≤ max 1 (crossings local_min local_max new_splits) * count)
unfolding create_migration_plan
create_migration_plan_lem sort cells_above my_rank num_gpus new_splits current_splits local_min
      local_max count sorts fewer h fits =
    let ts =
      planned cells_above my_rank num_gpus new_splits current_splits local_min local_max count in
    let (all, few) =
      planned-AllLeave cells_above fewer my_rank num_gpus new_splits current_splits local_min
        local_max count h in
    let crossed = max 1 (crossings local_min local_max new_splits) in
    let ranks : crossed * count ≤ num_gpus * count =
      mul-le-mul_right count (omega (arith, crossings-le local_min local_max new_splits, h)) in
    let small = valid_cells-le ts in
    let p : MigrationPlan = record { transfers = ts; total_cells_to_migrate = recompute ts 0 } in
    let (valid, total, moved) =
      optimize_lem sort p sorts (omega (arith, small, few, ranks, fits)) in
    (
      valid,
      optimize-AllLeave my_rank num_gpus local_min local_max sort p sorts all,
      total ∙ sym moved,
      omega (arith, total, small, few),
    )

splits_from-length :
    (estimate : ℕ → ℕ → ℕ → ℕ) (gpus target total hilbert_min hilbert_range cumulative : ℕ)
    → length (splits_from estimate gpus target total hilbert_min hilbert_range cumulative) ≡ gpus
unfolding splits_from
splits_from-length estimate zero target total hilbert_min hilbert_range cumulative = refl
splits_from-length estimate (suc gpus) target total hilbert_min hilbert_range cumulative =
    let reached = (cumulative + target) % 2 ^ 64 in
    omega (arith, splits_from-length estimate gpus target total hilbert_min hilbert_range reached)

compute_split_points-length :
    (estimate : ℕ → ℕ → ℕ → ℕ) (counts : List ℕ) (hilbert_min hilbert_max : ℕ)
    → 0 < length counts
    → length (compute_split_points estimate counts hilbert_min hilbert_max) < length counts
unfolding compute_split_points
compute_split_points-length estimate counts hilbert_min hilbert_max h =
    let gpus = length counts in
    let total = total_from 0 counts in
    let range = (hilbert_max + 2 ^ 64 - hilbert_min) % 2 ^ 64 in
    let full = splits_from-length estimate (gpus - 1) (total / gpus) total hilbert_min range 0 in
    elim (Bool-cases (leb gpus 1)) [
      | inl alone ↦ simp (alone, compute_split_points) (omega (arith, h))
      | inr several ↦ simp (several, compute_split_points) (omega (arith, full, h))
    ]

-- Let sorting permute a list, the estimate of the cells above a split point never exceed the cells of
-- the rank, and the ranks, of which there is one at least, times the cells of this rank be less than
-- 2^64. Then the plan that a rank makes of the counts of all ranks is valid, its total is that of its
-- transfers, and each of them takes indices of the rank's range from this rank to one of the ranks. It
-- moves at most the cells of the rank, or that many for each split point inside the range.
pub rebalance_plan-Leaves :
    (estimate : ℕ → ℕ → ℕ → ℕ) (sort : List Transfer → List Transfer)
    (cells_above : ℕ → ℕ → ℕ → ℕ → ℕ) (my_rank : ℕ) (counts current_splits : List ℕ)
    (local_min local_max count : ℕ)
    → ((ts : List Transfer) → Permᴰ (sort ts) ts)
    → ((s a b n : ℕ) → cells_above s a b n ≤ n)
    → 0 < length counts
    → length counts * count < 2 ^ 64
    → let q =
        rebalance_plan cells_above estimate sort my_rank counts current_splits local_min local_max
          count in
      let new_splits = compute_split_points estimate counts 0 (2 ^ 64 - 1) in
      (plan_valid q ≡ true)
      × AllLeave my_rank (length counts) local_min local_max q.transfers
      × (q.total_cells_to_migrate ≡ cells q.transfers)
      × (q.total_cells_to_migrate ≤ max 1 (crossings local_min local_max new_splits) * count)
unfolding rebalance_plan
rebalance_plan-Leaves estimate sort cells_above my_rank counts current_splits local_min local_max
      count sorts fewer ranks fits =
    create_migration_plan_lem sort cells_above my_rank (length counts)
      (compute_split_points estimate counts 0 (2 ^ 64 - 1)) current_splits local_min local_max count
      sorts fewer (compute_split_points-length estimate counts 0 (2 ^ 64 - 1) ranks) fits
