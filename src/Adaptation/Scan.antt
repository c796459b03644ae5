-- ===== src/Adaptation/Scan.antt =====
-- `AdaptationEngine::exclusiveScan` (src/adaptation/AdaptationEngine.cpp) and its kernels `scan_local`
-- and `scan_add_sums` (src/adaptation/kernels/compact_cells.cl).
-- The local memory of a work group is a function of the place. In a step of a sweep, between two
-- barriers, the places that a thread writes are read by no other thread, so a step gives each of the 256
-- places its new word: `index`, which is (lid + 1) * stride * 2 - 1 and below 256, runs through the
-- places `i` with (i + 1) % (stride * 2) = 0. Each sweep has 8 steps; its fuel of 9 lets the loop end
-- by its condition.
pub mod Sweeps
pub mod Sums
use fluidloom.Prelude.{
  ℕ, zero, suc, ◌+◌, ◌-◌, ◌*◌, ◌/◌, ◌%◌, ◌^◌, List, [], ◌∷◌, Bool, length, get_or, ltb, ◌==◌,
  if◌then◌else◌,
}

abbrev pub work_group : ℕ
work_group = 256

-- `index` of one of the threads.
abbrev pub is_index : ℕ → ℕ → Bool
is_index stride i = (i + 1) % (stride * 2) == 0

-- A step of the up-sweep.
unfoldable pub up_step : ℕ → (ℕ → ℕ) → ℕ → ℕ
up_step stride temp i = if is_index stride i then (temp i + temp (i - stride)) % 2 ^ 32 else temp i

unfoldable pub up_sweep : ℕ → ℕ → (ℕ → ℕ) → ℕ → ℕ
up_sweep zero stride temp = temp
up_sweep (suc left) stride temp =
    let rest = up_sweep left (stride * 2) (up_step stride temp) in
    if ltb stride work_group then rest else temp

abbrev pub clear_last : (ℕ → ℕ) → ℕ → ℕ
clear_last temp i = if i == work_group - 1 then 0 else temp i

-- A step of the down-sweep: a thread writes `temp[index]` and `temp[index - stride]`.
unfoldable pub down_step : ℕ → (ℕ → ℕ) → ℕ → ℕ
down_step stride temp i =
    if is_index stride i
    then (temp i + temp (i - stride)) % 2 ^ 32
    else if is_index stride (i + stride)
    then temp (i + stride)
    else temp i

unfoldable pub down_sweep : ℕ → ℕ → (ℕ → ℕ) → ℕ → ℕ
down_sweep zero stride temp = temp
down_sweep (suc left) stride temp =
    let rest = down_sweep left (stride / 2) (down_step stride temp) in
    if ltb 0 stride then rest else temp

abbrev pub swept_up : (ℕ → ℕ) → ℕ → ℕ
swept_up temp = up_sweep 9 1 temp

abbrev pub swept : (ℕ → ℕ) → ℕ → ℕ
swept temp = down_sweep 9 (work_group / 2) (clear_last (swept_up temp))

-- The load into the local memory of the group `bid`, 0 behind the input.
abbrev pub loaded : List ℕ → ℕ → ℕ → ℕ
loaded input bid lid = get_or input (bid * work_group + lid) 0

-- The values of `f` from `i` on.
unfoldable pub tabulate : (ℕ → ℕ) → ℕ → ℕ → List ℕ
tabulate f i zero = []
tabulate f i (suc n) = f i ∷ tabulate f (suc i) n

abbrev pub num_groups : List ℕ → ℕ
num_groups input = (length input + work_group - 1) / work_group

-- The output of `scan_local`.
unfoldable pub scan_local : List ℕ → List ℕ
scan_local input =
    tabulate (λ gid. swept (loaded input (gid / work_group)) (gid % work_group)) 0 (length input)

-- The block sums of `scan_local`.
unfoldable pub block_sums : List ℕ → List ℕ
block_sums input =
    tabulate (λ bid. swept_up (loaded input bid) (work_group - 1)) 0 (num_groups input)

unfoldable pub scan_add_sums : List ℕ → List ℕ → List ℕ
scan_add_sums output sums =
    tabulate (λ gid. (get_or output gid 0 + get_or sums (gid / work_group) 0) % 2 ^ 32) 0
      (length output)

unfoldable pub exclusive_scan : List ℕ → List ℕ
exclusive_scan input =
    let local = scan_local input in
    if ltb 1 (num_groups input) then scan_add_sums local (scan_local (block_sums input)) else local

-- `*total_sum`: the last offset and the last item together.
unfoldable pub total_sum : List ℕ → ℕ
total_sum input =
    let last = length input - 1 in
    (get_or (exclusive_scan input) last 0 + get_or input last 0) % 2 ^ 32
