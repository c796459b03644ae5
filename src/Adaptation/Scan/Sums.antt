-- ===== src/Adaptation/Scan/Sums.antt =====
-- Up to 256 work groups, `exclusiveScan` computes the sums of the items before each.
use fluidloom.Prelude.{
  ℕ, zero, suc, ◌+◌, ◌*◌, ◌/◌, ◌%◌, ◌^◌, ◌≤◌, ◌<◌, ◌≡◌, refl, sym, ap, ◌∙◌, inl, inr, arith, List,
  [], ◌∷◌, Bool-cases, length, get_or, ltb, sum_below,
}
use fluidloom.Adaptation.Scan.{
  loaded, swept, swept_up, tabulate, num_groups, scan_local, block_sums, scan_add_sums,
  exclusive_scan,
}
use fluidloom.Adaptation.Scan.Sweeps.{swept_lem, swept_up_lem}

-- The sums of `acc` and the items before each, on 32-bit words.
unfoldable pub prefix_sums : ℕ → List ℕ → List ℕ
prefix_sums acc [] = []
prefix_sums acc (x ∷ xs) = acc ∷ prefix_sums ((acc + x) % 2 ^ 32) xs

length-tabulate : (f : ℕ → ℕ) (i n : ℕ) → length (tabulate f i n) ≡ n
unfolding tabulate
length-tabulate f i zero = refl
length-tabulate f i (suc n) = ap suc (length-tabulate f (suc i) n)

get_or-tabulate : (f : ℕ → ℕ) (i n k d : ℕ) → k < n → get_or (tabulate f i n) k d ≡ f (i + k)
unfolding tabulate
get_or-tabulate f i zero k d lt = absurd (omega arith)
get_or-tabulate f i (suc n) zero d lt = let e : i + 0 ≡ i = omega arith in rw e refl
get_or-tabulate f i (suc n) (suc k) d lt =
    let e : i + suc k ≡ suc i + k = omega arith in
    rw e (get_or-tabulate f (suc i) n k d (omega arith))

-- The first `n` items together.
abbrev total : List ℕ → ℕ → ℕ
total input n = sum_below n (λ i. get_or input i 0)

total-next :
    (input : List ℕ) (bid i : ℕ)
    → total input (bid * 256 + suc i) ≡ total input (bid * 256 + i) + loaded input bid i
total-next input bid i =
    let e : bid * 256 + suc i ≡ suc (bid * 256 + i) = omega arith in rw e (omega arith)

local_sum :
    (input : List ℕ) (gid : ℕ)
    → let word = swept (loaded input (gid / 256)) (gid % 256) in
      ((word + total input (gid / 256 * 256)) % 2 ^ 32 ≡ total input gid % 2 ^ 32) × (word < 2 ^ 32)
local_sum input gid =
    let bid = gid / 256 in
    let (word, small) =
      swept_lem (λ k. total input (bid * 256 + k)) (loaded input bid) (total-next input bid)
        (gid % 256) (omega arith) in
    let start : bid * 256 + 0 ≡ bid * 256 = omega arith in
    let here : bid * 256 + gid % 256 ≡ gid = omega arith in (rw (start, here) at word, small)

block_sum :
    (input : List ℕ) (bid : ℕ)
    → (swept_up (loaded input bid) 255 + total input (bid * 256)) % 2 ^ 32
      ≡ total input (suc bid * 256) % 2 ^ 32
block_sum input bid =
    let word =
      swept_up_lem (λ k. total input (bid * 256 + k)) (loaded input bid) (total-next input bid) in
    let start : bid * 256 + 0 ≡ bid * 256 = omega arith in
    let end : bid * 256 + 256 ≡ suc bid * 256 = omega arith in rw (start, end) at word

total-block_sums :
    (input : List ℕ) (b : ℕ)
    → b ≤ num_groups input
    → total (block_sums input) b % 2 ^ 32 ≡ total input (b * 256) % 2 ^ 32
unfolding block_sums
total-block_sums input zero h = refl
total-block_sums input (suc b) h =
    let f : ℕ → ℕ = λ bid. swept_up (loaded input bid) 255 in
    let word = get_or-tabulate f 0 (num_groups input) b 0 (omega arith) in
    let zero_plus : 0 + b ≡ b = omega arith in
    let rest = total-block_sums input b (omega arith) in
    omega (arith, rw zero_plus at word, rest, block_sum input b)

scanned_blocks :
    (input : List ℕ) (b : ℕ)
    → b < num_groups input
    → num_groups input ≤ 256
    → get_or (scan_local (block_sums input)) b 0 % 2 ^ 32 ≡ total input (b * 256) % 2 ^ 32
unfolding scan_local block_sums
scanned_blocks input b lt few =
    let blocks = block_sums input in
    let f : ℕ → ℕ = λ gid. swept (loaded blocks (gid / 256)) (gid % 256) in
    let size : length blocks ≡ num_groups input = length-tabulate _ 0 (num_groups input) in
    let word = get_or-tabulate f 0 (length blocks) b 0 (omega (arith, size, lt)) in
    let zero_plus : 0 + b ≡ b = omega arith in
    let (sum, small) = local_sum blocks b in
    let first : b / 256 * 256 ≡ 0 = omega (arith, lt, few) in
    let before = rw first at sum in
    omega (arith, rw zero_plus at word, before, total-block_sums input b (omega (arith, lt)))

tabulate-prefix_sums :
    (f : ℕ → ℕ) (input : List ℕ) (k acc : ℕ) (xs : List ℕ)
    → ((j : ℕ) → get_or input (k + j) 0 ≡ get_or xs j 0)
    → acc ≡ total input k % 2 ^ 32
    → ((j : ℕ) → j < length xs → f (k + j) ≡ total input (k + j) % 2 ^ 32)
    → tabulate f k (length xs) ≡ prefix_sums acc xs
unfolding tabulate prefix_sums
tabulate-prefix_sums f input k acc [] same start sums = refl
tabulate-prefix_sums f input k acc (x ∷ xs) same start sums =
    let here : k + 0 ≡ k = omega arith in
    let first = rw here at (sums 0 (omega arith)) in
    let item = rw here at (same 0) in
    let rest =
      tabulate-prefix_sums f input (suc k) ((acc + x) % 2 ^ 32) xs
        (λ j. let e : k + suc j ≡ suc k + j = omega arith in rw e at (same (suc j)))
        (omega (arith, start, item))
        (λ j lt.
          let e : k + suc j ≡ suc k + j = omega arith in
          rw e at (sums (suc j) (omega (arith, lt)))) in
    let head : f k ≡ acc = first ∙ sym start in λ i. head i ∷ rest i

-- For at most 65536 items, each offset is the sum of the items before it, on 32-bit words.
pub exclusive_scan-prefix_sums :
    (input : List ℕ) → length input ≤ 65536 → exclusive_scan input ≡ prefix_sums 0 input
unfolding exclusive_scan scan_add_sums scan_local
exclusive_scan-prefix_sums input few =
    let n = length input in
    let local : ℕ → ℕ = λ gid. swept (loaded input (gid / 256)) (gid % 256) in
    elim (Bool-cases (ltb 1 (num_groups input))) [
      | inr one ↦ rw one (
          tabulate-prefix_sums local input 0 0 input
            (λ j. let e : 0 + j ≡ j = omega arith in rw e refl) refl
            (λ j lt.
              let e : 0 + j ≡ j = omega arith in
              let (sum, small) = local_sum input j in
              let first : j / 256 * 256 ≡ 0 = ground (arith, one, lt) in
              let word = rw first at sum in rw e (omega (arith, word, small))))
      | inl more ↦
          let size = length-tabulate local 0 n in
          let sums : ℕ → ℕ = λ gid.
            (get_or (tabulate local 0 n) gid 0
              + get_or (scan_local (block_sums input)) (gid / 256) 0)
            % 2 ^ 32 in
          let each =
            tabulate-prefix_sums sums input 0 0 input
              (λ j. let e : 0 + j ≡ j = omega arith in rw e refl) refl
              (λ j lt.
                let e : 0 + j ≡ j = omega arith in
                let here = rw e at (get_or-tabulate local 0 n j 0 lt) in
                let (sum, small) = local_sum input j in
                let blocks =
                  scanned_blocks input (j / 256) (omega (arith, lt)) (omega (arith, few)) in
                rw e (rw here (omega (arith, sum, blocks)))) in
          rw (more, size) each
    ]
