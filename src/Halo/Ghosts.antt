-- ===== src/Halo/Ghosts.antt =====
-- `GhostRangeBuilder` (include/fluidloom/halo/GhostRangeBuilder.h, src/halo/GhostRangeBuilder.cpp):
-- the neighbours of a rank, and the rank that owns an index.
-- Rank and size come from MPI, and so do the gathered ranges: they are parameters. A rank is an
-- `int`, -1 for none.
use fluidloom.Prelude.{
  ℕ, zero, suc, ◌+◌, ◌-◌, ◌<◌, ◌≡◌, refl, sym, ap, ◌∙◌, ◌⊎◌, inl, inr, arith, List, [], ◌∷◌, length,
  some, get_elem?, Bool, true, false, Bool-cases, ◌&&◌, ltb, leb, if◌then◌else◌, ℤ, pos, negsuc,
}

-- The first and the last index that a rank owns.
pub record Range : Type 0 where
  pub first : ℕ
  pub second : ℕ

pub record GlobalTopology : Type 0 where
  pub rank : ℕ
  pub size : ℕ
  pub prev_rank : ℤ
  pub next_rank : ℤ
  pub local_min_idx : ℕ
  pub local_max_idx : ℕ

pub record GhostRangeBuilder : Type 0 where
  pub topology : GlobalTopology
  pub global_ranges : List Range

abbrev pub no_rank : ℤ
no_rank = negsuc 0

-- The constructor.
abbrev pub new_builder : ℕ → ℕ → GhostRangeBuilder
new_builder rank size = record {
  topology = record {
    rank = rank;
    size = size;
    prev_rank = if ltb 0 rank then pos (rank - 1) else no_rank;
    next_rank = if ltb (rank + 1) size then pos (rank + 1) else no_rank;
    local_min_idx = 0;
    local_max_idx = 0;
  };
  global_ranges = [];
}

-- `gather` is what `MPI_Allgather` returns for the local range: one range for each rank.
abbrev pub build_global_topology :
    (Range → List Range) → ℕ → ℕ → GhostRangeBuilder → GhostRangeBuilder
build_global_topology gather local_min local_max b = record {
  topology = record b.topology { local_min_idx = local_min; local_max_idx = local_max };
  global_ranges = gather (record { first = local_min; second = local_max });
}

abbrev pub owns : Range → ℕ → Bool
owns r idx = leb r.first idx && leb idx r.second

-- The loop over the ranks `i`, …, with `left` of them to come. The ranges that are missing are none.
unfoldable pub owner_from : ℕ → List Range → ℕ → ℕ → ℤ
owner_from zero ranges idx i = no_rank
owner_from (suc left) [] idx i = no_rank
owner_from (suc left) (r ∷ rs) idx i =
    let later = owner_from left rs idx (suc i) in if owns r idx then pos i else later

unfoldable pub find_owner_rank : GhostRangeBuilder → ℕ → ℤ
find_owner_rank b idx = owner_from b.topology.size b.global_ranges idx 0

pub record GhostCandidate : Type 0 where
  pub start_idx : ℕ
  pub end_idx : ℕ
  pub target_rank : ℤ

-- `identifyGhostCandidates`, whose search is left open in the source.
abbrev pub identify_ghost_candidates : List ℕ → ℤ → List GhostCandidate
identify_ghost_candidates local_cells halo_depth = []

-- The least rank whose range has the index, or none where no range has it.
abbrev pub Owner : List Range → ℕ → ℕ → ℤ → Type 0
Owner ranges idx i owner =
    ((k : ℕ) × (r : Range) × (owner ≡ pos (i + k))
      × (get_elem? ranges k ≡ some r)
      × (owns r idx ≡ true)
      × ((j : ℕ) (s : Range) → j < k → get_elem? ranges j ≡ some s → owns s idx ≡ false))
    ⊎ ((owner ≡ no_rank) × ((j : ℕ) (s : Range) → get_elem? ranges j ≡ some s → owns s idx ≡ false))

least_behind :
    (r : Range) (rs : List Range) (idx k : ℕ)
    → owns r idx ≡ false
    → ((j : ℕ) (s : Range) → j < k → get_elem? rs j ≡ some s → owns s idx ≡ false)
    → (j : ℕ) (s : Range) → j < suc k
    → get_elem? (r ∷ rs) j ≡ some s
    → owns s idx ≡ false
least_behind r rs idx k away least zero s lt e =
    let same : r ≡ s = cc in ap (λ (x : Range). owns x idx) (sym same) ∙ away
least_behind r rs idx k away least (suc j) s lt e = least j s (omega arith) e

none_behind :
    (r : Range) (rs : List Range) (idx : ℕ)
    → owns r idx ≡ false
    → ((j : ℕ) (s : Range) → get_elem? rs j ≡ some s → owns s idx ≡ false)
    → (j : ℕ) (s : Range) → get_elem? (r ∷ rs) j ≡ some s
    → owns s idx ≡ false
none_behind r rs idx away none_has zero s e =
    let same : r ≡ s = cc in ap (λ (x : Range). owns x idx) (sym same) ∙ away
none_behind r rs idx away none_has (suc j) s e = none_has j s e

owner_from-Owner :
    (ranges : List Range) (idx i : ℕ) → Owner ranges idx i (owner_from (length ranges) ranges idx i)
unfolding owner_from
owner_from-Owner [] idx i = inr (refl, λ j s e. absurd (cc))
owner_from-Owner (r ∷ rs) idx i = elim (Bool-cases (owns r idx)) [
  | inl here ↦ inl (
    0,
    r,
    simp (here, owner_from) (ap pos (omega arith)),
    refl,
    here,
    λ j s lt e. absurd (omega arith),
  )
  | inr away ↦ elim (owner_from-Owner rs idx (suc i)) [
    | inl (k, s, found, at, has, least) ↦ inl (
      suc k,
      s,
      simp (away, owner_from) (found ∙ ap pos (omega arith)),
      at,
      has,
      least_behind r rs idx k away least,
    )
    | inr (missing, none_has) ↦
        inr (simp (away, owner_from) missing, none_behind r rs idx away none_has)
  ]
]

-- Where the gathered list has one range for each rank, the owner that is found is the least rank whose
-- range has the index, and -1 is returned exactly where no range has it.
pub find_owner_rank-Owner :
    (gather : Range → List Range) (rank size local_min local_max idx : ℕ)
    → ((r : Range) → length (gather r) ≡ size)
    → let b = build_global_topology gather local_min local_max (new_builder rank size) in
      Owner b.global_ranges idx 0 (find_owner_rank b idx)
unfolding find_owner_rank
find_owner_rank-Owner gather rank size local_min local_max idx one_each =
    let here : Range = record { first = local_min; second = local_max } in
    rw (← one_each here) (owner_from-Owner (gather here) idx 0)
