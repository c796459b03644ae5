-- ===== src/Tests/Ghosting.antt =====
-- Two ranks that own the indices 0 to 7 and 8 to 15.
use fluidloom.Prelude.{◌≡◌, refl, List, [], ◌∷◌, pos}
use fluidloom.Halo.Ghosts.{
  Range, new_builder, build_global_topology, owner_from, find_owner_rank, Owner,
  find_owner_rank-Owner,
}

abbrev both_ranges : List Range
both_ranges = record { first = 0; second = 7 } ∷ record { first = 8; second = 15 } ∷ []

abbrev gathered : Range → List Range
gathered r = both_ranges

find_owner_rank-Owner_example :
    Owner both_ranges 9 0 (find_owner_rank (build_global_topology gathered 0 7 (new_builder 0 2)) 9)
find_owner_rank-Owner_example = find_owner_rank-Owner gathered 0 2 0 7 9 (λ r. refl)

second_owns : find_owner_rank (build_global_topology gathered 0 7 (new_builder 0 2)) 9 ≡ pos 1
unfolding find_owner_rank owner_from
second_owns = refl
