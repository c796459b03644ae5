-- ===== src/Adaptation/Balance/Detect.antt =====
-- The kernel `detect_balance_violations` (src/adaptation/kernels/balance_enforce.cl).
-- `levels` are the shadow levels. A shift by `8 - level` is undefined in the source above level 8.
use fluidloom.Prelude.{
  ℕ, zero, suc, ◌+◌, ◌-◌, ◌*◌, ◌/◌, ◌%◌, ◌^◌, List, [], ◌∷◌, none, some, Bool, true, false, not,
  ◌&&◌, get_or, get_elem?, length, ltb, ◌==◌, if◌then◌else◌, ℤ, pos, negsuc, eqb_ℤ,
}
use fluidloom.Hilbert.Codec.{Point, to_u32, to_i32}
use fluidloom.Adaptation.Curve.{hilbert_encode_3d, point}
use fluidloom.Adaptation.Cell.{CellDescriptor, fluid, max_refinement_level, invalid_index}
use fluidloom.Adaptation.Probing.{HashState, next_hash, slot_at}

abbrev pub hash_words : HashState → List ℕ
hash_words s = elim s.hash_table [ none ↦ [] | some table ↦ table ]

-- `x + k` on 32-bit words.
abbrev pub plus_word : ℤ → ℕ → ℤ
plus_word x k = to_i32 ((to_u32 x + k) % 2 ^ 32)

-- `x & ~(size - 1)` for a power of 2.
abbrev pub anchor : ℕ → ℤ → ℤ
anchor size (pos n) = pos (n / size * size)
anchor size (negsuc n) = negsuc (n / size * size + size - 1)

abbrev pub cell_size : ℕ → ℕ
cell_size level = 2 ^ (max_refinement_level - level)

abbrev pub test_points : CellDescriptor → ℕ → List Point
test_points c size =
    point (plus_word c.x (2 ^ 32 - 1)) c.y c.z
    ∷ point (plus_word c.x size) c.y c.z
    ∷ point c.x (plus_word c.y (2 ^ 32 - 1)) c.z
    ∷ point c.x (plus_word c.y size) c.z
    ∷ point c.x c.y (plus_word c.z (2 ^ 32 - 1))
    ∷ point c.x c.y (plus_word c.z size)
    ∷ []

module _ (table : List ℕ) (cells : List CellDescriptor) (levels : List ℕ) where
  -- Whether the cell `i` has the level and the anchor.
  unfoldable pub is_neighbor : ℕ → ℕ → Point → Bool
  is_neighbor i l a = elim (get_elem? cells i) [
    | none ↦ false
    | some c ↦ (get_or levels i 0 == l) && (eqb_ℤ c.x a.x && (eqb_ℤ c.y a.y && eqb_ℤ c.z a.z))
  ]

  -- The linear probing, with `left` of 64 probes to go.
  unfoldable pub probe : ℕ → ℕ → ℕ → Point → Bool
  probe zero hash l a = false
  probe (suc left) hash l a =
      let rest = probe left (next_hash (length table) hash) l a in
      let i = slot_at table hash in
      if i == invalid_index then false else if is_neighbor i l a then true else rest

  -- Whether a cell of level `l` covers the point.
  unfoldable pub found_at : ℕ → Point → Bool
  found_at l p =
      let size = cell_size l in
      let a = point (anchor size p.x) (anchor size p.y) (anchor size p.z) in
      let hash = hilbert_encode_3d a.x a.y a.z max_refinement_level % length table % 2 ^ 32 in
      probe 64 hash l a

  -- The levels from `l` on, `left` of them: whether the first that covers the point is too fine.
  unfoldable pub too_fine : ℕ → ℕ → ℕ → Point → Bool
  too_fine zero l my_level p = false
  too_fine (suc left) l my_level p =
      let rest = too_fine left (suc l) my_level p in
      if found_at l p then ltb (my_level + 1) l else rest

  unfoldable pub any_too_fine : ℕ → List Point → Bool
  any_too_fine my_level [] = false
  any_too_fine my_level (p ∷ ps) =
      let rest = any_too_fine my_level ps in if too_fine 9 0 my_level p then true else rest

  unfoldable pub violates : CellDescriptor → ℕ → Bool
  violates c my_level =
      if not (c.state == fluid)
      then false
      else any_too_fine my_level (test_points c (cell_size my_level))

  unfoldable pub detect_from : List CellDescriptor → List ℕ → List Bool
  detect_from (c ∷ cs) (l ∷ ls) = violates c l ∷ detect_from cs ls
  detect_from cs ls = []

-- The violation flags.
unfoldable pub detect : List ℕ → List CellDescriptor → List ℕ → List Bool
detect table cells levels = detect_from table cells levels cells levels
