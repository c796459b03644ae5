-- ===== src/Hilbert/Coord/Valid.antt =====
-- The indices of cells are canonical, and the index of a child is a child of the index.
use native.Mathlib.Nat.{div-eq_of_lt, pow-le-pow_right}
use fluidloom.Prelude.{
  ℕ, ◌+◌, ◌-◌, ◌*◌, ◌/◌, ◌%◌, ◌^◌, ◌≤◌, ◌<◌, ◌≡◌, refl, ap, ◌∙◌, ◌↔◌, Bool, true, false, ◌&&◌, ◌||◌,
  ◌==◌, ltb, leb, if◌then◌else◌, arith, ℤ, ok, Bool-cases, inl, inr,
}
use fluidloom.Hilbert.Codec.{encode, get_parent, get_child, is_valid, truncate}
use fluidloom.Hilbert.Digits.{index_digits-lt, holds_below, holds_below_at}
use fluidloom.Hilbert.Encode.{encode_lem, pow-le}
use fluidloom.Hilbert.Coord.{CellCoord, hilbert, child, magnitude, validate_cell_coord}
use fluidloom.Hilbert.Coord.Octree.{hilbert-parent, parent-child, Half}

pub encode-lt : (x y z : ℤ) (level : ℕ) → level ≤ 21 → encode x y z level < 8 ^ level
encode-lt x y z level le =
    rw (encode_lem x y z level le) (index_digits-lt level 0 (truncate x) (truncate y) (truncate z))

cubes : holds_below 22 (λ l. 8 ^ l == 2 ^ (l * 3)) ≡ true
unfolding holds_below
cubes = refl

cube_power : (l : ℕ) → l ≤ 21 → 8 ^ l ≡ 2 ^ (l * 3)
cube_power l le = ground (arith, holds_below_at 22 (λ k. 8 ^ k == 2 ^ (k * 3)) l cubes)

either : (b : Bool) → (if b then true else true) ≡ true
either true = refl
either false = refl

pub is_valid_below : (h level : ℕ) → level ≤ 21 → h < 8 ^ level → is_valid h level ≡ true
unfolding is_valid
is_valid_below h level le lt =
    let small = pow-le level le in
    let used : h / 2 ^ (level * 3) ≡ 0 = div-eq_of_lt (rw (cube_power level le) at lt) in
    let not_empty : (h == 0xffff_ffff_ffff_ffff) ≡ false = ground (arith, small) in
    let not_high : leb (2 ^ 63) h ≡ false = ground (arith, small) in
    rw (not_empty, not_high, used)
      (either (ltb 0 ((64 + 768 - level * 3) % 256) && ltb ((64 + 768 - level * 3) % 256) 64))

-- Up to level 21 the index that is computed for coordinates is canonical.
pub is_valid-encode :
    (x y z : ℤ) (level : ℕ) → level ≤ 21 → is_valid (encode x y z level) level ≡ true
is_valid-encode x y z level le =
    is_valid_below (encode x y z level) level le (encode-lt x y z level le)

in_range :
    (l a b c : ℕ)
    → l ≤ 8
    → ((if leb (2 ^ 21) a || (leb (2 ^ 21) b || leb (2 ^ 21) c) then false else true) ≡ true)
      ↔ ((l ≤ 8) × (a < 2 ^ 21) × (b < 2 ^ 21) × (c < 2 ^ 21))
in_range l a b c le = (λ e. ground (arith, e), λ (h, ha, hb, hc). ground (arith, ha, hb, hc))

-- The validation accepts a cell exactly where its level is at most 8 and the magnitude of each
-- coordinate is below 2^21: the test of the index never rejects one.
pub validate_cell_coord_iff :
    (c : CellCoord)
    → (validate_cell_coord c ≡ true) ↔ (
        (c.level ≤ 8)
        × (magnitude c.x < 2 ^ 21)
        × (magnitude c.y < 2 ^ 21)
        × (magnitude c.z < 2 ^ 21))
unfolding validate_cell_coord
validate_cell_coord_iff c =
    let canonical : c.level ≤ 8 → is_valid (hilbert c) c.level ≡ true =
      λ le. unfold hilbert in is_valid-encode c.x c.y c.z c.level (omega arith) in
    elim (Bool-cases (ltb 8 c.level)) [
      | inl deep ↦ rw deep ((λ e. absurd (cc)), λ ok. absurd (ground (arith, deep, ok.0)))
      | inr fine ↦
          let valid = canonical (ground (arith, fine)) in
          rw (fine, valid)
            (in_range c.level (magnitude c.x) (magnitude c.y) (magnitude c.z)
              (ground (arith, fine)))
    ]

get_parent_inside : (h level k : ℕ) → 0 < level → get_parent h level ≡ ok k → h / 8 ≡ k
unfolding get_parent
get_parent_inside h level k lt e =
    let inner : (level == 0) ≡ false = ground arith in cc (rw inner at e)

join_digit : (h k : ℕ) → h / 8 ≡ k → k < 2 ^ 61 → k * 8 % 2 ^ 64 + h % 8 ≡ h
join_digit h k e small = omega (arith, e)

index_small : (c : CellCoord) → c.level < 8 → hilbert c < 2 ^ 61
unfolding hilbert
index_small c lt =
    let small : 8 ^ c.level ≤ 8 ^ 8 = pow-le-pow_right (omega arith) {j = 8} (omega arith) in
    omega (arith, small, encode-lt c.x c.y c.z c.level (omega arith))

-- The index of a child is a child of the cell's index, at the place in its last digit.
pub hilbert-child :
    (c : CellCoord) (quadrant : ℕ)
    → c.level < 8
    → quadrant < 8
    → Half c.x
    → Half c.y
    → Half c.z
    → (d : CellCoord) × (child c quadrant ≡ ok d)
      × (get_child (hilbert c) c.level (hilbert d % 8) ≡ ok (hilbert d))
unfolding get_child
hilbert-child c quadrant lt hq hx hy hz =
    let (d, made, level, back) = parent-child c quadrant lt hq hx hy hz in
    let (p, up, index) = hilbert-parent d (omega (arith, level)) (omega (arith, level)) in
    let same : p ≡ c = cc in
    let eighth = get_parent_inside (hilbert d) d.level (hilbert p) (omega (arith, level)) index in
    let small = index_small c lt in
    let fine : leb 8 c.level ≡ false = ground arith in
    let inside : ltb 7 (hilbert d % 8) ≡ false = ground arith in
    (
      d,
      made,
      rw (fine, inside)
          (ap ok (join_digit (hilbert d) (hilbert c) (eighth ∙ ap hilbert same) small)),
    )
