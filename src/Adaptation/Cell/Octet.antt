-- ===== src/Adaptation/Cell/Octet.antt =====
-- The eight children of a cell are the siblings whose parent it is.
use fluidloom.Prelude.{
  ℕ, ◌+◌, ◌/◌, ◌%◌, ◌^◌, ◌<◌, ◌≡◌, refl, sym, ap, ◌∙◌, true, false, ◌&&◌, ◌==◌, arith, ℤ, pos,
  negsuc, eqb_ℤ_refl,
}
use fluidloom.Hilbert.Coord.{halve, append_bit}
use fluidloom.Hilbert.Coord.Octree.{half_word, half_word_neg, Half, halve-append_bit}
use fluidloom.Adaptation.Cell.{
  CellDescriptor, to_i21, get_parent, get_child, is_sibling_of, is_even, is_first_sibling,
}

-- A coordinate whose children fit in 21 bits.
abbrev pub Room21 : ℤ → Type 0
Room21 (pos n) = n < 2 ^ 19
Room21 (negsuc n) = n < 2 ^ 19

-- A cell below the highest level, with coordinates that leave room for its children, the other fields
-- in range and the flags clear.
pub record IsCell (c : CellDescriptor) : Type 0 where
  pub x_fits : Room21 c.x
  pub y_fits : Room21 c.y
  pub z_fits : Room21 c.z
  pub level_fits : c.level < 8
  pub state_fits : c.state < 2 ^ 4
  pub material_fits : c.material_id < 2 ^ 24
  pub unvisited : c.visited ≡ 0
  pub unreserved : c.reserved ≡ 0

Half-of_Room21 : (x : ℤ) → Room21 x → Half x
Half-of_Room21 (pos n) h = omega arith
Half-of_Room21 (negsuc n) h = omega arith

to_i21_fits : (x : ℤ) → Room21 x → to_i21 x ≡ x
to_i21_fits (pos n) h = ground arith
to_i21_fits (negsuc n) h = ground arith

to_i21-append_bit : (x : ℤ) (d : ℕ) → d < 2 → Room21 x → to_i21 (append_bit x d) ≡ append_bit x d
to_i21-append_bit (pos n) d hd h = rw (half_word n d hd (omega arith)) (ground arith)
to_i21-append_bit (negsuc n) d hd h = rw (half_word_neg n d hd (omega arith)) (ground arith)

is_even-append_bit : (x : ℤ) (d : ℕ) → d < 2 → Room21 x → is_even (append_bit x d) ≡ (d == 0)
is_even-append_bit (pos n) d hd h = rw (half_word n d hd (omega arith)) (ground arith)
is_even-append_bit (negsuc n) d hd h = rw (half_word_neg n d hd (omega arith)) (ground arith)

-- A child's coordinate, its half and its parity.
record Appended (x : ℤ) (d : ℕ) : Type 0 where
  half : halve (to_i21 (append_bit x d)) ≡ x
  stored : to_i21 x ≡ x
  parity : is_even (to_i21 (append_bit x d)) ≡ (d == 0)

append_bit-Appended : (x : ℤ) (d : ℕ) → d < 2 → Room21 x → Appended x d
append_bit-Appended x d hd h = record {
  half = ap halve (to_i21-append_bit x d hd h) ∙ halve-append_bit x d hd (Half-of_Room21 x h);
  stored = to_i21_fits x h;
  parity = ap is_even (to_i21-append_bit x d hd h) ∙ is_even-append_bit x d hd h;
}

first_number : (i : ℕ) → i < 8 → ((i % 2 == 0) && ((i / 2 % 2 == 0) && (i / 4 % 2 == 0))) ≡ (i == 0)
first_number i h = ground arith

record_eq :
    (c : CellDescriptor) (x y z : ℤ) (level state material : ℕ)
    → x ≡ c.x
    → y ≡ c.y
    → z ≡ c.z
    → level ≡ c.level
    → state ≡ c.state
    → material ≡ c.material_id
    → c.visited ≡ 0
    → c.reserved ≡ 0
    → Path CellDescriptor
        (record {
          x = x;
          y = y;
          z = z;
          level = level;
          state = state;
          material_id = material;
          visited = 0;
          reserved = 0;
        })
        c
record_eq c x y z level state material ex ey ez el es em ev er = λ i. record {
  x = ex i;
  y = ey i;
  z = ez i;
  level = el i;
  state = es i;
  material_id = em i;
  visited = sym ev i;
  reserved = sym er i;
}

-- For a cell below level 8 with coordinates from -2^19 up to and without 2^19, its state in 4 bits, its
-- material in 24 and its visited and reserved bits clear, and two child numbers below 8: the parent of
-- a child is the cell, the two children are siblings, and a child is the first one just where its
-- number is 0.
pub get_child-octet :
    (c : CellDescriptor) (i j : ℕ)
    → IsCell c
    → i < 8
    → j < 8
    → (get_parent (get_child i c) ≡ c)
      × (is_sibling_of (get_child i c) (get_child j c) ≡ true)
      × (is_first_sibling (get_child i c) ≡ (i == 0))
unfolding get_parent get_child is_sibling_of is_first_sibling
get_child-octet c i j h hi hj =
    let xi = append_bit-Appended c.x (i % 2) (omega arith) h.x_fits in
    let yi = append_bit-Appended c.y (i / 2 % 2) (omega arith) h.y_fits in
    let zi = append_bit-Appended c.z (i / 4 % 2) (omega arith) h.z_fits in
    let xj = append_bit-Appended c.x (j % 2) (omega arith) h.x_fits in
    let yj = append_bit-Appended c.y (j / 2 % 2) (omega arith) h.y_fits in
    let zj = append_bit-Appended c.z (j / 4 % 2) (omega arith) h.z_fits in
    let same : ((c.level + 1) % 16 == (c.level + 1) % 16) ≡ true = ground arith in
    let deep : ((c.level + 1) % 16 == 0) ≡ false = ground (arith, h.level_fits) in
    (
      record_eq c (to_i21 (halve (to_i21 (append_bit c.x (i % 2)))))
          (to_i21 (halve (to_i21 (append_bit c.y (i / 2 % 2)))))
          (to_i21 (halve (to_i21 (append_bit c.z (i / 4 % 2))))) (((c.level + 1) % 16 + 15) % 16)
          (c.state % 16 % 16) (c.material_id % 2 ^ 24 % 2 ^ 24) (ap to_i21 xi.half ∙ xi.stored)
          (ap to_i21 yi.half ∙ yi.stored) (ap to_i21 zi.half ∙ zi.stored)
          (omega (arith, h.level_fits)) (omega (arith, h.state_fits))
          (omega (arith, h.material_fits)) h.unvisited h.unreserved,
      rw
          (
            same,
            deep,
            xi.half,
            yi.half,
            zi.half,
            xj.half,
            yj.half,
            zj.half,
            eqb_ℤ_refl c.x,
            eqb_ℤ_refl c.y,
            eqb_ℤ_refl c.z,
          )
          refl,
      rw (xi.parity, yi.parity, zi.parity) (first_number i hi),
    )
