-- ===== src/Hilbert/Coord/Octree.antt =====
-- The tree of the cells and the tree of their indices.
use native.Mathlib.Nat.{div-add-mod'}
use fluidloom.Prelude.{
  ℕ, suc, ◌+◌, ◌-◌, ◌*◌, ◌/◌, ◌%◌, ◌^◌, ◌≤◌, ◌<◌, ◌≡◌, refl, sym, ap, ◌∙◌, false, ◌==◌, ltb, leb,
  arith, ℤ, pos, negsuc, ok,
}
use fluidloom.Hilbert.Codec.{truncate, to_i32, bit_at, encode, get_parent}
use fluidloom.Hilbert.Encode.{encode_lem}
use fluidloom.Hilbert.Bits.{bit_at-high, index_digits-same, index_digits-half}
use fluidloom.Hilbert.Coord.{CellCoord, hilbert, halve, parent, append_bit, child}

truncate-halve : (x : ℤ) → truncate (halve x) % 2 ^ 20 ≡ truncate x / 2
unfolding truncate
truncate-halve (pos n) = omega arith
truncate-halve (negsuc n) = omega arith

low_word : (u i : ℕ) → i < 20 → bit_at u i ≡ bit_at (u % 2 ^ 20) i
low_word u i lt =
    ap (λ (t : ℕ). bit_at t i) (sym (div-add-mod' u (2 ^ 20)))
    ∙ bit_at-high (u / 2 ^ 20) (u % 2 ^ 20) i 20 lt

half_bit : (x : ℤ) (i : ℕ) → i < 20 → bit_at (truncate x / 2) i ≡ bit_at (truncate (halve x)) i
half_bit x i lt =
    ap (λ (t : ℕ). bit_at t i) (sym (truncate-halve x)) ∙ sym (low_word (truncate (halve x)) i lt)

encode-half :
    (x y z : ℤ) (l : ℕ)
    → suc l ≤ 21
    → encode x y z (suc l) / 8 ≡ encode (halve x) (halve y) (halve z) l
encode-half x y z l le =
    ap (λ (t : ℕ). t / 8) (encode_lem x y z (suc l) le)
    ∙ index_digits-half l 0 (truncate x) (truncate y) (truncate z)
    ∙ index_digits-same l 0 (truncate x / 2) (truncate y / 2) (truncate z / 2) (truncate (halve x))
        (truncate (halve y)) (truncate (halve z))
        (λ i lt.
          rw (half_bit x i (omega arith), half_bit y i (omega arith), half_bit z i (omega arith))
            refl)
    ∙ sym (encode_lem (halve x) (halve y) (halve z) l (omega arith))

-- A cell of level 1 to 21 has a parent, whose index is the parent of the cell's index.
pub hilbert-parent :
    (c : CellCoord)
    → 0 < c.level
    → c.level ≤ 21
    → (p : CellCoord) × (parent c ≡ ok p) × (get_parent (hilbert c) c.level ≡ ok (hilbert p))
unfolding parent hilbert get_parent
hilbert-parent c lt le =
    let inner : (c.level == 0) ≡ false = ground arith in
    let level : suc (c.level - 1) ≡ c.level = omega arith in
    let half : encode c.x c.y c.z c.level / 8
        ≡ encode (halve c.x) (halve c.y) (halve c.z) (c.level - 1) =
      ap (λ (t : ℕ). encode c.x c.y c.z t / 8) (sym level)
      ∙ encode-half c.x c.y c.z (c.level - 1) (omega arith) in
    (
      record { x = halve c.x; y = halve c.y; z = halve c.z; level = c.level - 1 },
      rw inner refl,
      rw inner (ap ok half),
    )

-- A coordinate that another bit can be appended to.
abbrev pub Half : ℤ → Type 0
Half (pos n) = n < 2 ^ 30
Half (negsuc n) = n < 2 ^ 30

-- An `int32_t`.
abbrev pub Int32 : ℤ → Type 0
Int32 (pos n) = n < 2 ^ 31
Int32 (negsuc n) = n < 2 ^ 31

pub half_word :
    (w d : ℕ) → d < 2 → w < 2 ^ 30 → to_i32 (w % 2 ^ 32 * 2 % 2 ^ 32 + d) ≡ pos (w * 2 + d)
half_word w d hd hw = ground arith

pub half_word_neg :
    (w d : ℕ)
    → d < 2
    → w < 2 ^ 30
    → to_i32 ((2 ^ 32 - 1 - w % 2 ^ 32) * 2 % 2 ^ 32 + d) ≡ negsuc (w * 2 + 1 - d)
half_word_neg w d hd hw = ground arith

pub halve-append_bit : (x : ℤ) (d : ℕ) → d < 2 → Half x → halve (append_bit x d) ≡ x
halve-append_bit (pos n) d hd small = rw (half_word n d hd small) (ap pos (omega arith))
halve-append_bit (negsuc n) d hd small = rw (half_word_neg n d hd small) (ap negsuc (omega arith))

abbrev low_bit : ℤ → ℕ
low_bit (pos n) = n % 2
low_bit (negsuc n) = 1 - n % 2

low_bit-lt : (x : ℤ) → low_bit x < 2
low_bit-lt (pos n) = omega arith
low_bit-lt (negsuc n) = omega arith

append_bit-halve : (x : ℤ) → Int32 x → append_bit (halve x) (low_bit x) ≡ x
append_bit-halve (pos n) small =
    rw (half_word (n / 2) (n % 2) (omega arith) (omega arith)) (ap pos (omega arith))
append_bit-halve (negsuc n) small =
    rw (half_word_neg (n / 2) (1 - n % 2) (omega arith) (omega arith)) (ap negsuc (omega arith))

abbrev cell : ℤ → ℤ → ℤ → ℕ → CellCoord
cell x y z l = record { x = x; y = y; z = z; level = l }

cell_eq :
    {x y z x' y' z' : ℤ} {l l' : ℕ}
    → x ≡ x'
    → y ≡ y'
    → z ≡ z'
    → l ≡ l'
    → cell x y z l ≡ cell x' y' z' l'
cell_eq p q r s = λ i. cell (p i) (q i) (r i) (s i)

-- A cell below level 8 whose coordinates leave room for another bit has eight children, one level
-- deeper, and is the parent of each.
pub parent-child :
    (c : CellCoord) (quadrant : ℕ)
    → c.level < 8
    → quadrant < 8
    → Half c.x
    → Half c.y
    → Half c.z
    → (d : CellCoord) × (child c quadrant ≡ ok d) × (d.level ≡ c.level + 1) × (parent d ≡ ok c)
unfolding parent child
parent-child c quadrant lt hq hx hy hz =
    let fine : leb 8 c.level ≡ false = ground arith in
    let inside : ltb 7 quadrant ≡ false = ground arith in
    let inner : ((c.level + 1) % 256 == 0) ≡ false = ground arith in
    (
      cell (append_bit c.x (quadrant % 2)) (append_bit c.y (quadrant / 2 % 2))
          (append_bit c.z (quadrant / 4 % 2)) ((c.level + 1) % 256),
      rw (fine, inside) refl,
      omega arith,
      rw inner (
          ap ok (
            cell_eq (halve-append_bit c.x (quadrant % 2) (omega arith) hx)
              (halve-append_bit c.y (quadrant / 2 % 2) (omega arith) hy)
              (halve-append_bit c.z (quadrant / 4 % 2) (omega arith) hz) (omega arith))),
    )

-- Every cell of level 1 to 8 with 32-bit coordinates is one of the eight children of its parent.
pub child-parent :
    (c : CellCoord)
    → 0 < c.level
    → c.level ≤ 8
    → Int32 c.x
    → Int32 c.y
    → Int32 c.z
    → (p : CellCoord) × (quadrant : ℕ) × (parent c ≡ ok p)
      × (quadrant < 8)
      × (child p quadrant ≡ ok c)
unfolding parent child
child-parent c lt le hx hy hz =
    let q = low_bit c.z * 4 + low_bit c.y * 2 + low_bit c.x in
    let bx = low_bit-lt c.x in
    let by = low_bit-lt c.y in
    let bz = low_bit-lt c.z in
    let inner : (c.level == 0) ≡ false = ground arith in
    let fine : leb 8 (c.level - 1) ≡ false = ground arith in
    let inside : ltb 7 q ≡ false = ground arith in
    let x : q % 2 ≡ low_bit c.x = omega arith in
    let y : q / 2 % 2 ≡ low_bit c.y = omega arith in
    let z : q / 4 % 2 ≡ low_bit c.z = omega arith in
    (
      cell (halve c.x) (halve c.y) (halve c.z) (c.level - 1),
      q,
      rw inner refl,
      omega arith,
      rw (fine, inside)
          (ap ok (
            cell_eq (ap (append_bit (halve c.x)) x ∙ append_bit-halve c.x hx)
              (ap (append_bit (halve c.y)) y ∙ append_bit-halve c.y hy)
              (ap (append_bit (halve c.z)) z ∙ append_bit-halve c.z hz) (omega arith))),
    )
