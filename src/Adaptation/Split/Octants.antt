-- ===== src/Adaptation/Split/Octants.antt =====
-- The children that `split` returns are the eight octants of each cell that is fluid, flagged and below
-- level 8.
use fluidloom.Prelude.{
  ℕ, zero, suc, ◌+◌, ◌-◌, ◌*◌, ◌/◌, ◌%◌, ◌^◌, ◌≤◌, ◌<◌, ◌≡◌, refl, ap, ◌∙◌, inl, inr, arith, List,
  [], ◌∷◌, ◌++◌, Bool, true, ◌&&◌, Bool-cases, length, ltb, ◌==◌, if◌then◌else◌, ℤ, pos, negsuc,
  ltb_ℤ, ok,
}
use fluidloom.Hilbert.Codec.{to_u32}
use fluidloom.Hilbert.Coord.{append_bit}
use fluidloom.Adaptation.Cell.{CellDescriptor, to_i21}
use fluidloom.Adaptation.Balance.{is_set}
use fluidloom.Adaptation.Split.{SplitResult, can_split, scratch, child_of, children_from, split}
use fluidloom.Adaptation.Split.Children.{children_of, splits, split-Splits}

-- Twice a coordinate, and a bit.
abbrev pub twice : ℤ → ℕ → ℤ
twice (pos n) d = pos (2 * n + d)
twice (negsuc n) d = negsuc (2 * n + 1 - d)

-- The child of a fluid cell with a number below 8: one level deeper, at twice the coordinates and the
-- bits of the number, in fields of 21 bits, with the material of the cell in 24.
abbrev pub octant : CellDescriptor → ℕ → CellDescriptor
octant c k = record {
  x = to_i21 (twice c.x (k % 2));
  y = to_i21 (twice c.y (k / 2 % 2));
  z = to_i21 (twice c.z (k / 4 % 2));
  level = c.level + 1;
  state = 0;
  material_id = c.material_id % 2 ^ 24;
  visited = 0;
  reserved = 0;
}

abbrev pub octants : CellDescriptor → List CellDescriptor
octants c =
    octant c 0
    ∷ octant c 1
    ∷ octant c 2
    ∷ octant c 3
    ∷ octant c 4
    ∷ octant c 5
    ∷ octant c 6
    ∷ octant c 7
    ∷ []

-- Flagged, fluid (state 0) and below level 8.
abbrev pub splittable : CellDescriptor → ℤ → Bool
splittable c flag = ltb_ℤ (pos 0) flag && ((c.state == 0) && ltb c.level 8)

unfoldable pub octants_of : List CellDescriptor → List ℤ → List CellDescriptor
octants_of (c ∷ cs) (flag ∷ flags) =
    let rest = octants_of cs flags in if splittable c flag then octants c ++ rest else rest
octants_of cs flags = []

unfoldable pub splittables : List CellDescriptor → List ℤ → ℕ
splittables (c ∷ cs) (flag ∷ flags) =
    let rest = splittables cs flags in if splittable c flag then suc rest else rest
splittables cs flags = 0

-- What a split returns.
pub record Octants (cells : List CellDescriptor) (flags : List ℤ) (r : SplitResult) : Type 0 where
  pub children_made : r.children ≡ octants_of cells flags
  pub parents_counted : r.num_parents_split ≡ splittables cells flags
  pub children_counted : r.num_children ≡ 8 * splittables cells flags

is_set-positive : (flag : ℤ) → is_set flag ≡ ltb_ℤ (pos 0) flag
is_set-positive (pos zero) = refl
is_set-positive (pos (suc n)) = ground arith
is_set-positive (negsuc n) = ground arith

can_split-splittable : (c : CellDescriptor) (flag : ℤ) → can_split c flag ≡ splittable c flag
unfolding can_split
can_split-splittable c flag = rw (is_set-positive flag) refl

low_bits : (x : ℤ) (d : ℕ) → d < 2 → to_u32 (append_bit x d) % 2 ^ 21 ≡ to_u32 (twice x d) % 2 ^ 21
low_bits (pos n) d h = ground arith
low_bits (negsuc n) d h = ground arith

to_i21-append_bit : (x : ℤ) (d : ℕ) → d < 2 → to_i21 (append_bit x d) ≡ to_i21 (twice x d)
to_i21-append_bit x d h =
    ap (λ (w : ℕ). if ltb w (2 ^ 20) then pos w else negsuc (2 ^ 21 - 1 - w)) (low_bits x d h)

child_of-octant :
    (c : CellDescriptor) (k : ℕ)
    → (c.state == 0) ≡ true
    → ltb c.level 8 ≡ true
    → child_of c k ≡ octant c k
child_of-octant c k fluid shallow =
    let ex = to_i21-append_bit c.x (k % 2) (omega arith) in
    let ey = to_i21-append_bit c.y (k / 2 % 2) (omega arith) in
    let ez = to_i21-append_bit c.z (k / 4 % 2) (omega arith) in
    let el : (c.level + 1) % 256 % 2 ^ 4 ≡ c.level + 1 = ground (arith, shallow) in
    let es : c.state % 2 ^ 4 ≡ 0 = ground (arith, fluid) in
    λ i. record {
      x = ex i;
      y = ey i;
      z = ez i;
      level = el i;
      state = es i;
      material_id = c.material_id % 2 ^ 24;
      visited = 0;
      reserved = 0;
    }

children_from-octants :
    (c : CellDescriptor) (flag : ℤ) → splittable c flag ≡ true → children_from c ≡ octants c
children_from-octants c flag h =
    let fluid : (c.state == 0) ≡ true = ground (arith, h) in
    let shallow : ltb c.level 8 ≡ true = ground (arith, h) in
    let at : (k : ℕ) → child_of c k ≡ octant c k = λ k. child_of-octant c k fluid shallow in
    λ i. at 0 i ∷ at 1 i ∷ at 2 i ∷ at 3 i ∷ at 4 i ∷ at 5 i ∷ at 6 i ∷ at 7 i ∷ []

pub children_of-octants :
    (cs : List CellDescriptor) (flags : List ℤ)
    → children_of cs (scratch cs flags) ≡ octants_of cs flags
unfolding children_of scratch octants_of
children_of-octants [] flags = refl
children_of-octants (c ∷ cs) [] = refl
children_of-octants (c ∷ cs) (flag ∷ flags) =
    let rest = children_of-octants cs flags in
    elim (Bool-cases (splittable c flag)) [
      | inl wanted ↦
          rw (can_split-splittable c flag, wanted, rest)
            (ap (λ (t : List CellDescriptor). t ++ octants_of cs flags)
              (children_from-octants c flag wanted))
      | inr kept ↦ rw (can_split-splittable c flag, kept) rest
    ]

splits-splittables :
    (cs : List CellDescriptor) (flags : List ℤ)
    → splits cs (scratch cs flags) ≡ splittables cs flags
unfolding splits scratch splittables
splits-splittables [] flags = refl
splits-splittables (c ∷ cs) [] = refl
splits-splittables (c ∷ cs) (flag ∷ flags) =
    let rest = splits-splittables cs flags in
    elim (Bool-cases (splittable c flag)) [
      | inl wanted ↦ rw (can_split-splittable c flag, wanted) (omega (arith, rest))
      | inr kept ↦ rw (can_split-splittable c flag, kept) (omega (arith, rest))
    ]

pub octants_few :
    (cs : List CellDescriptor) (flags : List ℤ) → length (octants_of cs flags) ≤ 8 * length cs
unfolding octants_of
octants_few [] flags = omega arith
octants_few (c ∷ cs) [] = omega arith
octants_few (c ∷ cs) (flag ∷ flags) =
    let rest = octants_few cs flags in
    elim (Bool-cases (splittable c flag)) [
      | inl wanted ↦ rw wanted (omega (arith, rest))
      | inr kept ↦ rw kept (omega (arith, rest))
    ]

-- For less than 2^28 cells with a flag for each, where the calls of OpenCL succeed, `split` returns.
-- Its children are the eight octants of each cell that is flagged, fluid and below level 8, in the
-- order of the cells; it counts those cells, and eight times as many children.
pub split-Octants :
    (junk : CellDescriptor) (calls : ℕ → Bool) (cells : List CellDescriptor) (flags : List ℤ)
    (has_fields : Bool)
    → ((k : ℕ) → calls k ≡ true)
    → length flags ≡ length cells
    → length cells < 2 ^ 28
    → (r : SplitResult) × (split junk calls cells flags has_fields ≡ ok r) × Octants cells flags r
split-Octants junk calls cells flags has_fields good same few =
    let (r, ends, made) = split-Splits junk calls cells flags has_fields good same few in
    let counted = made.parents_counted ∙ splits-splittables cells flags in
    (
      r,
      ends,
      record {
        children_made = made.children_made ∙ children_of-octants cells flags;
        parents_counted = counted;
        children_counted = made.children_counted ∙ ap (λ (n : ℕ). 8 * n) counted;
      },
    )
