-- ===== src/Halo/Layout/Places.antt =====
-- The places of a pack buffer: in the order of the fields, their components and the cells, without
-- overlap and inside the buffer.
use native.Mathlib.Nat.{mul-le-mul_right, le_trans, mod-eq_of_lt, div-mul-le_self}
use fluidloom.Prelude.{
  ℕ, ◌+◌, ◌*◌, ◌^◌, ◌<◌, ◌≤◌, ◌≡◌, sym, subst, ◌∙◌, inl, inr, ◌⊎◌, arith, some, false, Bool-cases,
  ltb, ◌==◌, get_elem?,
}
use fluidloom.Halo.Layout.{FieldLayout, PackBufferLayout, max_cells, get_offset}
use fluidloom.Halo.Layout.Packed.{width, Packed, layout_of_some, field_inside, field_before}

-- The place without the wrap-around, for a buffer of `cells` cells.
abbrev place : FieldLayout → ℕ → ℕ → ℕ → ℕ
place f cells c k =
    f.offset_in_cell * cells + c * f.bytes_per_component * cells + k * f.bytes_per_component

cells_end :
    (o b cells c k : ℕ)
    → k < cells
    → o * cells + c * b * cells + k * b + b ≤ (o + (c + 1) * b) * cells
cells_end o b cells c k lt = grind arith

field_start : (g : FieldLayout) (cells d m : ℕ) → g.offset_in_cell * cells ≤ place g cells d m
field_start g cells d m = omega arith

next_component :
    (o b cells c d m : ℕ) → c < d → (o + (c + 1) * b) * cells ≤ o * cells + d * b * cells + m * b
next_component o b cells c d m lt =
    let blocks : (c + 1) * b ≤ d * b = mul-le-mul_right b (omega arith) in
    let times : (c + 1) * b * cells ≤ d * b * cells = mul-le-mul_right cells blocks in
    omega (arith, times)

next_cell : (a b k m : ℕ) → k < m → a + k * b + b ≤ a + m * b
next_cell a b k m lt =
    let cells : (k + 1) * b ≤ m * b = mul-le-mul_right b (omega arith) in omega (arith, cells)

place_end :
    (f : FieldLayout) (cells c k : ℕ)
    → c < f.num_components
    → k < cells
    → place f cells c k + f.bytes_per_component ≤ (f.offset_in_cell + width f) * cells
place_end f cells c k hc hk =
    let o = f.offset_in_cell in
    let b = f.bytes_per_component in
    let blocks : (c + 1) * b ≤ f.num_components * b = mul-le-mul_right b (omega arith) in
    let more : o + (c + 1) * b ≤ o + width f = omega (arith, blocks) in
    le_trans (cells_end o b cells c k hk) (mul-le-mul_right cells more)

cells-le : (l : PackBufferLayout) → l.cell_size_bytes * max_cells l ≤ l.capacity_bytes
cells-le l = elim (Bool-cases (ltb 0 l.cell_size_bytes)) [
  | inl some_size ↦ rw some_size (omega (arith, div-mul-le_self l.capacity_bytes l.cell_size_bytes))
  | inr empty ↦ rw empty (omega arith)
]

module _ (l : PackBufferLayout) (packed : Packed l.fields 0 l.cell_size_bytes)
    (fits : l.capacity_bytes < 2 ^ 64) where
  place_inside :
      (i c k : ℕ) (f : FieldLayout)
      → get_elem? l.fields i ≡ some f
      → c < f.num_components
      → k < max_cells l
      → place f (max_cells l) c k + f.bytes_per_component ≤ l.capacity_bytes
  place_inside i c k f e hc hk =
      let (lo, hi) = field_inside l.fields 0 l.cell_size_bytes i f packed e in
      le_trans (place_end f (max_cells l) c k hc hk)
        (le_trans (mul-le-mul_right (max_cells l) hi) (cells-le l))

  get_offset_lem :
      (i c k : ℕ) (f : FieldLayout)
      → get_elem? l.fields i ≡ some f
      → c < f.num_components
      → k < max_cells l
      → get_offset l i c k ≡ place f (max_cells l) c k
  unfolding get_offset
  get_offset_lem i c k f e hc hk =
      let nonzero : (max_cells l == 0) ≡ false = ground arith in
      let small : place f (max_cells l) c k < 2 ^ 64 =
        omega (arith, fits, place_inside i c k f e hc hk) in
      simp (e, nonzero, get_offset) (mod-eq_of_lt small)

  -- The place of cell `k` of component `c` of field `i` stands before that of `(j, d, m)`.
  abbrev pub Before : ℕ → ℕ → ℕ → ℕ → ℕ → ℕ → Type 0
  Before i c k j d m = (i < j) ⊎ ((i ≡ j) × ((c < d) ⊎ ((c ≡ d) × (k < m))))

  place_ordered :
      (i c k j d m : ℕ) (f g : FieldLayout)
      → get_elem? l.fields i ≡ some f
      → get_elem? l.fields j ≡ some g
      → c < f.num_components
      → k < max_cells l
      → Before i c k j d m
      → place f (max_cells l) c k + f.bytes_per_component ≤ place g (max_cells l) d m
  place_ordered i c k j d m f g ei ej hc hk before = elim before [
    | inl lt ↦
        let first = place_end f (max_cells l) c k hc hk in
        let order = field_before l.fields 0 l.cell_size_bytes i j f g packed ei ej lt in
        le_trans first
          (le_trans (mul-le-mul_right (max_cells l) order) (field_start g (max_cells l) d m))
    | inr (same, later) ↦ elim later [
      | inl lt ↦
          let one : f ≡ g = layout_of_some (sym ei ∙ rw same ej) in
          subst
            (λ (x : FieldLayout).
              place f (max_cells l) c k + f.bytes_per_component ≤ place x (max_cells l) d m)
            one
            (le_trans (cells_end f.offset_in_cell f.bytes_per_component (max_cells l) c k hk)
              (next_component f.offset_in_cell f.bytes_per_component (max_cells l) c d m lt))
      | inr (eq, lt) ↦
          let one : f ≡ g = layout_of_some (sym ei ∙ rw same ej) in
          subst
            (λ (x : FieldLayout).
              place f (max_cells l) c k + f.bytes_per_component ≤ place x (max_cells l) d m)
            one
            (rw eq (
              next_cell (f.offset_in_cell * max_cells l + d * f.bytes_per_component * max_cells l)
                f.bytes_per_component k m lt))
    ]
  ]

  -- In a packed layout whose capacity is below 2^64, the places of the components of the cells that
  -- the buffer has room for are ordered by field, component and cell, each ends before the next one
  -- begins, and the later of two ends inside the buffer.
  pub get_offset_ordered :
      (i c k j d m : ℕ) (f g : FieldLayout)
      → get_elem? l.fields i ≡ some f
      → get_elem? l.fields j ≡ some g
      → c < f.num_components
      → d < g.num_components
      → k < max_cells l
      → m < max_cells l
      → Before i c k j d m
      → (get_offset l i c k + f.bytes_per_component ≤ get_offset l j d m)
        × (get_offset l j d m + g.bytes_per_component ≤ l.capacity_bytes)
  get_offset_ordered i c k j d m f g ei ej hc hd hk hm before =
      rw (get_offset_lem i c k f ei hc hk, get_offset_lem j d m g ej hd hm)
        (place_ordered i c k j d m f g ei ej hc hk before, place_inside j d m g ej hd hm)
