-- ===== src/Halo/Layout/Packed.antt =====
-- Fields that lie one behind the other in a cell.
use native.Mathlib.Nat.{mod-eq_of_lt}
use fluidloom.Prelude.{
  ℕ, zero, suc, ◌+◌, ◌*◌, ◌^◌, ◌<◌, ◌≤◌, ◌≡◌, refl, sym, ap, subst, ◌∙◌, arith, List, [], ◌∷◌, ◌++◌,
  some, String, get_elem?,
}
use fluidloom.Halo.Layout.{FieldLayout, PackBufferLayout, add_field}

abbrev pub width : FieldLayout → ℕ
width f = f.num_components * f.bytes_per_component

-- The fields lie one behind the other, from `start` to `total`.
unfoldable pub Packed : List FieldLayout → ℕ → ℕ → Type 0
Packed [] start total = start ≡ total
Packed (f ∷ fs) start total = (f.offset_in_cell ≡ start) × Packed fs (start + width f) total

pub layout_of_some : {f g : FieldLayout} → some f ≡ some g → f ≡ g
layout_of_some e = cc

Packed-append :
    (fs : List FieldLayout) (start total : ℕ) (f : FieldLayout)
    → f.offset_in_cell ≡ total
    → Packed fs start total
    → Packed (fs ++ f ∷ []) start (total + width f)
unfolding Packed
Packed-append [] start total f e p = (e ∙ sym p, ap (λ (t : ℕ). t + width f) p)
Packed-append (g ∷ gs) start total f e (here, rest) =
    (here, Packed-append gs (start + width g) total f e rest)

-- Adding a field that a 64-bit size has room for.
pub add_field-Packed :
    (l : PackBufferLayout) (name : String) (num_comp bytes : ℕ)
    → l.cell_size_bytes + num_comp * bytes < 2 ^ 64
    → Packed l.fields 0 l.cell_size_bytes
    → let l' = add_field name num_comp bytes l in Packed l'.fields 0 l'.cell_size_bytes
unfolding add_field
add_field-Packed l name num_comp bytes room p = rw (mod-eq_of_lt room) (
    Packed-append l.fields 0 l.cell_size_bytes
      (record {
        field_name = name;
        num_components = num_comp;
        bytes_per_component = bytes;
        offset_in_cell = l.cell_size_bytes;
      })
      refl p)

start-le : (fs : List FieldLayout) (start total : ℕ) → Packed fs start total → start ≤ total
unfolding Packed
start-le [] start total p = omega (arith, p)
start-le (f ∷ fs) start total (here, rest) = omega (arith, start-le fs (start + width f) total rest)

pub field_inside :
    (fs : List FieldLayout) (start total i : ℕ) (f : FieldLayout)
    → Packed fs start total
    → get_elem? fs i ≡ some f
    → (start ≤ f.offset_in_cell) × (f.offset_in_cell + width f ≤ total)
unfolding Packed
field_inside [] start total i f p e = absurd (cc)
field_inside (g ∷ gs) start total zero f (here, rest) e =
    let same : g ≡ f = layout_of_some e in
    subst (λ (x : FieldLayout). (start ≤ x.offset_in_cell) × (x.offset_in_cell + width x ≤ total))
      same (omega (arith, here), omega (arith, here, start-le gs (start + width g) total rest))
field_inside (g ∷ gs) start total (suc i) f (here, rest) e =
    let (lo, hi) = field_inside gs (start + width g) total i f rest e in (omega (arith, lo), hi)

pub field_before :
    (fs : List FieldLayout) (start total i j : ℕ) (f g : FieldLayout)
    → Packed fs start total
    → get_elem? fs i ≡ some f
    → get_elem? fs j ≡ some g
    → i < j
    → f.offset_in_cell + width f ≤ g.offset_in_cell
unfolding Packed
field_before [] start total i j f g p ei ej lt = absurd (cc)
field_before (x ∷ xs) start total zero zero f g p ei ej lt = absurd (omega arith)
field_before (x ∷ xs) start total zero (suc j) f g (here, rest) ei ej lt =
    let same : x ≡ f = layout_of_some ei in
    let (lo, hi) = field_inside xs (start + width x) total j g rest ej in
    subst (λ (y : FieldLayout). y.offset_in_cell + width y ≤ g.offset_in_cell) same
      (omega (arith, here, lo))
field_before (x ∷ xs) start total (suc i) zero f g p ei ej lt = absurd (omega arith)
field_before (x ∷ xs) start total (suc i) (suc j) f g (here, rest) ei ej lt =
    field_before xs (start + width x) total i j f g rest ei ej (omega arith)
