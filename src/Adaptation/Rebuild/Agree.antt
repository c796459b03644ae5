-- ===== src/Adaptation/Rebuild/Agree.antt =====
-- Where every flagged cell can be split, the rebuilding on the device gives the cells of the
-- rebuilding on the host.
use mathlib.Core.List.{Permᴰ}
use fluidloom.Prelude.{
  ℕ, ◌+◌, ◌%◌, ◌^◌, ◌≤◌, ◌<◌, ◌≡◌, refl, sym, ap, arith, List, [], ◌∷◌, ◌++◌, map, append_assoc,
  Bool, length, get_or, ℤ, pos, negsuc,
}
use fluidloom.Adaptation.Cell.{CellDescriptor, to_i21}
use fluidloom.Adaptation.Buffers.{length-snoc}
use fluidloom.Adaptation.Split.{SplitResult, scratch, block_starts}
use fluidloom.Adaptation.Split.Children.{Splits, length-scratch}
use fluidloom.Adaptation.Rebuild.{
  MergeResult, Mesh, numbers_from, surviving, as_descriptor, compact_and_rebuild, new_cells,
  sorted_order, compact_and_rebuild_gpu,
}
use fluidloom.Adaptation.Rebuild.Compact.{
  kept, valid_of, length-valid_of, ones, compact_and_rebuild_gpu_lem,
}
use fluidloom.Adaptation.Rebuild.Survivors.{AllSplit, Stored, surviving-kept, survives_valid}
use fluidloom.Adaptation.Rebuild.Pushed.{pushed_children_lem, get_or-append_here}

-- A permutation of the numbers permutes the cells.
map-Perm : {B : Type 0} (f : ℕ → B) {is js : List ℕ} → Permᴰ is js → Permᴰ (map f is) (map f js)
map-Perm f Permᴰ.nil = Permᴰ.nil
map-Perm f (Permᴰ.cons e p) = Permᴰ.cons (ap f e) (map-Perm f p)
map-Perm f (Permᴰ.swap e g) = Permᴰ.swap (ap f e) (ap f g)
map-Perm f (Permᴰ.trans p q) = Permᴰ.trans (map-Perm f p) (map-Perm f q)

map-numbers_from :
    {B : Type 0} (front xs : List B) (d : B)
    → map (λ i. get_or (front ++ xs) i d) (numbers_from (length front) xs) ≡ xs
map-numbers_from front [] d = refl
map-numbers_from {B = B} front (x ∷ xs) d =
    let rest = map-numbers_from (front ++ x ∷ []) xs d in
    rw (get_or-append_here front (x ∷ xs) d) (
      ap (λ (t : List B). x ∷ t) (rw (length-snoc front x, append_assoc front (x ∷ []) xs) at rest))

-- A value of a signed field of 21 bits.
abbrev pub Signed21 : ℤ → Type 0
Signed21 (pos n) = n < 2 ^ 20
Signed21 (negsuc n) = n < 2 ^ 20

-- A cell whose values the fields of a descriptor hold: coordinates in 21 bits, level and state in 4, the
-- material in 24, and the other bits clear.
pub record Fits (c : CellDescriptor) : Type 0 where
  pub x_fits : Signed21 c.x
  pub y_fits : Signed21 c.y
  pub z_fits : Signed21 c.z
  pub level_fits : c.level < 2 ^ 4
  pub state_fits : c.state < 2 ^ 4
  pub material_fits : c.material_id < 2 ^ 24
  pub unvisited : c.visited ≡ 0
  pub unreserved : c.reserved ≡ 0

unfoldable pub AllFit : List CellDescriptor → Type 0
AllFit [] = Unit
AllFit (c ∷ cs) = Fits c × AllFit cs

to_i21-same : (x : ℤ) → Signed21 x → to_i21 x ≡ x
to_i21-same (pos n) h = ground (arith, h)
to_i21-same (negsuc n) h = ground (arith, h)

as_descriptor-same : (c : CellDescriptor) → Fits c → as_descriptor c ≡ c
as_descriptor-same c f =
    let ex = to_i21-same c.x f.x_fits in
    let ey = to_i21-same c.y f.y_fits in
    let ez = to_i21-same c.z f.z_fits in
    let el : c.level % 2 ^ 4 ≡ c.level = omega (arith, f.level_fits) in
    let es : c.state % 2 ^ 4 ≡ c.state = omega (arith, f.state_fits) in
    let em : c.material_id % 2 ^ 24 ≡ c.material_id = omega (arith, f.material_fits) in
    λ i. record {
      x = ex i;
      y = ey i;
      z = ez i;
      level = el i;
      state = es i;
      material_id = em i;
      visited = sym f.unvisited i;
      reserved = sym f.unreserved i;
    }

AllFit-Stored : (cs : List CellDescriptor) → AllFit cs → Stored as_descriptor cs
unfolding AllFit Stored
AllFit-Stored [] fits = tt
AllFit-Stored (c ∷ cs) (fit, fits) = (as_descriptor-same c fit, AllFit-Stored cs fits)

-- What the host gathers before it sorts.
new_cells_lem :
    {A : Type 0} (zero_field : A) (components : ℕ) (junk : CellDescriptor) (growth : ℕ → ℕ)
    (s : SplitResult) (m : MergeResult A) (mesh : Mesh A)
    → Splits junk mesh.cells mesh.flags s
    → Stored as_descriptor mesh.cells
    → AllSplit mesh.cells mesh.flags
    → length mesh.flags ≡ length mesh.cells
    → length mesh.cells ≤ 65536
    → new_cells zero_field components junk growth s m mesh.cells
      ≡ kept mesh.cells (valid_of m mesh) ++ s.children ++ m.parents
unfolding new_cells
new_cells_lem zero_field components junk growth s m mesh made fits all same few =
    let bs = scratch mesh.cells mesh.flags in
    let sized = length-scratch mesh.cells mesh.flags same in
    let survivors : surviving as_descriptor (block_starts 0 bs) m.merged_child_indices 0 mesh.cells
        ≡ kept mesh.cells (valid_of m mesh) =
      surviving-kept as_descriptor (block_starts 0 bs) m.merged_child_indices 0 mesh.cells
        (valid_of m mesh) (length-valid_of m mesh same) fits
        (λ j lt. survives_valid m mesh j all same few lt) in
    let pushed =
      pushed_children_lem junk mesh.cells bs [] [] sized (omega (arith, few))
        (omega (arith, few)) in
    rw (made.mapped, made.listed, made.children_made, survivors, pushed) refl

sorted-Perm :
    (junk : CellDescriptor) (order : List ℕ) (cells : List CellDescriptor)
    → Permᴰ order (numbers_from 0 cells)
    → Permᴰ (map (λ i. get_or cells i junk) order) cells
sorted-Perm junk order cells p =
    rw (map-numbers_from [] cells junk) at (map-Perm (λ i. get_or cells i junk) p)

-- For a mesh of 1 to 65536 cells with a flag for each, in which every flagged cell is fluid and below
-- the highest level and the values of every cell fit in the fields of a descriptor, for the result of
-- splitting it and any result of merging, where `std::sort` permutes and the new cells fit in the
-- capacity: the cells that the device rebuilds are a permutation of those that the host rebuilds.
pub rebuild_gpu-Perm :
    {A : Type 0} (zero_field : A) (components : ℕ) (junk : CellDescriptor) (junk_row : List A)
    (junk_flag : ℤ) (growth : ℕ → ℕ) (sort : (ℕ → ℕ → Bool) → List ℕ → List ℕ) (s : SplitResult)
    (m : MergeResult A) (mesh : Mesh A)
    → ((lt : ℕ → ℕ → Bool) (is : List ℕ) → Permᴰ (sort lt is) is)
    → Splits junk mesh.cells mesh.flags s
    → AllFit mesh.cells
    → AllSplit mesh.cells mesh.flags
    → length mesh.flags ≡ length mesh.cells
    → 0 < length mesh.cells
    → length mesh.cells ≤ 65536
    → ones (valid_of m mesh) + length s.children + length m.parents ≤ mesh.capacity
    → Permᴰ
        (compact_and_rebuild zero_field components junk growth sort s m mesh).cells
        (compact_and_rebuild_gpu junk junk_row junk_flag growth s m mesh).cells
unfolding compact_and_rebuild
rebuild_gpu-Perm zero_field components junk junk_row junk_flag growth sort s m mesh sorts made fits
      all same some_cells few room =
    let device =
      compact_and_rebuild_gpu_lem junk junk_row junk_flag growth s m mesh same some_cells few
        room in
    let gathered =
      new_cells_lem zero_field components junk growth s m mesh made (AllFit-Stored mesh.cells fits)
        all same few in
    let order =
      sorted_order zero_field components junk growth sort
        (new_cells zero_field components junk growth s m mesh.cells) in
    let host =
      sorted-Perm junk order (new_cells zero_field components junk growth s m mesh.cells)
        (sorts _ _) in
    rw (device, ← gathered) host
