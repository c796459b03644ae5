-- ===== src/Adaptation/Rebuild/Compact.antt =====
-- What the rebuilding on the device leaves in the buffers.
use fluidloom.Prelude.{
  ℕ, suc, ◌+◌, ◌-◌, ◌%◌, ◌^◌, ◌≤◌, ◌<◌, ◌≡◌, refl, sym, ap, ◌∙◌, inl, inr, arith, List, [], ◌∷◌,
  ◌++◌, append_assoc, append-nil, false, Bool-cases, length, get_or, set, length-append, length-set,
  length-replicate, replicate, ltb, ◌==◌, if◌then◌else◌, ℤ,
}
use fluidloom.Adaptation.Cell.{CellDescriptor, invalid_index}
use fluidloom.Adaptation.Buffers.{write_from_lem, set-append, length-snoc}
use fluidloom.Adaptation.Scan.{total_sum}
use fluidloom.Adaptation.Scan.Sums.{prefix_sums, exclusive_scan-prefix_sums}
use fluidloom.Adaptation.Split.{SplitResult}
use fluidloom.Adaptation.Rebuild.{
  MergeResult, Mesh, merge_ids, valid_flags, compact, append_at, make_room, compact_and_rebuild_gpu,
}

-- The items that are kept: those that are neither flagged nor have a group.
unfoldable pub kept : {B : Type 0} → List B → List ℕ → List B
kept (x ∷ xs) (v ∷ vs) = let rest = kept xs vs in if v == 0 then rest else x ∷ rest
kept xs vs = []

-- A list of the words 0 and 1.
unfoldable pub Binary : List ℕ → Type 0
Binary [] = Unit
Binary (v ∷ vs) = (v < 2) × Binary vs

unfoldable pub ones : List ℕ → ℕ
ones [] = 0
ones (v ∷ vs) = v + ones vs

valid_flags-Binary : (flags : List ℤ) (gs : List ℕ) → Binary (valid_flags flags gs)
unfolding valid_flags Binary
valid_flags-Binary (flag ∷ flags) (g ∷ gs) = (ground arith, valid_flags-Binary flags gs)
valid_flags-Binary [] gs = tt
valid_flags-Binary (flag ∷ flags) [] = tt

length-kept :
    {B : Type 0} (xs : List B) (vs : List ℕ)
    → length vs ≡ length xs
    → Binary vs
    → length (kept xs vs) ≡ ones vs
unfolding kept Binary ones
length-kept [] [] h b = refl
length-kept [] (v ∷ vs) h b = absurd (omega (arith, h))
length-kept (x ∷ xs) [] h b = absurd (omega (arith, h))
length-kept (x ∷ xs) (v ∷ vs) h (b, bs) = elim (Bool-cases (v == 0)) [
  | inl dropped ↦ rw dropped (ground (arith, dropped, length-kept xs vs (omega (arith, h)) bs))
  | inr held ↦ rw held (ground (arith, held, b, length-kept xs vs (omega (arith, h)) bs))
]

ones-le : (vs : List ℕ) → Binary vs → ones vs ≤ length vs
unfolding Binary ones
ones-le [] b = omega arith
ones-le (v ∷ vs) (b, bs) = omega (arith, ones-le vs bs)

compact_lem :
    {B : Type 0} (xs : List B) (vs : List ℕ) (front : List B) (blank : B) (room : ℕ)
    → length vs ≡ length xs
    → Binary vs
    → length front + length xs < 2 ^ 32
    → compact xs vs (prefix_sums (length front) vs) (front ++ replicate (ones vs + room) blank)
      ≡ (front ++ kept xs vs) ++ replicate room blank
unfolding compact kept Binary ones prefix_sums
compact_lem [] [] front blank room h b few =
    let count : 0 + room ≡ room = omega arith in rw (count, append-nil front) refl
compact_lem [] (v ∷ vs) front blank room h b few = absurd (omega (arith, h))
compact_lem (x ∷ xs) [] front blank room h b few = absurd (omega (arith, h))
compact_lem (x ∷ xs) (v ∷ vs) front blank room h (b, bs) few = elim (Bool-cases (v == 0)) [
  | inl dropped ↦
      let none : v ≡ 0 = ground (arith, dropped) in
      let sum : (length front + 0) % 2 ^ 32 ≡ length front = omega (arith, few) in
      let count : 0 + ones vs + room ≡ ones vs + room = omega arith in
      rw (dropped, none)
        (rw (sum, count)
          (compact_lem xs vs front blank room (omega (arith, h)) bs (omega (arith, few))))
  | inr held ↦
      let one : v ≡ 1 = ground (arith, held, b) in
      let sum : (length front + 1) % 2 ^ 32 ≡ suc (length front) = omega (arith, few) in
      let count : 1 + ones vs + room ≡ suc (ones vs + room) = omega arith in
      let longer = length-snoc front x in
      let rest =
        compact_lem xs vs (front ++ x ∷ []) blank room (omega (arith, h)) bs
          (omega (arith, few, longer)) in
      let joined : (front ++ x ∷ []) ++ kept xs vs ≡ front ++ x ∷ kept xs vs =
        append_assoc front (x ∷ []) (kept xs vs) in
      rw (held, one)
        (rw (sum, count, set-append front blank x (replicate (ones vs + room) blank))
          (rw (longer, joined, append_assoc front (x ∷ []) (replicate (ones vs + room) blank)) at
            rest))
]

last_sum :
    (acc : ℕ) (vs : List ℕ)
    → acc + ones vs < 2 ^ 32
    → 0 < length vs
    → get_or (prefix_sums acc vs) (length vs - 1) 0 + get_or vs (length vs - 1) 0 ≡ acc + ones vs
unfolding ones prefix_sums
last_sum acc [] few h = absurd (omega arith)
last_sum acc (v ∷ []) few h = omega arith
last_sum acc (v ∷ w ∷ vs) few h =
    let word : (acc + v) % 2 ^ 32 ≡ acc + v = omega (arith, few) in
    let at : suc (suc (length vs)) - 1 ≡ suc (length vs) = omega arith in
    let at' : suc (length vs) - 1 ≡ length vs = omega arith in
    let rest = last_sum (acc + v) (w ∷ vs) (omega (arith, few)) (omega arith) in
    rw (at, word) (rw at' at rest ∙ omega arith)

total_sum_lem :
    (vs : List ℕ) → Binary vs → 0 < length vs → length vs ≤ 65536 → total_sum vs ≡ ones vs
unfolding total_sum
total_sum_lem vs b some few =
    let bound = ones-le vs b in
    let sum = last_sum 0 vs (omega (arith, bound)) some in
    rw (exclusive_scan-prefix_sums vs few, sum) (omega (arith, bound))

pub length-merge_ids : (ms ids : List ℕ) → length (merge_ids ms ids) ≡ length ids
unfolding merge_ids
length-merge_ids [] ids = refl
length-merge_ids (m ∷ ms) ids = length-merge_ids ms (set ids m 1) ∙ length-set ids m 1

length-valid_flags :
    (flags : List ℤ) (gs : List ℕ)
    → length gs ≡ length flags
    → length (valid_flags flags gs) ≡ length flags
unfolding valid_flags
length-valid_flags [] gs h = refl
length-valid_flags (flag ∷ flags) [] h = absurd (omega (arith, h))
length-valid_flags (flag ∷ flags) (g ∷ gs) h =
    ap suc (length-valid_flags flags gs (omega (arith, h)))

-- The valid flags of a mesh.
abbrev pub valid_of : {A : Type 0} → MergeResult A → Mesh A → List ℕ
valid_of m mesh =
    valid_flags mesh.flags
      (merge_ids m.merged_child_indices (replicate (length mesh.cells) invalid_index))

pub length-valid_of :
    {A : Type 0} (m : MergeResult A) (mesh : Mesh A)
    → length mesh.flags ≡ length mesh.cells
    → length (valid_of m mesh) ≡ length mesh.cells
length-valid_of m mesh same =
    let ids = replicate (length mesh.cells) invalid_index in
    length-valid_flags mesh.flags (merge_ids m.merged_child_indices ids) (
      length-merge_ids m.merged_child_indices ids
      ∙ length-replicate (length mesh.cells) invalid_index
      ∙ sym same)
    ∙ same

-- The three parts of the new buffer.
three_parts :
    {B : Type 0} (xs : List B) (vs : List ℕ) (children parents : List B) (blank : B)
    → length vs ≡ length xs
    → Binary vs
    → length xs < 2 ^ 32
    → append_at (ones vs + length children) parents (
        append_at (ones vs) children (
          compact xs vs
            (prefix_sums 0 vs)
            (replicate (ones vs + length children + length parents) blank)))
      ≡ kept xs vs ++ children ++ parents
three_parts xs vs children parents blank same binary few =
    let held = kept xs vs in
    let c = length children in
    let p = length parents in
    let size : length held ≡ ones vs = length-kept xs vs same binary in
    let both : length (held ++ children) ≡ ones vs + c =
      length-append held children ∙ ap (λ (t : ℕ). t + c) size in
    let count : ones vs + c + p ≡ ones vs + (c + p) = omega arith in
    let compacted = compact_lem xs vs [] blank (c + p) same binary (omega (arith, few)) in
    let appended = rw size at (write_from_lem children held blank p) in
    let all = rw both at (write_from_lem parents (held ++ children) blank 0) in
    let exact : p + 0 ≡ p = omega arith in
    rw (count, compacted, appended) (rw (exact, append-nil ((held ++ children) ++ parents)) at all)

-- For a mesh of 1 to 65536 cells with a flag for each, which keeps within its capacity, the device
-- keeps the valid cells in their order, then come the children and the new parents.
pub compact_and_rebuild_gpu_lem :
    {A : Type 0} (junk : CellDescriptor) (junk_row : List A) (junk_flag : ℤ) (growth : ℕ → ℕ)
    (s : SplitResult) (m : MergeResult A) (mesh : Mesh A)
    → length mesh.flags ≡ length mesh.cells
    → 0 < length mesh.cells
    → length mesh.cells ≤ 65536
    → ones (valid_of m mesh) + length s.children + length m.parents ≤ mesh.capacity
    → (compact_and_rebuild_gpu junk junk_row junk_flag growth s m mesh).cells
      ≡ kept mesh.cells (valid_of m mesh) ++ s.children ++ m.parents
unfolding compact_and_rebuild_gpu make_room
compact_and_rebuild_gpu_lem junk junk_row junk_flag growth s m mesh same some few room =
    let valid = valid_of m mesh in
    let binary : Binary valid =
      valid_flags-Binary mesh.flags
        (merge_ids m.merged_child_indices (replicate (length mesh.cells) invalid_index)) in
    let size = length-valid_of m mesh same in
    let sum : total_sum valid ≡ ones valid =
      total_sum_lem valid binary (omega (arith, size)) (omega (arith, size)) in
    let fits : ltb mesh.capacity (ones valid + length s.children + length m.parents) ≡ false =
      ground (arith, room) in
    rw (sum, fits, exclusive_scan-prefix_sums valid (omega (arith, size)))
      (three_parts mesh.cells valid s.children m.parents junk size binary (omega arith))

pub ones-valid_of :
    {A : Type 0} (m : MergeResult A) (mesh : Mesh A)
    → length mesh.flags ≡ length mesh.cells
    → (ones (valid_of m mesh) ≤ length mesh.cells)
      × (length (kept mesh.cells (valid_of m mesh)) ≡ ones (valid_of m mesh))
ones-valid_of m mesh same =
    let ids = merge_ids m.merged_child_indices (replicate (length mesh.cells) invalid_index) in
    let binary = valid_flags-Binary mesh.flags ids in
    let sized = length-valid_of m mesh same in
    (
      omega (arith, ones-le (valid_of m mesh) binary, sized),
      length-kept mesh.cells (valid_of m mesh) sized binary,
    )

-- The capacity stays when there is room.
pub compact_and_rebuild_gpu_capacity :
    {A : Type 0} (junk : CellDescriptor) (junk_row : List A) (junk_flag : ℤ) (growth : ℕ → ℕ)
    (s : SplitResult) (m : MergeResult A) (mesh : Mesh A)
    → length mesh.flags ≡ length mesh.cells
    → 0 < length mesh.cells
    → length mesh.cells ≤ 65536
    → ones (valid_of m mesh) + length s.children + length m.parents ≤ mesh.capacity
    → (compact_and_rebuild_gpu junk junk_row junk_flag growth s m mesh).capacity ≡ mesh.capacity
unfolding compact_and_rebuild_gpu make_room
compact_and_rebuild_gpu_capacity junk junk_row junk_flag growth s m mesh same one_cell few room =
    let valid = valid_of m mesh in
    let binary : Binary valid =
      valid_flags-Binary mesh.flags
        (merge_ids m.merged_child_indices (replicate (length mesh.cells) invalid_index)) in
    let size = length-valid_of m mesh same in
    let sum : total_sum valid ≡ ones valid =
      total_sum_lem valid binary (omega (arith, size)) (omega (arith, size)) in
    let fits : ltb mesh.capacity (ones valid + length s.children + length m.parents) ≡ false =
      ground (arith, room) in
    rw (sum, fits) refl
