-- ===== src/Adaptation/Split/Children.antt =====
-- The children that `split` returns, in the order of their parents.
use fluidloom.Prelude.{
  ℕ, suc, ◌+◌, ◌*◌, ◌%◌, ◌^◌, ◌≤◌, ◌<◌, ◌≡◌, refl, sym, ap, ◌∙◌, inl, inr, arith, List, [], ◌∷◌,
  ◌++◌, append_assoc, Bool, true, false, ◌&&◌, Bool-cases, length, length-append, replicate, ◌==◌,
  if◌then◌else◌, ℤ, ok,
}
use fluidloom.Adaptation.Cell.{CellDescriptor, invalid_index}
use fluidloom.Adaptation.Buffers.{write_from_lem}
use fluidloom.Adaptation.Split.{
  SplitResult, scratch, block_starts, split_indices, total_children, split_count, children_from,
  generate_children, no_split, split_of, split,
}

-- The children of the cells that are to be split.
unfoldable pub children_of : List CellDescriptor → List Bool → List CellDescriptor
children_of (c ∷ cs) (b ∷ bs) =
    let rest = children_of cs bs in if b then children_from c ++ rest else rest
children_of cs bs = []

-- How many cells are to be split.
unfoldable pub splits : List CellDescriptor → List Bool → ℕ
splits (c ∷ cs) (b ∷ bs) = (if b then 1 else 0) + splits cs bs
splits cs bs = 0

pub splits-le : (cs : List CellDescriptor) (bs : List Bool) → splits cs bs ≤ length cs
unfolding splits
splits-le (c ∷ cs) (b ∷ bs) = ground (arith, splits-le cs bs)
splits-le cs bs = omega arith

pub length-children_of :
    (cs : List CellDescriptor) (bs : List Bool) → length (children_of cs bs) ≡ 8 * splits cs bs
unfolding children_of splits
length-children_of (c ∷ cs) (b ∷ bs) = elim (Bool-cases b) [
  | inl wanted ↦ rw wanted (omega (arith, length-children_of cs bs))
  | inr kept ↦ rw kept (omega (arith, length-children_of cs bs))
]
length-children_of cs bs = omega arith

pub length-scratch :
    (cs : List CellDescriptor) (flags : List ℤ)
    → length flags ≡ length cs
    → length (scratch cs flags) ≡ length cs
unfolding scratch
length-scratch [] flags h = refl
length-scratch (c ∷ cs) [] h = absurd (omega (arith, h))
length-scratch (c ∷ cs) (flag ∷ flags) h = ap suc (length-scratch cs flags (omega (arith, h)))

total_children_lem :
    (total : ℕ) (cs : List CellDescriptor) (bs : List Bool)
    → length bs ≡ length cs
    → total + 8 * length cs < invalid_index
    → total_children total bs ≡ total + 8 * splits cs bs
unfolding total_children splits
total_children_lem total [] [] h few = omega arith
total_children_lem total [] (b ∷ bs) h few = absurd (omega (arith, h))
total_children_lem total (c ∷ cs) [] h few = absurd (omega (arith, h))
total_children_lem total (c ∷ cs) (b ∷ bs) h few = elim (Bool-cases b) [
  | inl wanted ↦
      let word : (total + 8) % 2 ^ 32 ≡ total + 8 = omega (arith, few) in
      rw (wanted, word)
        (total_children_lem (total + 8) cs bs (omega (arith, h)) (omega (arith, few)) ∙ omega arith)
  | inr kept ↦
      rw kept (total_children_lem total cs bs (omega (arith, h)) (omega (arith, few)) ∙ omega arith)
]

generate_children_lem :
    (cs : List CellDescriptor) (bs : List Bool) (front : List CellDescriptor)
    (junk : CellDescriptor)
    → length bs ≡ length cs
    → length front + 8 * length cs < invalid_index
    → generate_children cs
        (block_starts (length front) bs)
        (front ++ replicate (8 * splits cs bs) junk)
      ≡ front ++ children_of cs bs
unfolding generate_children block_starts children_of splits
generate_children_lem [] [] front junk h few = refl
generate_children_lem [] (b ∷ bs) front junk h few = absurd (omega (arith, h))
generate_children_lem (c ∷ cs) [] front junk h few = absurd (omega (arith, h))
generate_children_lem (c ∷ cs) (b ∷ bs) front junk h few = elim (Bool-cases b) [
  | inl wanted ↦
      let kids = children_from c in
      let longer : length (front ++ kids) ≡ length front + 8 = length-append front kids in
      let word : (length front + 8) % 2 ^ 32 ≡ length front + 8 = omega (arith, few) in
      let valid : (length front == invalid_index) ≡ false = ground (arith, few) in
      let more : 8 * (1 + splits cs bs) ≡ 8 + 8 * splits cs bs = omega arith in
      let written = write_from_lem kids front junk (8 * splits cs bs) in
      let rest =
        generate_children_lem cs bs (front ++ kids) junk (omega (arith, h))
          (omega (arith, few, longer)) in
      rw (wanted, valid, word, more, written)
        (rw longer at rest ∙ append_assoc front kids (children_of cs bs))
  | inr kept ↦
      let same : 8 * (0 + splits cs bs) ≡ 8 * splits cs bs = omega arith in
      rw (kept, same)
        (generate_children_lem cs bs front junk (omega (arith, h)) (omega (arith, few)))
]

split_count_lem :
    (cs : List CellDescriptor) (bs : List Bool)
    → length bs ≡ length cs
    → length cs < 2 ^ 32
    → split_count bs ≡ splits cs bs
unfolding split_count splits
split_count_lem [] [] h few = refl
split_count_lem [] (b ∷ bs) h few = absurd (omega (arith, h))
split_count_lem (c ∷ cs) [] h few = absurd (omega (arith, h))
split_count_lem (c ∷ cs) (b ∷ bs) h few =
    let rest = split_count_lem cs bs (omega (arith, h)) (omega (arith, few)) in
    elim (Bool-cases b) [
      | inl wanted ↦ rw (wanted, rest) (omega (arith, few, splits-le cs bs))
      | inr kept ↦ rw (kept, rest) (omega (arith, few, splits-le cs bs))
    ]

-- What `split` returns for cells and flags of the same number.
pub record Splits (junk : CellDescriptor) (cells : List CellDescriptor) (flags : List ℤ)
    (r : SplitResult) : Type 0 where
  pub children_made : r.children ≡ children_of cells (scratch cells flags)
  pub parents_counted : r.num_parents_split ≡ splits cells (scratch cells flags)
  pub children_counted : r.num_children ≡ 8 * r.num_parents_split
  pub mapped : r.parent_to_child_map ≡ block_starts 0 (scratch cells flags)
  pub listed : r.split_parent_indices ≡ split_indices 0 (scratch cells flags)

no_cells-Splits : (junk : CellDescriptor) (flags : List ℤ) → Splits junk [] flags no_split
unfolding scratch children_of splits block_starts split_indices
no_cells-Splits junk flags = record {
  children_made = refl;
  parents_counted = refl;
  children_counted = refl;
  mapped = refl;
  listed = refl;
}

total_lem :
    (cells : List CellDescriptor) (flags : List ℤ)
    → length flags ≡ length cells
    → length cells < 2 ^ 28
    → total_children 0 (scratch cells flags) ≡ 8 * splits cells (scratch cells flags)
total_lem cells flags same few =
    total_children_lem 0 cells (scratch cells flags) (length-scratch cells flags same)
      (omega (arith, few))
    ∙ omega arith

count_lem :
    (cells : List CellDescriptor) (flags : List ℤ)
    → length flags ≡ length cells
    → length cells < 2 ^ 28
    → split_count (scratch cells flags) ≡ splits cells (scratch cells flags)
count_lem cells flags same few =
    split_count_lem cells (scratch cells flags) (length-scratch cells flags same)
      (omega (arith, few))

and_false : (b : Bool) → (b && false) ≡ false
and_false true = refl
and_false false = refl

empty_children : (cs : List CellDescriptor) → length cs ≡ 0 → cs ≡ []
empty_children [] h = refl
empty_children (c ∷ cs) h = absurd (omega (arith, h))

-- The result of `split`, by what its kernels compute.
pub split-Splits :
    (junk : CellDescriptor) (calls : ℕ → Bool) (cells : List CellDescriptor) (flags : List ℤ)
    (has_fields : Bool)
    → ((k : ℕ) → calls k ≡ true)
    → length flags ≡ length cells
    → length cells < 2 ^ 28
    → (r : SplitResult) × (split junk calls cells flags has_fields ≡ ok r)
      × Splits junk cells flags r
unfolding split
split-Splits junk calls [] flags has_fields good same few =
    (no_split, refl, no_cells-Splits junk flags)
split-Splits junk calls (c ∷ cs) flags has_fields good same few =
    let cells = c ∷ cs in
    let wanted = scratch cells flags in
    let result = split_of junk calls cells wanted in
    let total = total_lem cells flags same few in
    let filled : (suc (length cs) == 0) ≡ false = ground arith in
    elim (Bool-cases (total_children 0 wanted == 0)) [
      | inl none_wanted ↦
          let nothing : splits cells wanted ≡ 0 = ground (arith, none_wanted, total) in
          (
            record result { children = [] },
            rw (filled, good 0, good 1, good 2, good 3, none_wanted) refl,
            record {
              children_made = sym (
                  empty_children (children_of cells wanted)
                    (omega (arith, length-children_of cells wanted, nothing)));
              parents_counted = count_lem cells flags same few;
              children_counted =
                  total ∙ ap (λ (t : ℕ). 8 * t) (sym (count_lem cells flags same few));
              mapped = refl;
              listed = refl;
            },
          )
      | inr some_wanted ↦ (
        result,
        rw
            (
              filled,
              good 0,
              good 1,
              good 2,
              good 3,
              some_wanted,
              good 4,
              good 5,
              good 6,
              and_false has_fields,
            )
            refl,
        record {
          children_made = rw total (
              generate_children_lem cells wanted [] junk (length-scratch cells flags same)
                (omega (arith, few)));
          parents_counted = count_lem cells flags same few;
          children_counted = total ∙ ap (λ (t : ℕ). 8 * t) (sym (count_lem cells flags same few));
          mapped = refl;
          listed = refl;
        },
      )
    ]
