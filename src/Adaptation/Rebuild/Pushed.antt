-- ===== src/Adaptation/Rebuild/Pushed.antt =====
-- The host pushes the children that `split` returned, block by block.
use fluidloom.Prelude.{
  ℕ, suc, ◌+◌, ◌*◌, ◌%◌, ◌^◌, ◌<◌, ◌≡◌, refl, ap, ◌∙◌, arith, List, [], ◌∷◌, ◌++◌, append_assoc,
  Bool, true, false, length, get_or, length-append,
}
use fluidloom.Adaptation.Cell.{CellDescriptor, invalid_index}
use fluidloom.Adaptation.Buffers.{length-snoc}
use fluidloom.Adaptation.Split.{block_starts, split_indices, children_from}
use fluidloom.Adaptation.Split.Children.{children_of}
use fluidloom.Adaptation.Rebuild.{child_block, pushed_children}

get_or-append_at :
    {B : Type 0} (front back : List B) (k : ℕ) (d : B)
    → get_or (front ++ back) (length front + k) d ≡ get_or back k d
get_or-append_at [] back k d = let e : 0 + k ≡ k = omega arith in rw e refl
get_or-append_at (x ∷ front) back k d =
    let e : suc (length front) + k ≡ suc (length front + k) = omega arith in
    rw e (get_or-append_at front back k d)

pub get_or-append_here :
    {B : Type 0} (front back : List B) (d : B)
    → get_or (front ++ back) (length front) d ≡ get_or back 0 d
get_or-append_here [] back d = refl
get_or-append_here (x ∷ front) back d = get_or-append_here front back d

child_block_lem :
    (junk c : CellDescriptor) (front rest : List CellDescriptor)
    → child_block junk (front ++ (children_from c ++ rest)) (length front) ≡ children_from c
child_block_lem junk c front rest =
    let back = children_from c ++ rest in
    rw
      (
        get_or-append_here front back junk,
        get_or-append_at front back 1 junk,
        get_or-append_at front back 2 junk,
        get_or-append_at front back 3 junk,
        get_or-append_at front back 4 junk,
        get_or-append_at front back 5 junk,
        get_or-append_at front back 6 junk,
        get_or-append_at front back 7 junk,
      )
      refl

pushed_children_nil :
    (junk : CellDescriptor) (children : List CellDescriptor) (starts : List ℕ)
    → pushed_children junk children starts [] ≡ []
unfolding pushed_children
pushed_children_nil junk children starts = refl

pushed_children_cons :
    (junk : CellDescriptor) (children : List CellDescriptor) (starts : List ℕ) (p : ℕ) (ps : List ℕ)
    (start : ℕ)
    → get_or starts p invalid_index ≡ start
    → pushed_children junk children starts (p ∷ ps)
      ≡ child_block junk children start ++ pushed_children junk children starts ps
unfolding pushed_children
pushed_children_cons junk children starts p ps start e =
    ap (λ (t : ℕ). child_block junk children t ++ pushed_children junk children starts ps) e

pub pushed_children_lem :
    (junk : CellDescriptor) (cs : List CellDescriptor) (bs : List Bool) (starts : List ℕ)
    (children : List CellDescriptor)
    → length bs ≡ length cs
    → length children + 8 * length cs < invalid_index
    → length starts + length cs < 2 ^ 32
    → pushed_children junk
        (children ++ children_of cs bs)
        (starts ++ block_starts (length children) bs)
        (split_indices (length starts) bs)
      ≡ children_of cs bs
unfolding children_of block_starts split_indices
pushed_children_lem junk [] [] starts children h few room =
    pushed_children_nil junk (children ++ []) (starts ++ [])
pushed_children_lem junk [] (b ∷ bs) starts children h few room = absurd (omega (arith, h))
pushed_children_lem junk (c ∷ cs) [] starts children h few room = absurd (omega (arith, h))
pushed_children_lem junk (c ∷ cs) (true ∷ bs) starts children h few room =
    let kids = children_from c in
    let at = length children in
    let back = kids ++ children_of cs bs in
    let later = block_starts (at + 8) bs in
    let longer : length (children ++ kids) ≡ at + 8 = length-append children kids in
    let word : (at + 8) % 2 ^ 32 ≡ at + 8 = omega (arith, few) in
    let index : length starts % 2 ^ 32 ≡ length starts = omega (arith, room) in
    let one_more = length-snoc starts at in
    let rest =
      pushed_children_lem junk cs bs (starts ++ at ∷ []) (children ++ kids) (omega (arith, h))
        (omega (arith, few, longer)) (omega (arith, room, one_more)) in
    let others =
      pushed_children junk (children ++ back) (starts ++ at ∷ later)
        (split_indices (suc (length starts)) bs) in
    rw (word, index)
      (pushed_children_cons junk (children ++ back) (starts ++ at ∷ later) (length starts)
          (split_indices (suc (length starts)) bs) at
          (get_or-append_here starts (at ∷ later) invalid_index)
        ∙ ap (λ (t : List CellDescriptor). t ++ others)
            (child_block_lem junk c children (children_of cs bs))
        ∙ ap (λ (t : List CellDescriptor). kids ++ t)
            (rw
              (
                longer,
                one_more,
                append_assoc children kids (children_of cs bs),
                append_assoc starts (at ∷ []) later,
              )
              at rest))
pushed_children_lem junk (c ∷ cs) (false ∷ bs) starts children h few room =
    let one_more = length-snoc starts invalid_index in
    let rest =
      pushed_children_lem junk cs bs (starts ++ invalid_index ∷ []) children (omega (arith, h))
        (omega (arith, few)) (omega (arith, room, one_more)) in
    rw (one_more, append_assoc starts (invalid_index ∷ []) (block_starts (length children) bs)) at
      rest
