-- ===== src/Adaptation/Scan/Sweeps.antt =====
-- The two sweeps compute prefix sums.
use fluidloom.Prelude.{
  ℕ, suc, ◌+◌, ◌-◌, ◌*◌, ◌%◌, ◌^◌, ◌≤◌, ◌<◌, ◌≡◌, refl, inl, inr, arith, List, [], ◌∷◌, true, false,
  Bool-cases, ◌==◌, if◌then◌else◌,
}
use fluidloom.Adaptation.Scan.{
  is_index, up_step, up_sweep, clear_last, down_step, down_sweep, swept_up, swept,
}

-- How many items the word at a place adds up after the steps of the strides, the last step first.
unfoldable pub width : List ℕ → ℕ → ℕ
width [] j = 1
width (s ∷ ss) j = if is_index s j then s * 2 else width ss j

abbrev strides : List ℕ
strides = 128 ∷ 64 ∷ 32 ∷ 16 ∷ 8 ∷ 4 ∷ 2 ∷ 1 ∷ []

-- At an odd multiple of a stride, the word adds up as many items as the stride.
width_1 : (i : ℕ) → ((i + 1) % 2 == 1) ≡ true → width strides i ≡ 1
unfolding width
width_1 i h =
    let no_128 : is_index 128 i ≡ false = ground (arith, h) in
    let no_64 : is_index 64 i ≡ false = ground (arith, h) in
    let no_32 : is_index 32 i ≡ false = ground (arith, h) in
    let no_16 : is_index 16 i ≡ false = ground (arith, h) in
    let no_8 : is_index 8 i ≡ false = ground (arith, h) in
    let no_4 : is_index 4 i ≡ false = ground (arith, h) in
    let no_2 : is_index 2 i ≡ false = ground (arith, h) in
    let no_1 : is_index 1 i ≡ false = ground (arith, h) in
    rw (no_128, no_64, no_32, no_16, no_8, no_4, no_2, no_1) refl

width_2 : (i : ℕ) → ((i + 1) % 4 == 2) ≡ true → width strides i ≡ 2
unfolding width
width_2 i h =
    let no_128 : is_index 128 i ≡ false = ground (arith, h) in
    let no_64 : is_index 64 i ≡ false = ground (arith, h) in
    let no_32 : is_index 32 i ≡ false = ground (arith, h) in
    let no_16 : is_index 16 i ≡ false = ground (arith, h) in
    let no_8 : is_index 8 i ≡ false = ground (arith, h) in
    let no_4 : is_index 4 i ≡ false = ground (arith, h) in
    let no_2 : is_index 2 i ≡ false = ground (arith, h) in
    let half : is_index 1 i ≡ true = ground (arith, h) in
    rw (no_128, no_64, no_32, no_16, no_8, no_4, no_2, half) refl

width_4 : (i : ℕ) → ((i + 1) % 8 == 4) ≡ true → width strides i ≡ 4
unfolding width
width_4 i h =
    let no_128 : is_index 128 i ≡ false = ground (arith, h) in
    let no_64 : is_index 64 i ≡ false = ground (arith, h) in
    let no_32 : is_index 32 i ≡ false = ground (arith, h) in
    let no_16 : is_index 16 i ≡ false = ground (arith, h) in
    let no_8 : is_index 8 i ≡ false = ground (arith, h) in
    let no_4 : is_index 4 i ≡ false = ground (arith, h) in
    let half : is_index 2 i ≡ true = ground (arith, h) in
    rw (no_128, no_64, no_32, no_16, no_8, no_4, half) refl

width_8 : (i : ℕ) → ((i + 1) % 16 == 8) ≡ true → width strides i ≡ 8
unfolding width
width_8 i h =
    let no_128 : is_index 128 i ≡ false = ground (arith, h) in
    let no_64 : is_index 64 i ≡ false = ground (arith, h) in
    let no_32 : is_index 32 i ≡ false = ground (arith, h) in
    let no_16 : is_index 16 i ≡ false = ground (arith, h) in
    let no_8 : is_index 8 i ≡ false = ground (arith, h) in
    let half : is_index 4 i ≡ true = ground (arith, h) in
    rw (no_128, no_64, no_32, no_16, no_8, half) refl

width_16 : (i : ℕ) → ((i + 1) % 32 == 16) ≡ true → width strides i ≡ 16
unfolding width
width_16 i h =
    let no_128 : is_index 128 i ≡ false = ground (arith, h) in
    let no_64 : is_index 64 i ≡ false = ground (arith, h) in
    let no_32 : is_index 32 i ≡ false = ground (arith, h) in
    let no_16 : is_index 16 i ≡ false = ground (arith, h) in
    let half : is_index 8 i ≡ true = ground (arith, h) in
    rw (no_128, no_64, no_32, no_16, half) refl

width_32 : (i : ℕ) → ((i + 1) % 64 == 32) ≡ true → width strides i ≡ 32
unfolding width
width_32 i h =
    let no_128 : is_index 128 i ≡ false = ground (arith, h) in
    let no_64 : is_index 64 i ≡ false = ground (arith, h) in
    let no_32 : is_index 32 i ≡ false = ground (arith, h) in
    let half : is_index 16 i ≡ true = ground (arith, h) in rw (no_128, no_64, no_32, half) refl

width_64 : (i : ℕ) → ((i + 1) % 128 == 64) ≡ true → width strides i ≡ 64
unfolding width
width_64 i h =
    let no_128 : is_index 128 i ≡ false = ground (arith, h) in
    let no_64 : is_index 64 i ≡ false = ground (arith, h) in
    let half : is_index 32 i ≡ true = ground (arith, h) in rw (no_128, no_64, half) refl

width_128 : (i : ℕ) → ((i + 1) % 256 == 128) ≡ true → width strides i ≡ 128
unfolding width
width_128 i h =
    let no_128 : is_index 128 i ≡ false = ground (arith, h) in
    let half : is_index 64 i ≡ true = ground (arith, h) in rw (no_128, half) refl

joined :
    (a b c d e : ℕ)
    → (a + b) % 2 ^ 32 ≡ c % 2 ^ 32
    → (d + e) % 2 ^ 32 ≡ b % 2 ^ 32
    → ((a + d) % 2 ^ 32 + e) % 2 ^ 32 ≡ c % 2 ^ 32
joined a b c d e p q = omega (arith, p, q)

module _ (sum : ℕ → ℕ) (temp : ℕ → ℕ) (next : (i : ℕ) → sum (suc i) ≡ sum i + temp i) where
  -- The word at a place is the sum of as many items up to the place.
  abbrev Covers : (ℕ → ℕ) → ℕ → ℕ → Type 0
  Covers t j w = (t j + sum (j + 1 - w)) % 2 ^ 32 ≡ sum (j + 1) % 2 ^ 32

  abbrev Covered : List ℕ → (ℕ → ℕ) → Type 0
  Covered ss t = (j : ℕ) → Covers t j (width ss j)

  loaded-Covered : Covered [] temp
  unfolding width
  loaded-Covered j =
      let back : j + 1 - 1 ≡ j = omega arith in
      let up : j + 1 ≡ suc j = omega arith in rw (back, up, next j) (omega arith)

  up_step-Covered :
      (s : ℕ) (ss : List ℕ) (t : ℕ → ℕ)
      → ((j : ℕ)
          → is_index s j ≡ true
          → (width ss j ≡ s)
            × (width ss (j - s) ≡ s)
            × (j - s + 1 ≡ j + 1 - s)
            × (j + 1 - s - s ≡ j + 1 - s * 2))
      → Covered ss t
      → Covered (s ∷ ss) (up_step s t)
  unfolding up_step width
  up_step-Covered s ss t fact covered j = elim (Bool-cases (is_index s j)) [
    | inr other ↦ rw other (covered j)
    | inl index ↦
        let (own, left, before, start) = fact j index in
        let here = rw own at (covered j) in
        let there = rw (left, before, start) at (covered (j - s)) in
        rw index (
          joined (t j) (sum (j + 1 - s)) (sum (j + 1)) (t (j - s)) (sum (j + 1 - s * 2)) here there)
  ]

  up_sweep-Covered : Covered strides (swept_up temp)
  unfolding up_sweep width
  up_sweep-Covered =
      let t0 = temp in
      let u0 = loaded-Covered in
      let u1 = up_step-Covered 1 ([]) t0 (λ j h. ground (arith, h)) u0 in
      let t1 = up_step 1 t0 in
      let u2 = up_step-Covered 2 (1 ∷ []) t1 (λ j h. ground (arith, h)) u1 in
      let t2 = up_step 2 t1 in
      let u3 = up_step-Covered 4 (2 ∷ 1 ∷ []) t2 (λ j h. ground (arith, h)) u2 in
      let t3 = up_step 4 t2 in
      let u4 = up_step-Covered 8 (4 ∷ 2 ∷ 1 ∷ []) t3 (λ j h. ground (arith, h)) u3 in
      let t4 = up_step 8 t3 in
      let u5 = up_step-Covered 16 (8 ∷ 4 ∷ 2 ∷ 1 ∷ []) t4 (λ j h. ground (arith, h)) u4 in
      let t5 = up_step 16 t4 in
      let u6 = up_step-Covered 32 (16 ∷ 8 ∷ 4 ∷ 2 ∷ 1 ∷ []) t5 (λ j h. ground (arith, h)) u5 in
      let t6 = up_step 32 t5 in
      let u7 = up_step-Covered 64 (32 ∷ 16 ∷ 8 ∷ 4 ∷ 2 ∷ 1 ∷ []) t6 (λ j h. ground (arith, h)) u6 in
      let t7 = up_step 64 t6 in
      let u8 =
        up_step-Covered 128 (64 ∷ 32 ∷ 16 ∷ 8 ∷ 4 ∷ 2 ∷ 1 ∷ []) t7 (λ j h. ground (arith, h)) u7 in
      let t8 = up_step 128 t7 in u8

  -- During the down-sweep: where a step of the stride will read, the sum of the items before the block
  -- of `r` places; elsewhere what the up-sweep left.
  abbrev Placed : ℕ → (ℕ → ℕ) → Type 0
  Placed r t =
      (j : ℕ)
      → j < 256
      → (((j + 1) % r == 0) ≡ true
          → ((t j + sum 0) % 2 ^ 32 ≡ sum (j + 1 - r) % 2 ^ 32) × (t j < 2 ^ 32))
        × (((j + 1) % r == 0) ≡ false → t j ≡ swept_up temp j)

  cleared-Placed : Placed 256 (clear_last (swept_up temp))
  cleared-Placed j lt = elim (Bool-cases (j == 255)) [
    | inl last ↦
        let e : j + 1 - 256 ≡ 0 = ground (arith, last) in
        ((λ h. rw (last, e) (omega arith, omega arith)), (λ h. absurd (ground (arith, last, h))))
    | inr inner ↦ ((λ h. absurd (ground (arith, inner, h, lt))), (λ h. rw inner refl))
  ]

  down_step-Placed :
      (s : ℕ) (t : ℕ → ℕ)
      → ((j : ℕ)
          → is_index s j ≡ true
          → (width strides (j - s) ≡ s)
            × (is_index s (j - s) ≡ false)
            × (j - s + 1 ≡ j + 1 - s)
            × (j + 1 - s - s ≡ j + 1 - s * 2)
            × (((j + 1) % s == 0) ≡ true)
            × (j - s ≤ j))
      → ((j : ℕ)
          → j < 256
          → is_index s (j + s) ≡ true
          → (j + s < 256) × (j + s + 1 - s * 2 ≡ j + 1 - s) × (((j + 1) % s == 0) ≡ true))
      → ((j : ℕ) → is_index s j ≡ false → is_index s (j + s) ≡ false → ((j + 1) % s == 0) ≡ false)
      → Placed (s * 2) t
      → Placed s (down_step s t)
  unfolding down_step
  down_step-Placed s t right left outside placed j lt = elim (Bool-cases (is_index s j)) [
    | inl index ↦
        let (wide, odd, before, start, hit, less) = right j index in
        let (sum_here, small) = (placed j lt).0 index in
        let same = (placed (j - s) (omega (arith, less, lt))).1 odd in
        let half = rw (wide, before, start) at (up_sweep-Covered (j - s)) in
        rw (index, same)
          ((λ h. (omega (arith, sum_here, half), omega arith)), (λ h. absurd (cc (hit, h))))
    | inr not_index ↦ elim (Bool-cases (is_index s (j + s))) [
      | inl index ↦
          let (inside, start, hit) = left j lt index in
          let (sum_there, small) = (placed (j + s) inside).0 index in
          rw (not_index, index) ((λ h. (rw start at sum_there, small)), (λ h. absurd (cc (hit, h))))
      | inr neither ↦
          let miss = outside j not_index neither in
          rw (not_index, neither) ((λ h. absurd (cc (miss, h))), (λ h. (placed j lt).1 not_index))
    ]
  ]

  down_sweep-Placed : Placed 1 (swept temp)
  unfolding down_sweep width
  down_sweep-Placed =
      let d0 = clear_last (swept_up temp) in
      let p0 = cleared-Placed in
      let p1 =
        down_step-Placed 128 d0
          (λ j h.
            let odd : ((j - 128 + 1) % 256 == 128) ≡ true = ground (arith, h) in
            (
              width_128 (j - 128) odd,
              ground (arith, h),
              ground (arith, h),
              ground (arith, h),
              ground (arith, h),
              omega arith,
            ))
          (λ j lt h. ground (arith, lt, h)) (λ j h g. ground (arith, h, g)) p0 in
      let d1 = down_step 128 d0 in
      let p2 =
        down_step-Placed 64 d1
          (λ j h.
            let odd : ((j - 64 + 1) % 128 == 64) ≡ true = ground (arith, h) in
            (
              width_64 (j - 64) odd,
              ground (arith, h),
              ground (arith, h),
              ground (arith, h),
              ground (arith, h),
              omega arith,
            ))
          (λ j lt h. ground (arith, lt, h)) (λ j h g. ground (arith, h, g)) p1 in
      let d2 = down_step 64 d1 in
      let p3 =
        down_step-Placed 32 d2
          (λ j h.
            let odd : ((j - 32 + 1) % 64 == 32) ≡ true = ground (arith, h) in
            (
              width_32 (j - 32) odd,
              ground (arith, h),
              ground (arith, h),
              ground (arith, h),
              ground (arith, h),
              omega arith,
            ))
          (λ j lt h. ground (arith, lt, h)) (λ j h g. ground (arith, h, g)) p2 in
      let d3 = down_step 32 d2 in
      let p4 =
        down_step-Placed 16 d3
          (λ j h.
            let odd : ((j - 16 + 1) % 32 == 16) ≡ true = ground (arith, h) in
            (
              width_16 (j - 16) odd,
              ground (arith, h),
              ground (arith, h),
              ground (arith, h),
              ground (arith, h),
              omega arith,
            ))
          (λ j lt h. ground (arith, lt, h)) (λ j h g. ground (arith, h, g)) p3 in
      let d4 = down_step 16 d3 in
      let p5 =
        down_step-Placed 8 d4
          (λ j h.
            let odd : ((j - 8 + 1) % 16 == 8) ≡ true = ground (arith, h) in
            (
              width_8 (j - 8) odd,
              ground (arith, h),
              ground (arith, h),
              ground (arith, h),
              ground (arith, h),
              omega arith,
            ))
          (λ j lt h. ground (arith, lt, h)) (λ j h g. ground (arith, h, g)) p4 in
      let d5 = down_step 8 d4 in
      let p6 =
        down_step-Placed 4 d5
          (λ j h.
            let odd : ((j - 4 + 1) % 8 == 4) ≡ true = ground (arith, h) in
            (
              width_4 (j - 4) odd,
              ground (arith, h),
              ground (arith, h),
              ground (arith, h),
              ground (arith, h),
              omega arith,
            ))
          (λ j lt h. ground (arith, lt, h)) (λ j h g. ground (arith, h, g)) p5 in
      let d6 = down_step 4 d5 in
      let p7 =
        down_step-Placed 2 d6
          (λ j h.
            let odd : ((j - 2 + 1) % 4 == 2) ≡ true = ground (arith, h) in
            (
              width_2 (j - 2) odd,
              ground (arith, h),
              ground (arith, h),
              ground (arith, h),
              ground (arith, h),
              omega arith,
            ))
          (λ j lt h. ground (arith, lt, h)) (λ j h g. ground (arith, h, g)) p6 in
      let d7 = down_step 2 d6 in
      let p8 =
        down_step-Placed 1 d7
          (λ j h.
            let odd : ((j - 1 + 1) % 2 == 1) ≡ true = ground (arith, h) in
            (
              width_1 (j - 1) odd,
              ground (arith, h),
              ground (arith, h),
              ground (arith, h),
              ground (arith, h),
              omega arith,
            ))
          (λ j lt h. ground (arith, lt, h)) (λ j h g. ground (arith, h, g)) p7 in
      let d8 = down_step 1 d7 in p8

  -- Each place of a group gets the sum of the items before it.
  pub swept_lem :
      (j : ℕ)
      → j < 256
      → ((swept temp j + sum 0) % 2 ^ 32 ≡ sum j % 2 ^ 32) × (swept temp j < 2 ^ 32)
  swept_lem j lt =
      let e : j + 1 - 1 ≡ j = omega arith in rw e at ((down_sweep-Placed j lt).0 (ground arith))

  -- The last place of the up-sweep adds up the whole group.
  pub swept_up_lem : (swept_up temp 255 + sum 0) % 2 ^ 32 ≡ sum 256 % 2 ^ 32
  unfolding width
  swept_up_lem = up_sweep-Covered 255
