-- ===== src/Adaptation/Curve/Morton.antt =====
-- The rotation never leaves 0, so the index interleaves the bits of the coordinates.
use fluidloom.Prelude.{
  ℕ, zero, suc, ◌+◌, ◌*◌, ◌^◌, ◌≤◌, ◌<◌, ◌≡◌, refl, ◌∙◌, true, ◌&&◌, ◌==◌, arith, ℤ,
}
use fluidloom.Hilbert.Codec.{to_u32, quadrant_at}
use fluidloom.Hilbert.Digits.{holds_below, holds_below_at, quadrant_at-lt}
use fluidloom.Hilbert.Encode.{pow-le}
use fluidloom.Adaptation.Curve.{rotation_table, direction_table, hilbert_encode_3d}
use fluidloom.Adaptation.Curve.Inverts.{digits, encode_3d_loop_lem}

-- The bits of the three coordinates at the places r - 1, …, 0, one octal digit for each place.
unfoldable pub interleaved : ℕ → ℕ → ℕ → ℕ → ℕ
interleaved zero x y z = 0
interleaved (suc r) x y z = quadrant_at r x y z * 8 ^ r + interleaved r x y z

unrotated : holds_below 8 (λ q. (rotation_table 0 q == q) && (direction_table 0 q == 0)) ≡ true
unfolding holds_below rotation_table direction_table
unrotated = refl

unrotated_at : (q : ℕ) → q < 8 → (rotation_table 0 q ≡ q) × (direction_table 0 q ≡ 0)
unrotated_at q lt = ground (
  arith,
  holds_below_at 8 (λ k. (rotation_table 0 k == k) && (direction_table 0 k == 0)) q unrotated lt,
)

digits_unrotated : (r x y z : ℕ) → digits r 0 x y z ≡ interleaved r x y z
unfolding digits interleaved
digits_unrotated zero x y z = refl
digits_unrotated (suc r) x y z =
    let (same, stay) = unrotated_at (quadrant_at r x y z) (quadrant_at-lt r x y z) in
    rw (same, stay) (omega (arith, digits_unrotated r x y z))

-- Up to level 21, `hilbert_encode_3d` interleaves the low bits of the coordinates, which are read as
-- 32-bit words: the index is the place of the cell in the Z-order.
pub encode_3d-interleaved :
    (x y z : ℤ) (max_level : ℕ)
    → max_level ≤ 21
    → hilbert_encode_3d x y z max_level ≡ interleaved max_level (to_u32 x) (to_u32 y) (to_u32 z)
unfolding hilbert_encode_3d
encode_3d-interleaved x y z max_level le =
    encode_3d_loop_lem max_level 0 (to_u32 x) (to_u32 y) (to_u32 z) 0 (omega arith)
      (omega (arith, pow-le max_level le))
    ∙ omega (arith, digits_unrotated max_level (to_u32 x) (to_u32 y) (to_u32 z))
