-- ===== src/Filestorage/Image/Bounds.antt =====
-- filestorage/image.go: the sizes of the images that are stored.
use hockey_libs.Prelude.{
  ℕ, ◌*◌, ◌/◌, ◌^◌, ◌≤◌, ◌<◌, ◌≡◌, ◌⊎◌, ◌↔◌, inl, inr, ◌&&◌, min, ltb, leb, Bool-cases, arith,
}
use native.Mathlib.Nat.{div-le_of_le-mul}
use hockey_libs.Filestorage.Image.{max_pixels_limit, fit_size}

le_mul : (a b : ℕ) → 0 < b → a ≤ a * b
le_mul a b h = grind arith

mul_comm : (a b : ℕ) → a * b ≡ b * a
mul_comm a b = grind arith

mul_bounds : (a b c d : ℕ) → a ≤ c → b ≤ d → a * b ≤ c * d
mul_bounds a b c d h k = grind arith

scaled_le : (a b side : ℕ) → a ≤ b → 0 < b → a * side / b ≤ side
scaled_le a b side h p = let m : a * side ≤ b * side = grind arith in div-le_of_le-mul b m

scaled_lt : (a b side : ℕ) → side < b → a * side / b ≤ a
scaled_lt a b side h = let m : a * side ≤ b * a = grind arith in div-le_of_le-mul b m

scaled_zero : (a b side : ℕ) → 0 < b → (a * side / b ≡ 0) ↔ (a * side < b)
scaled_zero a b side h = grind arith

-- The products that `fit` computes do not wrap around.
fit_exact :
    (width height side : ℕ)
    → 0 < width
    → 0 < height
    → width * height ≤ max_pixels_limit
    → (side < width) ⊎ (side < height)
    → (height * side < 2 ^ 63) × (width * side < 2 ^ 63)
fit_exact width height side p q h k =
    let w : width ≤ width * height = le_mul width height q in
    let t : height ≤ height * width = le_mul height width p in
    let s : side < 50000000 = omega (arith, mul_comm width height) in
    let u : height * side ≤ 50000000 * 50000000 =
      mul_bounds height side 50000000 50000000 (omega (arith, mul_comm width height))
        (omega arith) in
    let v : width * side ≤ 50000000 * 50000000 =
      mul_bounds width side 50000000 50000000 (omega arith) (omega arith) in
    omega arith

pub fit_size_le :
    (width height side : ℕ)
    → ((fit_size (width, height) side).0 ≤ min width side)
      × ((fit_size (width, height) side).1 ≤ min height side)
unfolding fit_size
fit_size_le width height side = elim (Bool-cases (leb width side && leb height side)) [
  | inl t ↦ rw t (ground arith)
  | inr t ↦ elim (Bool-cases (ltb height width)) [
    | inl u ↦ rw (t, u) (ground (arith, scaled_le height width side, scaled_lt height width side))
    | inr u ↦ rw (t, u) (ground (arith, scaled_le width height side, scaled_lt width height side))
  ]
]

-- An image and a limit of sides of which none is zero: the image gets sides that are no longer
-- than the limit and than before, and a side of it gets the length zero exactly if the other one
-- is more than the limit times longer.
pub fit_size_bounds :
    (width height side : ℕ)
    → 0 < width
    → 0 < height
    → 0 < side
    → ((fit_size (width, height) side).0 ≤ min width side)
      × ((fit_size (width, height) side).1 ≤ min height side)
      × (((fit_size (width, height) side).0 ≡ 0) ↔ ((side < height) × (width * side < height)))
      × (((fit_size (width, height) side).1 ≡ 0) ↔ ((side < width) × (height * side < width)))
unfolding fit_size
fit_size_bounds width height side p q l = elim (Bool-cases (leb width side && leb height side)) [
  | inl t ↦ rw t (ground arith)
  | inr t ↦ elim (Bool-cases (ltb height width)) [
    | inl u ↦
        let wide = le_mul width side l in
        rw (t, u)
          (ground (
            arith,
            scaled_le height width side,
            scaled_lt height width side,
            scaled_zero height width side,
          ))
    | inr u ↦
        let high = le_mul height side l in
        rw (t, u)
          (ground (
            arith,
            scaled_le width height side,
            scaled_lt width height side,
            scaled_zero width height side,
          ))
  ]
]
