-- ===== src/Graphics/Buffers.antt =====
-- The buffers of kernel/src/graphics.rs: what their loops write, and where.
use lymad_os.Base.{
  ℕ, zero, suc, ◌+◌, ◌*◌, ◌≤◌, ◌<◌, ◌≡◌, ◌≢◌, refl, ◌∙◌, ap, sym, arith, add64, mul64, word, Array,
  write, inl, inr, ltb, if◌then◌else◌, ◌==◌, Bool-cases,
}
use mathlib.Core.Path.{subst}
use native.Mathlib.Nat.{mul-le-mul_right, mul_comm}
use lymad_os.Graphics.{Framebuffer, pixel, write_zeros, copy_pixels, paint_row, paint_rows}

-- The address of pixel `i`, in a buffer that does not wrap.
pixel_lem : (buffer n i : ℕ) → buffer + 4 * n ≤ word → i < n → pixel buffer i ≡ buffer + 4 * i
pixel_lem buffer n i fits h = omega arith

-- The pixels below `n` of the buffer hold the value that `f` gives their index, and no other address has changed.
pub record Painted (buffer n : ℕ) (f : ℕ → ℕ) (memory memory' : Array ℕ) : Type 0 where
  pub inside : (i : ℕ) → i < n → memory' (buffer + 4 * i) ≡ f i
  pub outside : (a : ℕ) → ((i : ℕ) → i < n → a ≢ buffer + 4 * i) → memory' a ≡ memory a

Painted-step :
    (buffer n : ℕ) (f : ℕ → ℕ) (memory memory' : Array ℕ)
    → buffer + 4 * suc n ≤ word
    → Painted buffer n f memory memory'
    → Painted buffer (suc n) f memory (write memory' (pixel buffer n) (f n))
Painted-step buffer n f memory memory' fits p = record {
  inside = λ i h. elim (Bool-cases (i == n)) [
    | inl at ↦
        let same : i ≡ n = ground arith in
        let own : write memory' (pixel buffer n) (f n) (buffer + 4 * i) ≡ f n = ground arith in
        own ∙ ap f (sym same)
    | inr ne ↦ ground (arith, p.inside i)
  ];
  outside = λ a off.
      let own = off n (omega arith) in
      let before = p.outside a (λ i h. off i (omega arith)) in ground arith;
}

pub write_zeros-Painted :
    (buffer n : ℕ) (memory : Array ℕ)
    → buffer + 4 * n ≤ word
    → Painted buffer n (λ i. 0) memory (write_zeros buffer n memory)
unfolding write_zeros
write_zeros-Painted buffer zero memory fits = record {
  inside = λ i h. elim h [ ];
  outside = λ a off. refl;
}
write_zeros-Painted buffer (suc n) memory fits =
    Painted-step buffer n (λ i. 0) memory (write_zeros buffer n memory) fits
      (write_zeros-Painted buffer n memory (omega arith))

pub copy_pixels-Painted :
    (from to n : ℕ) (memory : Array ℕ)
    → from + 4 * n ≤ word
    → to + 4 * n ≤ word
    → Painted to n (λ i. memory (from + 4 * i)) memory (copy_pixels from to n memory)
unfolding copy_pixels
copy_pixels-Painted from to zero memory fits fits' = record {
  inside = λ i h. elim h [ ];
  outside = λ a off. refl;
}
copy_pixels-Painted from to (suc n) memory fits fits' =
    let at : pixel from n ≡ from + 4 * n = omega arith in
    rw at (
      Painted-step to n (λ i. memory (from + 4 * i)) memory (copy_pixels from to n memory) fits'
        (copy_pixels-Painted from to n memory (omega arith) (omega arith)))

-- The test image, row by row.
module _ (fb : Framebuffer) (colour : ℕ)
    (fits : fb.back_buffer + 4 * (fb.stride * fb.height) ≤ word) (wide : fb.width ≤ fb.stride) where
  pub row_end : (y : ℕ) → y < fb.height → y * fb.stride + fb.stride ≤ fb.stride * fb.height
  row_end y h =
      let last : suc y * fb.stride ≤ fb.height * fb.stride = mul-le-mul_right fb.stride h in
      omega (arith, last, mul_comm fb.height fb.stride)

  pixel_at :
      (y x : ℕ)
      → y < fb.height
      → x < fb.stride
      → pixel fb.back_buffer (add64 (mul64 y fb.stride) x)
        ≡ fb.back_buffer + 4 * (y * fb.stride + x)
  pixel_at y x h h' = omega (arith, row_end y h)

  paint_row-at :
      (y n x : ℕ) (memory : Array ℕ)
      → y < fb.height
      → n ≤ fb.width
      → x < fb.width
      → paint_row fb y colour n memory (fb.back_buffer + 4 * (y * fb.stride + x))
        ≡ (if ltb x n then colour else memory (fb.back_buffer + 4 * (y * fb.stride + x)))
  unfolding paint_row
  paint_row-at y zero x memory h le lt = ground arith
  paint_row-at y (suc n) x memory h le lt =
      let ih = paint_row-at y n x memory h (omega arith) lt in
      let at = pixel_at y n h (omega arith) in ground arith

  -- Elsewhere the memory stays.
  paint_row-outside :
      (y n a : ℕ) (memory : Array ℕ)
      → y < fb.height
      → n ≤ fb.width
      → ((x : ℕ) → x < fb.width → a ≢ fb.back_buffer + 4 * (y * fb.stride + x))
      → paint_row fb y colour n memory a ≡ memory a
  unfolding paint_row
  paint_row-outside y zero a memory h le off = refl
  paint_row-outside y (suc n) a memory h le off =
      let ih = paint_row-outside y n a memory h (omega arith) off in
      let at = pixel_at y n h (omega arith) in let ne = off n (omega arith) in ground arith

  pub paint_rows-at :
      (n y x : ℕ) (memory : Array ℕ)
      → n ≤ fb.height
      → y < n
      → x < fb.width
      → paint_rows fb colour n memory (fb.back_buffer + 4 * (y * fb.stride + x)) ≡ colour
  unfolding paint_rows
  paint_rows-at zero y x memory le lt h = elim lt [ ]
  paint_rows-at (suc n) y x memory le lt h = elim (Bool-cases (y == n)) [
    | inl at ↦
        let same : n ≡ y = ground arith in
        subst
          (λ (k : ℕ).
            paint_row fb k colour fb.width (paint_rows fb colour n memory)
              (fb.back_buffer + 4 * (y * fb.stride + x))
            ≡ colour)
          (sym same)
          (ground (
            arith,
            paint_row-at y fb.width x (paint_rows fb colour n memory) (omega arith) (omega arith) h,
          ))
    | inr ne ↦
        let above : suc y * fb.stride ≤ n * fb.stride = mul-le-mul_right fb.stride (ground arith) in
        paint_row-outside n fb.width (fb.back_buffer + 4 * (y * fb.stride + x))
          (paint_rows fb colour n memory) (omega arith) (omega arith)
          (λ x' lt' e. omega (arith, above))
        ∙ paint_rows-at n y x memory (omega arith) (ground arith) h
  ]

  pub paint_rows-outside :
      (n a : ℕ) (memory : Array ℕ)
      → n ≤ fb.height
      → ((y x : ℕ) → y < fb.height → x < fb.width → a ≢ fb.back_buffer + 4 * (y * fb.stride + x))
      → paint_rows fb colour n memory a ≡ memory a
  unfolding paint_rows
  paint_rows-outside zero a memory le off = refl
  paint_rows-outside (suc n) a memory le off =
      paint_row-outside n fb.width a (paint_rows fb colour n memory) (omega arith) (omega arith)
        (λ x lt. off n x (omega arith) lt)
      ∙ paint_rows-outside n a memory (omega arith) off
