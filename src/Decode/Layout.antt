-- ===== src/Decode/Layout.antt =====
-- src/decode.rs: the casts and checked products that size a pixel buffer.
use native.Mathlib.Nat.{mul_comm}
use imageglass_ithmb_plugin.Prelude.{
  zero, suc, ap, ◌∙◌, ℕ, ◌*◌, ◌%◌, ◌^◌, ◌≤◌, ◌<◌, ◌≡◌, ◌⊎◌, inl, inr, some, length, arith,
}
use imageglass_ithmb_plugin.Prelude.Int.{ℤ, pos, negsuc}
use imageglass_ithmb_plugin.Prelude.Machine.{as_i32, as_usize, i32_checked_mul, usize_checked_mul}
use imageglass_ithmb_plugin.Env.{DecodedImage}
use imageglass_ithmb_plugin.Decode.{FrameLayout, frame_layout}

-- What the decoder documents of an image: non-negative dimensions, and four bytes to a pixel.
pub record IsFrame (img : DecodedImage) : Type 0 where
  pub columns : ℕ
  pub rows : ℕ
  pub wide : img.width ≡ pos columns
  pub high : img.height ≡ pos rows
  pub full : length img.pixels ≡ rows * columns * 4

-- A product with a factor of at least 2 ^ 63 is 0, or at least 2 ^ 63, or overflows.
wide_product : (a x n : ℕ) → 2 ^ 63 ≤ x → usize_checked_mul a x ≡ some n → (n ≡ 0) ⊎ (2 ^ 63 ≤ n)
wide_product zero x n h e = ground arith
wide_product (suc zero) x n h e = ground arith
wide_product (suc (suc a)) x n h e = absurd (ground arith)

stride_pos :
    (w : ℕ) (s : ℤ)
    → i32_checked_mul (pos w) (pos 4) ≡ some s
    → (s ≡ pos (w * 4)) × (w * 4 < 2 ^ 31)
stride_pos w s e = ground arith

stride_negsuc :
    (w : ℕ) (s : ℤ) → w < 2 ^ 31 → i32_checked_mul (negsuc w) (pos 4) ≡ some s → 2 ^ 63 ≤ as_usize s
stride_negsuc w s h e = ground arith

usize_product_comm : (a b : ℕ) → usize_checked_mul a b ≡ usize_checked_mul b a
usize_product_comm a b = rw (mul_comm a b)

cast_pos : (w n : ℕ) → pos w ≡ as_i32 (pos n) → (w ≤ n) × (w < 2 ^ 31)
cast_pos w n e = ground arith

cast_negsuc : (w n : ℕ) → negsuc w ≡ as_i32 (pos n) → w < 2 ^ 31
cast_negsuc w n e = ground arith

product_mono : (a b c d : ℕ) → a ≤ c → b ≤ d → b * (a * 4) ≤ d * c * 4
product_mono a b c d h k = grind arith

fitting_product :
    (w h n : ℕ)
    → w * 4 < 2 ^ 31
    → h < 2 ^ 31
    → usize_checked_mul (as_usize (pos h)) (as_usize (pos (w * 4))) ≡ some n
    → n ≡ h * (w * 4)
fitting_product w h n hw hh e =
    let h' : h % 2 ^ 64 ≡ h = omega arith in
    let w' : (w * 4) % 2 ^ 64 ≡ w * 4 = omega arith in ground (arith)

usize_wide : (h : ℕ) → h < 2 ^ 31 → 2 ^ 63 ≤ as_usize (negsuc h)
usize_wide h small = omega arith

small_or_wide : (n m : ℕ) → (n ≡ 0) ⊎ (2 ^ 63 ≤ n) → (n ≤ m) ⊎ (2 ^ 63 ≤ n)
small_or_wide n m (inl e) = inl (omega arith)
small_or_wide n m (inr h) = inr h

-- The size in bytes that the code computes for casts `w` and `h` of `columns` and `rows`.
buffer_bound :
    (w h s : ℤ) (columns rows n : ℕ)
    → w ≡ as_i32 (pos columns)
    → h ≡ as_i32 (pos rows)
    → i32_checked_mul w (pos 4) ≡ some s
    → usize_checked_mul (as_usize h) (as_usize s) ≡ some n
    → (n ≤ rows * columns * 4) ⊎ (2 ^ 63 ≤ n)
buffer_bound (negsuc w) h s columns rows n cw ch stride size = small_or_wide n _ (
    wide_product (as_usize h) (as_usize s) n (stride_negsuc w s (cast_negsuc w columns cw) stride)
      size)
buffer_bound (pos w) (negsuc h) s columns rows n cw ch stride size = small_or_wide n _ (
    wide_product (as_usize s) (as_usize (negsuc h)) n (usize_wide h (cast_negsuc h rows ch))
      (usize_product_comm (as_usize s) (as_usize (negsuc h)) ∙ size))
buffer_bound (pos w) (pos h) s columns rows n cw ch stride size =
    let (stride_eq, stride_fits) = stride_pos w s stride in
    let (w_le, _) = cast_pos w columns cw in
    let (h_le, h_fits) = cast_pos h rows ch in
    inl (
      rw (fitting_product w h n stride_fits h_fits (rw stride_eq at size))
        (product_mono w h columns rows w_le h_le))

-- What a computed layout is made of.
pub frame_layout_parts :
    (img : DecodedImage) (l : FrameLayout)
    → frame_layout img ≡ some l
    → (l.width ≡ as_i32 img.width)
      × (l.height ≡ as_i32 img.height)
      × (i32_checked_mul l.width (pos 4) ≡ some l.stride)
      × (usize_checked_mul (as_usize l.height) (as_usize l.stride) ≡ some l.buf_size)
unfolding frame_layout
frame_layout_parts img l e = ground arith

-- The code never copies more than the decoder delivered, unless it asks for 2 ^ 63 bytes and more.
pub frame_layout_bound :
    (img : DecodedImage) (l : FrameLayout)
    → IsFrame img
    → frame_layout img ≡ some l
    → (l.buf_size ≤ length img.pixels) ⊎ (2 ^ 63 ≤ l.buf_size)
frame_layout_bound img l f e =
    let (cw, ch, stride, size) = frame_layout_parts img l e in
    rw f.full (
      buffer_bound l.width l.height l.stride f.columns f.rows l.buf_size (cw ∙ ap as_i32 f.wide)
        (ch ∙ ap as_i32 f.high) stride size)
