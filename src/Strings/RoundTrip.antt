-- ===== src/Strings/RoundTrip.antt =====
-- UTF-16 round trips of src/strings.rs and src/types.rs.
use imageglass_ithmb_plugin.Prelude.{
  ℕ, ◌≤◌, ◌<◌, ◌^◌, ◌≡◌, ◌≢◌, ◌⊎◌, refl, List, [], ◌∷◌, ◌++◌, some, arith, All, length, take-length,
  take, ap, ◌∙◌, ◌&&◌, true, Bool-cases, inl, inr,
}
use native.Mathlib.Nat.{le_refl}
use imageglass_ithmb_plugin.Prelude.Int.{pos}
use imageglass_ithmb_plugin.Prelude.Machine.{as_i32_self}
use imageglass_ithmb_plugin.Types.{ref}
use imageglass_ithmb_plugin.World.{World, done}
use imageglass_ithmb_plugin.Strings.{
  Str, encode_char, is_high_surrogate, is_low_surrogate, replace_surrogate, combine, encode_utf16,
  from_utf16_lossy, utf16_to_string, ig_string_ref_from_str,
}

-- A Unicode scalar value, as every `char` is.
abbrev pub IsScalar : ℕ → Type 0
IsScalar c = (c < 0xd800) ⊎ ((0xe000 ≤ c) × (c < 0x110000))

lossy-encode_char :
    (c : ℕ) (units : List ℕ)
    → IsScalar c
    → from_utf16_lossy (encode_char c ++ units) ≡ c ∷ from_utf16_lossy units
unfolding from_utf16_lossy
lossy-encode_char c [] h = ground arith
lossy-encode_char c (v ∷ units) h = ground arith

-- Decoding the UTF-16 encoding of a text of scalar values gives the text back.
pub from_utf16_lossy-encode_utf16 :
    (s : Str) → All IsScalar s → from_utf16_lossy (encode_utf16 s) ≡ s
unfolding encode_utf16
from_utf16_lossy-encode_utf16 [] h = unfold from_utf16_lossy in refl
from_utf16_lossy-encode_utf16 (c ∷ s) h =
    lossy-encode_char c (encode_utf16 s) h.0 ∙ ap (◌∷◌ c) (from_utf16_lossy-encode_utf16 s h.1)

replace_surrogate-IsScalar : (u : ℕ) → u < 0x10000 → IsScalar (replace_surrogate u)
replace_surrogate-IsScalar u h = ground arith

combine-IsScalar :
    (u v : ℕ) → (is_high_surrogate u && is_low_surrogate v) ≡ true → IsScalar (combine u v)
combine-IsScalar u v h = inr (ground arith, ground arith)

-- Lossy decoding of any list of 16-bit units yields only Unicode scalar values.
pub from_utf16_lossy-IsScalar :
    (units : List ℕ) → All (λ u. u < 0x10000) units → All IsScalar (from_utf16_lossy units)
unfolding from_utf16_lossy
from_utf16_lossy-IsScalar [] h = tt
from_utf16_lossy-IsScalar (u ∷ []) h = (replace_surrogate-IsScalar u h.0, tt)
from_utf16_lossy-IsScalar (u ∷ v ∷ units) h =
    elim (Bool-cases (is_high_surrogate u && is_low_surrogate v)) [
      | inl pair ↦ rw pair (combine-IsScalar u v pair, from_utf16_lossy-IsScalar units h.1.1)
      | inr single ↦
          rw single (replace_surrogate-IsScalar u h.0, from_utf16_lossy-IsScalar (v ∷ units) h.1)
    ]

-- A present string of `n` units decodes the first `n` units that its pointer reaches.
pub utf16_to_string_present :
    (units : List ℕ) (n : ℕ) (w : World)
    → 0 < n
    → n < 2 ^ 31
    → n ≤ length units
    → utf16_to_string (record { data_ptr = ref units; length = pos n }) w
      ≡ done (some (from_utf16_lossy (take n units))) w
unfolding utf16_to_string
utf16_to_string_present units n w positive small readable = ground arith

encode_utf16-ne-nil : (s : Str) → s ≢ [] → 0 < length (encode_utf16 s)
unfolding encode_utf16
encode_utf16-ne-nil [] ne = absurd (ne refl)
encode_utf16-ne-nil (c ∷ s) ne = ground arith

-- A non-empty string of scalar values with fewer than 2 ^ 31 UTF-16 units comes back from
-- `utf16_to_string` of its string reference.
pub utf16_to_string-ig_string_ref_from_str :
    (s : Str) (w : World)
    → s ≢ []
    → All IsScalar s
    → length (encode_utf16 s) < 2 ^ 31
    → utf16_to_string (ig_string_ref_from_str s).1 w ≡ done (some s) w
unfolding utf16_to_string ig_string_ref_from_str
utf16_to_string-ig_string_ref_from_str s w ne h fits =
    let units = encode_utf16 s in
    rw (
      as_i32_self (pos (length units)) fits,
      utf16_to_string_present units (length units) w (encode_utf16-ne-nil s ne) fits (le_refl _),
      take-length units,
      from_utf16_lossy-encode_utf16 s h,
    )
