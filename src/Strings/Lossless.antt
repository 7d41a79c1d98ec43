-- ===== src/Strings/Lossless.antt =====
-- src/strings.rs: of which UTF-16 units the lossy decoding loses nothing.
use imageglass_ithmb_plugin.Prelude.{
  ℕ, ◌≤◌, ◌<◌, ◌≡◌, ◌⊎◌, ◌↔◌, inl, inr, refl, List, [], ◌∷◌, ◌++◌, arith, All, ◌&&◌, true,
  Bool-cases,
}
use imageglass_ithmb_plugin.Prelude.{◌^◌, length, take, some, ap, length-take}
use imageglass_ithmb_plugin.Prelude.Int.{pos}
use imageglass_ithmb_plugin.Prelude.Machine.{as_i32_self}
use imageglass_ithmb_plugin.Types.{Ptr, null, ref, IgStringRef}
use imageglass_ithmb_plugin.World.{World, done}
use imageglass_ithmb_plugin.Strings.RoundTrip.{utf16_to_string_present}
use imageglass_ithmb_plugin.Strings.{
  Str, encode_char, is_high_surrogate, is_low_surrogate, replace_surrogate, combine, encode_utf16,
  from_utf16_lossy, utf16_to_string, ig_string_ref_from_str,
}

-- Units other than surrogates, and pairs of a high and a low surrogate.
pub data IsWellFormed : List ℕ → Type 0 where
  ends : IsWellFormed []
  single :
      (u : ℕ) (units : List ℕ)
      → (u < 0xd800) ⊎ ((0xe000 ≤ u) × (u < 0x10000))
      → IsWellFormed units
      → IsWellFormed (u ∷ units)
  pair :
      (u v : ℕ) (units : List ℕ)
      → (0xd800 ≤ u) × (u < 0xdc00)
      → (0xdc00 ≤ v) × (v < 0xe000)
      → IsWellFormed units
      → IsWellFormed (u ∷ v ∷ units)

lossy_single :
    (u : ℕ) (units : List ℕ)
    → (u < 0xd800) ⊎ ((0xe000 ≤ u) × (u < 0x10000))
    → from_utf16_lossy (u ∷ units) ≡ u ∷ from_utf16_lossy units
unfolding from_utf16_lossy
lossy_single u [] h = ground arith
lossy_single u (v ∷ units) h = ground arith

encode_single : (u : ℕ) → u < 0x10000 → encode_char u ≡ u ∷ []
encode_single u h = ground arith

lossy_pair :
    (u v : ℕ) (units : List ℕ)
    → (0xd800 ≤ u) × (u < 0xdc00)
    → (0xdc00 ≤ v) × (v < 0xe000)
    → from_utf16_lossy (u ∷ v ∷ units) ≡ combine u v ∷ from_utf16_lossy units
unfolding from_utf16_lossy
lossy_pair u v units h k = ground (arith, h.0, h.1, k.0, k.1)

encode_pair :
    (u v : ℕ)
    → (0xd800 ≤ u) × (u < 0xdc00)
    → (0xdc00 ≤ v) × (v < 0xe000)
    → encode_char (combine u v) ≡ u ∷ v ∷ []
encode_pair u v h k = ground (arith, h.0, h.1, k.0, k.1)

lossless : (units : List ℕ) → IsWellFormed units → encode_utf16 (from_utf16_lossy units) ≡ units
unfolding encode_utf16
lossless _ ends = unfold from_utf16_lossy in refl
lossless _ (single u units h rest) =
    rw
      (
        lossy_single u units h,
        encode_utf16,
        encode_single u (ground (arith, h)),
        lossless units rest,
      )
      refl
lossless _ (pair u v units h k rest) =
    rw (lossy_pair u v units h k, encode_utf16, encode_pair u v h k, lossless units rest) refl

surrogate_changed :
    (u : ℕ) → u < 0x10000 → replace_surrogate u ≡ u → (u < 0xd800) ⊎ ((0xe000 ≤ u) × (u < 0x10000))
surrogate_changed u h e = ground arith

kept_unit :
    (u : ℕ) (s : Str) (units : List ℕ)
    → u < 0x10000
    → encode_char (replace_surrogate u) ++ encode_utf16 s ≡ u ∷ units
    → ((u < 0xd800) ⊎ ((0xe000 ≤ u) × (u < 0x10000))) × (encode_utf16 s ≡ units)
kept_unit u s units h e =
    let small : replace_surrogate u < 0x10000 = ground arith in
    let same : replace_surrogate u ∷ encode_utf16 s ≡ u ∷ units =
      rw (encode_single (replace_surrogate u) small) at e in
    (surrogate_changed u h (cc same), cc same)

pair_bounds :
    (u v : ℕ)
    → (is_high_surrogate u && is_low_surrogate v) ≡ true
    → ((0xd800 ≤ u) × (u < 0xdc00)) × ((0xdc00 ≤ v) × (v < 0xe000))
pair_bounds u v p = ((ground arith, ground arith), (ground arith, ground arith))

kept_pair :
    (u v : ℕ) (s : Str) (units : List ℕ)
    → (is_high_surrogate u && is_low_surrogate v) ≡ true
    → encode_char (combine u v) ++ encode_utf16 s ≡ u ∷ v ∷ units
    → encode_utf16 s ≡ units
kept_pair u v s units p e =
    let same : u ∷ v ∷ encode_utf16 s ≡ u ∷ v ∷ units =
      rw (encode_pair u v (pair_bounds u v p).0 (pair_bounds u v p).1) at e in
    cc same

kept-IsWellFormed :
    (units : List ℕ)
    → All (λ u. u < 0x10000) units
    → encode_utf16 (from_utf16_lossy units) ≡ units
    → IsWellFormed units
unfolding encode_utf16 from_utf16_lossy
kept-IsWellFormed [] h e = ends
kept-IsWellFormed (u ∷ []) h e = single u [] (kept_unit u [] [] h.0 e).0 ends
kept-IsWellFormed (u ∷ v ∷ units) h e =
    elim (Bool-cases (is_high_surrogate u && is_low_surrogate v)) [
      | inl paired ↦ pair u v units (pair_bounds u v paired).0 (pair_bounds u v paired).1 (
          kept-IsWellFormed units h.1.1
            (kept_pair u v (from_utf16_lossy units) units paired (rw paired at e)))
      | inr alone ↦
          let (unit, rest) =
            kept_unit u (from_utf16_lossy (v ∷ units)) (v ∷ units) h.0 (rw alone at e) in
          single u (v ∷ units) unit (kept-IsWellFormed (v ∷ units) h.1 rest)
    ]

-- For 16-bit units: the encoding of their lossy decoding is those units again exactly when they
-- are well-formed, which is to say that each surrogate is one of a high and a low one in a row.
encode_utf16-from_utf16_lossy_iff :
    (units : List ℕ)
    → All (λ u. u < 0x10000) units
    → (encode_utf16 (from_utf16_lossy units) ≡ units) ↔ IsWellFormed units
encode_utf16-from_utf16_lossy_iff units h = (kept-IsWellFormed units h, lossless units)

units_of : Ptr (List ℕ) → List ℕ
units_of null = []
units_of (ref units) = units

-- Of `n` readable 16-bit units, at least one and fewer than 2 ^ 31, `utf16_to_string` makes a
-- text. The string reference made of that text has the same units and length exactly when the
-- units are well-formed: each surrogate is one of a high and a low one in a row.
pub utf16_to_string-Lossless :
    (units : List ℕ) (n : ℕ) (w : World)
    → 0 < n
    → n < 2 ^ 31
    → n ≤ length units
    → All (λ u. u < 0x10000) (take n units)
    → (s : Str) × (utf16_to_string (record { data_ptr = ref units; length = pos n }) w
        ≡ done (some s) w)
      × (((ig_string_ref_from_str s).1 ≡ record { data_ptr = ref (take n units); length = pos n })
          ↔ IsWellFormed (take n units))
unfolding ig_string_ref_from_str units_of
utf16_to_string-Lossless units n w positive small readable short =
    let xs = take n units in
    let s = from_utf16_lossy xs in
    let counted : length xs ≡ n = omega (arith, length-take n units, readable) in
    let (kept, found) = encode_utf16-from_utf16_lossy_iff xs short in
    (
      s,
      utf16_to_string_present units n w positive small readable,
      (
        λ e. kept (ap (λ (r : IgStringRef). units_of r.data_ptr) e),
        λ well. rw (found well, counted, as_i32_self (pos n) small) refl,
      ),
    )
