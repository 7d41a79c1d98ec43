-- ===== src/Strings.antt =====
-- src/strings.rs, and the string helper of src/types.rs. A Rust string is the list of its `char`s,
-- which are Unicode scalar values, and a UTF-16 text the list of its code units.
pub mod RoundTrip
pub mod Access
pub mod Lossless
use imageglass_ithmb_plugin.Prelude.{
  ℕ, ◌+◌, ◌-◌, ◌*◌, ◌/◌, ◌%◌, List, [], ◌∷◌, ◌++◌, Option, none, some, Bool, ◌&&◌, ltb, leb,
  if◌then◌else◌, length,
}
use imageglass_ithmb_plugin.Prelude.Int.{ℤ, pos, negsuc, ltb_ℤ}
use imageglass_ithmb_plugin.Prelude.Machine.{as_i32, as_usize}
use imageglass_ithmb_plugin.Types.{Ptr, null, ref, IgStringRef}
use imageglass_ithmb_plugin.World.{Run, pure, ◌>>=◌, from_raw_parts}

abbrev pub Str : Type 0
Str = List ℕ

-- The code units of one `char`.
abbrev encode_char : ℕ → List ℕ
encode_char c =
    if ltb c 0x10000
    then c ∷ []
    else (0xd800 + (c - 0x10000) / 0x400) ∷ (0xdc00 + (c - 0x10000) % 0x400) ∷ []

unfoldable pub encode_utf16 : Str → List ℕ
encode_utf16 [] = []
encode_utf16 (c ∷ s) = encode_char c ++ encode_utf16 s

abbrev pub is_high_surrogate : ℕ → Bool
is_high_surrogate u = leb 0xd800 u && ltb u 0xdc00

abbrev pub is_low_surrogate : ℕ → Bool
is_low_surrogate u = leb 0xdc00 u && ltb u 0xe000

-- U+FFFD stands for a surrogate that has no partner.
abbrev replace_surrogate : ℕ → ℕ
replace_surrogate u = if leb 0xd800 u && ltb u 0xe000 then 0xfffd else u

-- The `char` of a surrogate pair.
abbrev combine : ℕ → ℕ → ℕ
combine u v = 0x10000 + (u - 0xd800) * 0x400 + (v - 0xdc00)

-- `String::from_utf16_lossy`.
unfoldable pub from_utf16_lossy : List ℕ → Str
from_utf16_lossy [] = []
from_utf16_lossy (u ∷ []) = replace_surrogate u ∷ []
from_utf16_lossy (u ∷ v ∷ units) =
    let paired = combine u v ∷ from_utf16_lossy units in
    let single = replace_surrogate u ∷ from_utf16_lossy (v ∷ units) in
    if is_high_surrogate u && is_low_surrogate v then paired else single

-- `s.data.is_null() || s.length <= 0`.
abbrev pub is_absent : IgStringRef → Bool
is_absent s = elim s.data_ptr [ null ↦ Bool.true | ref units ↦ ltb_ℤ s.length (pos 1) ]

unfoldable pub utf16_to_string : IgStringRef → Run (Option Str)
utf16_to_string s = if is_absent s then pure none else do
  slice ← from_raw_parts s.data_ptr (as_usize s.length)
  pure (some (from_utf16_lossy slice))

unfoldable pub ig_string_ref_from_str : Str → List ℕ × IgStringRef
ig_string_ref_from_str s =
    let utf16 = encode_utf16 s in
    let len = as_i32 (pos (length utf16)) in (utf16, record { data_ptr = ref utf16; length = len })
