-- ===== src/Strings/Access.antt =====
-- src/strings.rs: which string references can be read.
use imageglass_ithmb_plugin.Prelude.{
  ℕ, zero, suc, ◌^◌, ◌≤◌, ◌<◌, ◌≡◌, refl, List, Option, none, some, length, take, arith,
}
use imageglass_ithmb_plugin.Prelude.Int.{ℤ, pos, negsuc}
use imageglass_ithmb_plugin.Types.{Ptr, null, ref, IgStringRef}
use imageglass_ithmb_plugin.World.{World, done}
use imageglass_ithmb_plugin.Strings.{Str, from_utf16_lossy, utf16_to_string}
use imageglass_ithmb_plugin.Strings.RoundTrip.{utf16_to_string_present}

abbrev pub ReadableUnits : Ptr (List ℕ) → ℤ → Type 0
ReadableUnits null n = Unit {0}
ReadableUnits (ref units) (negsuc n) = Unit {0}
ReadableUnits (ref units) (pos n) = (n ≤ length units) × (n < 2 ^ 31)

-- The contract of a string that the host passes: a positive length counts readable units.
abbrev pub IsReadable : IgStringRef → Type 0
IsReadable s = ReadableUnits s.data_ptr s.length

-- The string that `utf16_to_string` finds: none for a null pointer or a length that is not positive.
unfoldable pub decoded_string : Ptr (List ℕ) → ℤ → Option Str
decoded_string null n = none
decoded_string (ref units) (negsuc n) = none
decoded_string (ref units) (pos zero) = none
decoded_string (ref units) (pos (suc n)) = some (from_utf16_lossy (take (suc n) units))

read_units :
    (d : Ptr (List ℕ)) (n : ℤ) (w : World)
    → ReadableUnits d n
    → utf16_to_string (record { data_ptr = d; length = n }) w ≡ done (decoded_string d n) w
unfolding utf16_to_string decoded_string
read_units null n w h = refl
read_units (ref units) (negsuc n) w h = ground arith
read_units (ref units) (pos zero) w h = refl
read_units (ref units) (pos (suc n)) w h =
    utf16_to_string_present units (suc n) w (omega arith) h.1 h.0

-- `utf16_to_string` reads a readable reference, changes nothing, and tells just the absent ones.
pub utf16_to_string_readable :
    (s : IgStringRef) (w : World)
    → IsReadable s
    → utf16_to_string s w ≡ done (decoded_string s.data_ptr s.length) w
utf16_to_string_readable s w h = read_units s.data_ptr s.length w h
