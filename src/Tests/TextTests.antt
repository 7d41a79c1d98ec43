-- ===== src/Tests/TextTests.antt =====
-- Strings and files at concrete inputs.
use imageglass_ithmb_plugin.Prelude.{
  ℕ, List, take, ◌≡◌, ◌↔◌, ◌<◌, ◌^◌, length, inl, inr, refl, some, [], ◌∷◌, codes, arith,
}
use imageglass_ithmb_plugin.World.{done}
use imageglass_ithmb_plugin.Prelude.Int.{pos}
use imageglass_ithmb_plugin.Types.{Result, ref}
use imageglass_ithmb_plugin.Strings.{Str, encode_utf16, utf16_to_string, ig_string_ref_from_str}
use imageglass_ithmb_plugin.Prelude.{◌↔◌}
use imageglass_ithmb_plugin.Strings.Lossless.{IsWellFormed, utf16_to_string-Lossless}
use imageglass_ithmb_plugin.Strings.RoundTrip.{utf16_to_string-ig_string_ref_from_str}
use imageglass_ithmb_plugin.FileIo.{read_ithmb_file, read_ithmb_prefix}
use imageglass_ithmb_plugin.FileIo.Bounds.{
  IsWholeRead, IsPrefixRead, read_ithmb_file_iff, read_ithmb_prefix_iff,
}
use imageglass_ithmb_plugin.Tests.Fixtures.{test_env, test_world}

-- A letter, a multiplication sign and a character outside the basic plane.
abbrev mixed_text : Str
mixed_text = b'h' ∷ 0xd7 ∷ 0x1f600 ∷ []

mixed_units : encode_utf16 mixed_text ≡ b'h' ∷ 0xd7 ∷ 0xd83d ∷ 0xde00 ∷ []
unfolding encode_utf16
mixed_units = refl

-- A letter and a low surrogate with no partner, of more units.
abbrev broken_units : List ℕ
broken_units = b'a' ∷ 0xdc00 ∷ b'b' ∷ []

utf16_to_string-Lossless_example :
    (s : Str) × (utf16_to_string (record { data_ptr = ref broken_units; length = pos 2 }) test_world
      ≡ done (some s) test_world)
    × (((ig_string_ref_from_str s).1
          ≡ record { data_ptr = ref (take 2 broken_units); length = pos 2 })
        ↔ IsWellFormed (take 2 broken_units))
utf16_to_string-Lossless_example =
    utf16_to_string-Lossless broken_units 2 test_world (omega arith) (omega arith) (omega arith)
      (omega arith)

mixed_fits : length (encode_utf16 mixed_text) < 2 ^ 31
unfolding encode_utf16
mixed_fits = omega arith

utf16_to_string-ig_string_ref_from_str_example :
    utf16_to_string (ig_string_ref_from_str mixed_text).1 test_world
    ≡ done (some mixed_text) test_world
utf16_to_string-ig_string_ref_from_str_example =
    utf16_to_string-ig_string_ref_from_str mixed_text test_world (λ e. cc)
      (inl (omega arith), (inl (omega arith), (inr (omega arith), tt))) mixed_fits

read_ithmb_file_iff_example :
    (read_ithmb_file test_env (codes "/a") ≡ Result.ok (0 ∷ 0 ∷ 4 ∷ 0 ∷ 7 ∷ 7 ∷ []))
    ↔ IsWholeRead test_env (codes "/a") (0 ∷ 0 ∷ 4 ∷ 0 ∷ 7 ∷ 7 ∷ [])
read_ithmb_file_iff_example = read_ithmb_file_iff test_env (codes "/a") (0 ∷ 0 ∷ 4 ∷ 0 ∷ 7 ∷ 7 ∷ [])

read_ithmb_prefix_iff_example :
    (read_ithmb_prefix test_env (codes "/a") ≡ Result.ok (0 ∷ 0 ∷ 4 ∷ 0 ∷ [], 6))
    ↔ IsPrefixRead test_env (codes "/a") (0 ∷ 0 ∷ 4 ∷ 0 ∷ []) 6
read_ithmb_prefix_iff_example = read_ithmb_prefix_iff test_env (codes "/a") (0 ∷ 0 ∷ 4 ∷ 0 ∷ []) 6
