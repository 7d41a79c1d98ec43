-- ===== src/Codec.antt =====
-- src/codec.rs: the capability query, extension and signature matching, and metadata.
pub mod Dimensions
pub mod History
pub mod LogText
pub mod Profiles
pub mod Matching
pub mod Unchecked
pub mod Parsing
pub mod Trimming
pub mod Numerals
pub mod Grammar
pub mod Metadata
pub mod Advertised
use imageglass_ithmb_plugin.Prelude.{
  ℕ, zero, suc, ◌+◌, ◌-◌, ◌*◌, ◌%◌, ◌^◌, [], ◌∷◌, ◌++◌, List, map, Option, none, some, Bool, true,
  false, not, ◌&&◌, ◌||◌, ◌==◌, ltb, leb, if◌then◌else◌, codes, take,
}
use imageglass_ithmb_plugin.Prelude.Int.{ℤ, pos, negsuc, eqb_ℤ}
use imageglass_ithmb_plugin.Prelude.Machine.{as_i32, as_i64, as_usize, signed}
use imageglass_ithmb_plugin.Types.{
  IgStatus, Result, Ptr, null, ref, IgStringRef, IgImageInfo, IgCodecCapability,
}
use imageglass_ithmb_plugin.World.{
  World, Run, pure, ◌>>=◌, ◌>>◌, ask, modify, update, catch_unwind_or, from_raw_parts,
  undefined_behaviour,
}
use imageglass_ithmb_plugin.Strings.{Str, is_absent, utf16_to_string}
use imageglass_ithmb_plugin.Env.{Env, Profile}
use imageglass_ithmb_plugin.Logging.{with_core}
use imageglass_ithmb_plugin.Logging.Methods
use imageglass_ithmb_plugin.FileIo.{read_ithmb_prefix}
use Dimensions.{parse_dimensions, ◌>>=◌ as ◌>>=?◌}

-- The slot is the host's `IGCodecCapability*` variable at `cap`.
unfoldable pub codec_get_capability : ℕ → Run IgStatus
codec_get_capability cap = catch_unwind_or IgStatus.internal (
    if cap == 0 then pure IgStatus.invalid_arg else do
      stored ← ask (λ w. w.capability)
      elim stored [
        | none ↦ pure IgStatus.internal
        | some capability ↦ do
          modify
              (λ w. record w { capability_slots = update w.capability_slots cap (ref capability) })
          pure IgStatus.ok
      ])

-- `u8::try_from(ch).unwrap_or(b'?')`.
abbrev pub log_byte : ℕ → ℕ
log_byte ch = if ltb ch 256 then ch else b'?'

-- What the first byte of a UTF-8 sequence says: how many bytes follow, its bits of the code point,
-- and the range of the second byte.
pub record Utf8Lead : Type 0 where
  pub need : ℕ
  pub bits : ℕ
  pub low : ℕ
  pub high : ℕ

abbrev between : ℕ → ℕ → ℕ → Bool
between a b x = leb a x && leb x b

unfoldable pub utf8_lead : ℕ → Option Utf8Lead
utf8_lead b =
    if between 0xc2 0xdf b
    then some (record { need = 1; bits = b - 0xc0; low = 0x80; high = 0xbf })
    else if b == 0xe0
    then some (record { need = 2; bits = 0; low = 0xa0; high = 0xbf })
    else if b == 0xed
    then some (record { need = 2; bits = 0xd; low = 0x80; high = 0x9f })
    else if between 0xe1 0xef b
    then some (record { need = 2; bits = b - 0xe0; low = 0x80; high = 0xbf })
    else if b == 0xf0
    then some (record { need = 3; bits = 0; low = 0x90; high = 0xbf })
    else if between 0xf1 0xf3 b
    then some (record { need = 3; bits = b - 0xf0; low = 0x80; high = 0xbf })
    else if b == 0xf4
    then some (record { need = 3; bits = 4; low = 0x80; high = 0x8f })
    else none

-- The `char`s of bytes that are UTF-8, after `need` more bytes of the `char` that is begun.
unfoldable pub scan_utf8 : ℕ → ℕ → ℕ → ℕ → List ℕ → Option Str
unfolding utf8_lead
scan_utf8 zero bits low high [] = some []
scan_utf8 (suc n) bits low high [] = none
scan_utf8 zero bits low high (b ∷ bytes) =
    let ascii = scan_utf8 0 0 0 0 bytes in
    if ltb b 0x80
    then (ascii >>=? λ s. some (b ∷ s))
    else elim (utf8_lead b) [ none ↦ none | some l ↦ scan_utf8 l.need l.bits l.low l.high bytes ]
scan_utf8 (suc n) bits low high (b ∷ bytes) =
    let bits' = bits * 64 + (b - 0x80) in
    let last = scan_utf8 0 0 0 0 bytes in
    let more = scan_utf8 n bits' 0x80 0xbf bytes in
    if between low high b
    then (if n == 0 then (last >>=? λ s. some (bits' ∷ s)) else more)
    else none

-- `from_utf8_unchecked`: bytes that are not UTF-8 are undefined behaviour.
unfoldable pub from_utf8_unchecked : List ℕ → Run Str
unfolding scan_utf8
from_utf8_unchecked bytes = elim (scan_utf8 0 0 0 0 bytes) [
  | none ↦ undefined_behaviour
  | some s ↦ pure s
]

-- `u8::to_ascii_lowercase`, by which `eq_ignore_ascii_case` compares.
abbrev pub to_ascii_lowercase : ℕ → ℕ
to_ascii_lowercase b = if leb b'A' b && leb b b'Z' then b + 32 else b

-- `(*a as u8).eq_ignore_ascii_case(&(*b as u8))`.
abbrev pub units_match : ℕ → ℕ → Bool
units_match a b = to_ascii_lowercase (a % 256) == to_ascii_lowercase (b % 256)

-- `a.iter().zip(b.iter()).all(…)`: the shorter one ends the comparison.
unfoldable pub all_match : List ℕ → List ℕ → Bool
all_match [] ys = true
all_match (x ∷ xs) [] = true
all_match (x ∷ xs) (y ∷ ys) = units_match x y && all_match xs ys

-- The extension as the log message shows it, at most 32 units.
unfoldable pub extension_text : IgStringRef → Run Str
unfolding from_utf8_unchecked
extension_text ext = if is_absent ext then pure (codes "null") else do
  slice ← from_raw_parts ext.data_ptr (as_usize ext.length)
  from_utf8_unchecked (map log_byte (take 32 slice))

unfoldable pub log_extension : IgStringRef → Run (Unit {0})
unfolding extension_text
log_extension ext = with_core λ core. do
  ext_str ← extension_text ext
  Methods.info (Methods.new core)
      (codes "ithmb-codec: can_handle_extension('" ++ ext_str ++ codes "')")

abbrev is_null_ptr : Ptr (List ℕ) → Bool
is_null_ptr null = true
is_null_ptr (ref units) = false

-- The loop over the known extensions.
unfoldable pub match_extensions : List IgStringRef → ℤ → List ℕ → Run ℤ
unfolding all_match
match_extensions [] length input = pure (pos 0)
match_extensions (known ∷ exts) length input =
    let continue = match_extensions exts length input in
    if not (eqb_ℤ known.length length) || is_null_ptr known.data_ptr then continue else do
      known_slice ← from_raw_parts known.data_ptr (as_usize known.length)
      if all_match input known_slice then pure (pos 1) else continue

unfoldable pub codec_can_handle_extension : IgStringRef → Run ℤ
unfolding log_extension match_extensions
codec_can_handle_extension ext = catch_unwind_or (pos 0) do
  log_extension ext
  if is_absent ext then pure (pos 0) else do
    stored ← ask (λ w. w.plugin_extensions)
    elim stored [
      | none ↦ pure (pos 0)
      | some exts ↦ do
        input ← from_raw_parts ext.data_ptr (as_usize ext.length)
        match_extensions exts ext.length input
    ]

unfoldable pub codec_can_handle_signature : ℕ → ℤ → Run ℤ
codec_can_handle_signature bytes len = pure (pos 0)

-- `i32::from_be_bytes`.
unfoldable pub i32_from_be_bytes : List ℕ → ℤ
i32_from_be_bytes (a ∷ b ∷ c ∷ d ∷ []) = signed (2 ^ 31) (a * 2 ^ 24 + b * 2 ^ 16 + c * 2 ^ 8 + d)
i32_from_be_bytes _ = pos 0

-- `formats.iter().find_map(|f| parse_dimensions(f.description))`.
unfoldable pub first_dimensions : List Str → Option (ℕ × ℕ)
unfolding parse_dimensions
first_dimensions [] = none
first_dimensions (d ∷ ds) =
    let rest = first_dimensions ds in elim (parse_dimensions d) [ none ↦ rest | some p ↦ some p ]

-- The fields that `fill_image_info` writes: all of them.
unfoldable pub image_info : ℕ → ℕ → ℤ → IgImageInfo
image_info width height file_size = record {
  width = as_i32 (pos width);
  height = as_i32 (pos height);
  pixel_format = pos 1;
  has_alpha = pos 1;
  hdr_transfer_fn = pos 0;
  color_space = pos 1;
  orientation = pos 0;
  frame_count = pos 1;
  file_size_bytes = file_size;
  icc_profile_data = null;
  icc_profile_size = pos 0;
}

unfoldable pub fill_image_info : ℕ → ℕ → ℕ → ℤ → Run (Unit {0})
unfolding image_info
fill_image_info info width height file_size =
    modify (λ w. record w {
      image_infos = update w.image_infos info (image_info width height file_size);
    })

-- The fallback: the profile database.
unfoldable pub load_from_profile : Env → ℕ → ℤ → ℕ → Run IgStatus
unfolding fill_image_info
load_from_profile env info prefix file_size = elim env.load_builtin [
  | none ↦ pure IgStatus.internal
  | some db ↦ elim (db prefix) [
    | none ↦ pure IgStatus.not_implemented
    | some profile ↦ do
      fill_image_info info (as_usize profile.display_width) (as_usize profile.display_height)
          (as_i64 (pos file_size))
      pure IgStatus.ok
  ]
]

-- From the format prefix on: the device profiles first.
unfoldable pub load_prefix : Env → ℕ → List ℕ → ℕ → Run IgStatus
unfolding load_from_profile i32_from_be_bytes first_dimensions
load_prefix env info prefix_bytes file_size =
    let prefix = i32_from_be_bytes prefix_bytes in
    elim (first_dimensions (env.find_formats_by_id prefix)) [
      | some p ↦ do fill_image_info info p.0 p.1 (as_i64 (pos file_size)); pure IgStatus.ok
      | none ↦ load_from_profile env info prefix file_size
    ]

-- The slot is the host's `IGImageInfo` variable at `info`.
unfoldable pub codec_load_metadata : Env → IgStringRef → ℕ → Run IgStatus
unfolding load_prefix
codec_load_metadata env path info = catch_unwind_or IgStatus.internal (
    if info == 0 then pure IgStatus.invalid_arg else do
      path_str ← utf16_to_string path
      elim path_str [
        | none ↦ pure IgStatus.invalid_arg
        | some p ↦ elim (read_ithmb_prefix env p) [
          | Result.err status ↦ pure status
          | Result.ok (prefix_bytes, file_size) ↦ load_prefix env info prefix_bytes file_size
        ]
      ])
