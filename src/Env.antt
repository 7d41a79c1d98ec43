-- ===== src/Env.antt =====
-- What the plugin calls and does not implement: the file system, the `ithmb_core` crate and the C
-- allocator. Each is a function that a caller of the model chooses.
use imageglass_ithmb_plugin.Prelude.{ℕ, List, Option, Bool}
use imageglass_ithmb_plugin.Prelude.Int.{ℤ}
use imageglass_ithmb_plugin.Prelude.HashMap.{HashMap}
use imageglass_ithmb_plugin.Types.{DecodeError}
use imageglass_ithmb_plugin.World.{Block}
use imageglass_ithmb_plugin.Strings.{Str}

-- The image that `decode_ithmb` returns. Its dimensions are integers of a type of that crate.
pub record DecodedImage : Type 0 where
  pub width : ℤ
  pub height : ℤ
  pub pixels : List ℕ

pub data DecodeResult : Type 0 where
  decoded : DecodedImage → DecodeResult
  failed : DecodeError → DecodeResult
  panics : DecodeResult

-- A profile of the database, of which the plugin reads the display size.
pub record Profile : Type 0 where
  pub display_width : ℤ
  pub display_height : ℤ

pub record Env : Type 0 where
  -- `std::fs::metadata(path)`, and the length that it reports.
  pub metadata_len : Str → Option ℕ
  -- `std::fs::read(path)`.
  pub read_file : Str → Option (List ℕ)
  -- `File::open(path)`, and the bytes that can be read from the file.
  pub open_file : Str → Option (List ℕ)
  -- `ithmb_core::decode_ithmb(bytes, canceled)`.
  pub decode_ithmb : List ℕ → Bool → DecodeResult
  -- `ithmb_core::device_profiles::find_formats_by_id(id)`: the descriptions.
  pub find_formats_by_id : ℤ → List Str
  -- `ProfileDb::load_builtin()`, and `get(prefix)` of what it loads.
  pub load_builtin : Option (ℤ → Option Profile)
  -- `libc::malloc(size)`, where some blocks are live: an address, or 0.
  pub malloc : HashMap Block → ℕ → ℕ
