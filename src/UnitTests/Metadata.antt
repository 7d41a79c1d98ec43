-- ===== src/UnitTests/Metadata.antt =====
-- src/codec.rs, the unit test that writes a file and asks for its metadata.
use imageglass_ithmb_plugin.Prelude.{◌≡◌, some, [], ◌∷◌, codes}
use imageglass_ithmb_plugin.Prelude.Int.{pos, eqb_ℤ}
use imageglass_ithmb_plugin.Types.{IgStatus}
use imageglass_ithmb_plugin.World.{World, Run, ask, modify, update, ◌>>=◌, ◌>>◌}
use imageglass_ithmb_plugin.Strings.{Str, ig_string_ref_from_str}
use imageglass_ithmb_plugin.Env.{Env}
use imageglass_ithmb_plugin.FileIo.{check_file_size, read_ithmb_prefix}
use imageglass_ithmb_plugin.State.{ensure_initialized}
use imageglass_ithmb_plugin.Codec.{
  codec_load_metadata, first_dimensions, i32_from_be_bytes, image_info,
}
use imageglass_ithmb_plugin.Codec.Dimensions.{parse_dimensions}
use imageglass_ithmb_plugin.UnitTests.{assert, eqb_status, stack_slot, zero_image_info, Passes}
use imageglass_ithmb_plugin.World.{unwrap, pure}
use imageglass_ithmb_plugin.Strings.RoundTrip.{utf16_to_string-ig_string_ref_from_str}
use imageglass_ithmb_plugin.UnitTests.Disk.{FileSystem, env_on, fixture_path, Stores, IsCarried}

module _ {Disk : Type 0} (fs : FileSystem Disk) (disk : Disk) (env : Env) (version : Str) where
  -- The disk is that after the file is removed.
  unfoldable load_metadata_reads_known_profile_fixture : Run Disk
  load_metadata_reads_known_profile_fixture = do
    ensure_initialized version
    let path = fixture_path fs (codes "ithmb-cabi-meta-")
    written ← unwrap (fs.write disk path (0x00 ∷ 0x00 ∷ 0x04 ∷ 0x00 ∷ []))
    modify (λ w. record w { image_infos = update w.image_infos stack_slot zero_image_info })
    status ← codec_load_metadata (env_on fs written env) (ig_string_ref_from_str path).1 stack_slot
    let removed = fs.remove_file written path
    assert (eqb_status status IgStatus.ok)
    info ← ask (λ w. w.image_infos stack_slot)
    assert (eqb_ℤ info.width (pos 320))
    assert (eqb_ℤ info.height (pos 240))
    assert (eqb_ℤ info.file_size_bytes (pos 4))
    assert (eqb_ℤ info.pixel_format (pos 1))
    assert (eqb_ℤ info.has_alpha (pos 1))
    pure removed

  -- The file can be written, and the device profiles describe its prefix.
  load_metadata_reads_known_profile_fixture-Passes :
      (w : World) (written : Disk)
      → Stores fs
      → IsCarried (fixture_path fs (codes "ithmb-cabi-meta-"))
      → fs.write disk (fixture_path fs (codes "ithmb-cabi-meta-")) (0 ∷ 0 ∷ 4 ∷ 0 ∷ [])
        ≡ some written
      → env.find_formats_by_id (pos 1024) ≡ codes "320×240 RGB565 photo" ∷ []
      → Passes load_metadata_reads_known_profile_fixture w
  unfolding load_metadata_reads_known_profile_fixture ensure_initialized codec_load_metadata
      read_ithmb_prefix check_file_size eqb_status first_dimensions parse_dimensions
      i32_from_be_bytes image_info
  load_metadata_reads_known_profile_fixture-Passes w written stores path stored formats =
      let p = fixture_path fs (codes "ithmb-cabi-meta-") in
      rw
        (
          Passes,
          stored,
          utf16_to_string-ig_string_ref_from_str p _ path.not_empty path.scalar path.short,
          stores.sized disk written p _ stored,
          stores.opens disk written p _ stored,
          formats,
        )
        tt
