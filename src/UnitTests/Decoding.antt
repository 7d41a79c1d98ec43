-- ===== src/UnitTests/Decoding.antt =====
-- src/decode.rs, `mod tests`, in every environment that meets what a test relies on.
use imageglass_ithmb_plugin.Prelude.{◌≡◌, none, codes}
use imageglass_ithmb_plugin.Prelude.Int.{pos}
use imageglass_ithmb_plugin.Types.{IgStatus}
use imageglass_ithmb_plugin.World.{World, Run, modify, update, ◌>>=◌, ◌>>◌}
use imageglass_ithmb_plugin.Strings.{
  Str, encode_utf16, from_utf16_lossy, utf16_to_string, ig_string_ref_from_str,
}
use imageglass_ithmb_plugin.Env.{Env}
use imageglass_ithmb_plugin.Logging.{with_core}
use imageglass_ithmb_plugin.FileIo.{check_file_size, read_ithmb_file}
use imageglass_ithmb_plugin.State.{ensure_initialized}
use imageglass_ithmb_plugin.Decode.{codec_decode_static_raster}
use imageglass_ithmb_plugin.UnitTests.{
  assert, eqb_status, stack_slot, zero_pixel_buffer, test_process, Passes,
}

module _ (env : Env) (version : Str) where
  unfoldable decode_rejects_null_buffer : Run (Unit {0})
  decode_rejects_null_buffer = do
    ensure_initialized version
    let path_ref = (ig_string_ref_from_str (codes "/nonexistent.ithmb")).1
    status ← codec_decode_static_raster env path_ref (pos 0) 0
    assert (eqb_status status IgStatus.invalid_arg)

  decode_rejects_null_buffer-Passes : (w : World) → Passes decode_rejects_null_buffer w
  unfolding decode_rejects_null_buffer ensure_initialized codec_decode_static_raster eqb_status
  decode_rejects_null_buffer-Passes w = tt

  unfoldable decode_rejects_nonzero_frame_index : Run (Unit {0})
  decode_rejects_nonzero_frame_index = do
    ensure_initialized version
    let path_ref = (ig_string_ref_from_str (codes "/nonexistent.ithmb")).1
    modify (λ w. record w { pixel_buffers = update w.pixel_buffers stack_slot zero_pixel_buffer })
    status ← codec_decode_static_raster env path_ref (pos 1) stack_slot
    assert (eqb_status status IgStatus.invalid_arg)

  decode_rejects_nonzero_frame_index-Passes :
      (w : World) → Passes decode_rejects_nonzero_frame_index w
  unfolding decode_rejects_nonzero_frame_index ensure_initialized codec_decode_static_raster
      utf16_to_string from_utf16_lossy ig_string_ref_from_str encode_utf16 eqb_status
  decode_rejects_nonzero_frame_index-Passes w = tt

  abbrev missing_path : Str
  missing_path = codes "/nonexistent/definitely-missing.ithmb"

  unfoldable decode_missing_file_is_io_error : Run (Unit {0})
  decode_missing_file_is_io_error = do
    ensure_initialized version
    let path_ref = (ig_string_ref_from_str missing_path).1
    modify (λ w. record w { pixel_buffers = update w.pixel_buffers stack_slot zero_pixel_buffer })
    status ← codec_decode_static_raster env path_ref (pos 0) stack_slot
    assert (eqb_status status IgStatus.io_error)

  decode_missing_file_is_io_error-Passes :
      env.metadata_len missing_path ≡ none → Passes decode_missing_file_is_io_error test_process
  unfolding decode_missing_file_is_io_error ensure_initialized codec_decode_static_raster
      utf16_to_string from_utf16_lossy ig_string_ref_from_str encode_utf16 read_ithmb_file
      check_file_size eqb_status with_core
  decode_missing_file_is_io_error-Passes missing = rw (Passes, missing) tt
