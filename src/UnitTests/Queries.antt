-- ===== src/UnitTests/Queries.antt =====
-- src/codec.rs, `mod tests`, in every environment that meets what a test relies on.
use imageglass_ithmb_plugin.Prelude.{
  ℕ, ◌≡◌, refl, ◌==◌, Option, none, some, Bool, false, not, ◌&&◌, codes,
}
use imageglass_ithmb_plugin.Prelude.Int.{ℤ, pos, eqb_ℤ}
use imageglass_ithmb_plugin.Prelude.Machine.{as_i32}
use imageglass_ithmb_plugin.Types.{IgStatus, null}
use imageglass_ithmb_plugin.AbiLayout.{size_of, ig_codec_capability_fields}
use imageglass_ithmb_plugin.World.{World, Run, done, ask, modify, update, deref, ◌>>=◌, ◌>>◌}
use imageglass_ithmb_plugin.Strings.{
  Str, encode_utf16, from_utf16_lossy, utf16_to_string, ig_string_ref_from_str,
}
use imageglass_ithmb_plugin.Env.{Env}
use imageglass_ithmb_plugin.Logging.{with_core}
use imageglass_ithmb_plugin.FileIo.{check_file_size, read_ithmb_prefix}
use imageglass_ithmb_plugin.State.{ensure_initialized, build_capability}
use imageglass_ithmb_plugin.Codec.{
  codec_get_capability, codec_can_handle_extension, codec_load_metadata,
}
use imageglass_ithmb_plugin.Codec.Dimensions.{parse_dimensions}
use imageglass_ithmb_plugin.UnitTests.{
  assert, eqb_status, is_null_ptr, stack_slot, zero_image_info, test_process, Passes,
}

-- `==` on `Option<(usize, usize)>`.
abbrev eqb_dimensions : Option (ℕ × ℕ) → Option (ℕ × ℕ) → Bool
eqb_dimensions none none = Bool.true
eqb_dimensions none (some q) = false
eqb_dimensions (some p) none = false
eqb_dimensions (some p) (some q) = p.0 == q.0 && p.1 == q.1

abbrev parses : Str → Option (ℕ × ℕ) → Run (Unit {0})
parses description expected = assert (eqb_dimensions (parse_dimensions description) expected)

unfoldable test_parse_dimensions : Run (Unit {0})
test_parse_dimensions = do
  parses (codes "720×480 YUV422 interlaced full-screen") (some (720, 480))
  parses (codes "320×240 RGB565 photo") (some (320, 240))
  parses (codes "128×128 RGB565 cover art") (some (128, 128))
  parses (codes "100×100 RGB565") (some (100, 100))
  parses (codes "720×480 YCbCr420 padded") (some (720, 480))
  parses (codes "56×56 RGB565") (some (56, 56))
  parses (codes "") none
  parses (codes "320×320, RGB555, 204800 bytes/frame") (some (320, 320))
  parses (codes "720×480, YCbCr420, 691200 bytes/frame") (some (720, 480))

test_parse_dimensions-Passes : (w : World) → test_parse_dimensions w ≡ done tt w
unfolding test_parse_dimensions parse_dimensions
test_parse_dimensions-Passes w = refl

module _ (version : Str) where
  unfoldable capability_rejects_null_output_slot : Run (Unit {0})
  capability_rejects_null_output_slot = do
    ensure_initialized version
    status ← codec_get_capability 0
    assert (eqb_status status IgStatus.invalid_arg)

  capability_rejects_null_output_slot-Passes :
      (w : World) → Passes capability_rejects_null_output_slot w
  unfolding capability_rejects_null_output_slot ensure_initialized codec_get_capability eqb_status
  capability_rejects_null_output_slot-Passes w = tt

  unfoldable capability_reports_v110_contract : Run (Unit {0})
  capability_reports_v110_contract = do
    ensure_initialized version
    modify (λ w. record w { capability_slots = update w.capability_slots stack_slot null })
    status ← codec_get_capability stack_slot
    assert (eqb_status status IgStatus.ok)
    cap ← ask (λ w. w.capability_slots stack_slot)
    assert (not (is_null_ptr cap))
    capability ← deref cap
    assert (eqb_ℤ capability.struct_size (as_i32 (pos (size_of ig_codec_capability_fields))))
    assert (eqb_ℤ capability.supports_static_raster_decoding (pos 1))
    assert (eqb_ℤ capability.supports_animation_decoding (pos 0))
    assert (eqb_ℤ capability.supports_static_raster_encoding (pos 0))
    assert (eqb_ℤ capability.decode_extension_count (pos 2))
    assert (eqb_ℤ capability.encode_extension_count (pos 0))
    assert (is_null_ptr capability.encode_extensions)
    assert (eqb_ℤ capability.metadata_priority (pos 200))
    assert (eqb_ℤ capability.decode_priority (pos 200))

  capability_reports_v110_contract-Passes : Passes capability_reports_v110_contract test_process
  unfolding capability_reports_v110_contract ensure_initialized build_capability size_of
      codec_get_capability eqb_status
  capability_reports_v110_contract-Passes = tt

  -- One call with the string reference of a text.
  abbrev answers : Str → ℤ → Run (Unit {0})
  answers text expected = do
    result ← codec_can_handle_extension (ig_string_ref_from_str text).1
    assert (eqb_ℤ result expected)

  unfoldable can_handle_extension_matches_known_extensions : Run (Unit {0})
  can_handle_extension_matches_known_extensions = do
    ensure_initialized version
    ithmb_hit ← codec_can_handle_extension (ig_string_ref_from_str (codes ".ithmb")).1
    ipm_hit ← codec_can_handle_extension (ig_string_ref_from_str (codes ".ipm")).1
    assert (eqb_ℤ ithmb_hit (pos 1))
    assert (eqb_ℤ ipm_hit (pos 1))

  can_handle_extension_matches_known_extensions-Passes :
      Passes can_handle_extension_matches_known_extensions test_process
  unfolding can_handle_extension_matches_known_extensions ensure_initialized
      codec_can_handle_extension ig_string_ref_from_str encode_utf16 with_core
  can_handle_extension_matches_known_extensions-Passes = tt

  unfoldable can_handle_extension_is_case_insensitive : Run (Unit {0})
  can_handle_extension_is_case_insensitive = do
    ensure_initialized version
    answers (codes ".ITHMB") (pos 1)
    answers (codes ".iThMb") (pos 1)
    answers (codes ".IPM") (pos 1)
    answers (codes ".IT HMB") (pos 0)

  can_handle_extension_is_case_insensitive-Passes :
      Passes can_handle_extension_is_case_insensitive test_process
  unfolding can_handle_extension_is_case_insensitive ensure_initialized codec_can_handle_extension
      ig_string_ref_from_str encode_utf16 with_core
  can_handle_extension_is_case_insensitive-Passes = tt

  unfoldable can_handle_extension_rejects_unmatched_and_empty : Run (Unit {0})
  can_handle_extension_rejects_unmatched_and_empty = do
    ensure_initialized version
    answers (codes ".jpg") (pos 0)
    rejected ← codec_can_handle_extension (record { data_ptr = null; length = pos 0 })
    assert (eqb_ℤ rejected (pos 0))
    answers (codes "") (pos 0)

  can_handle_extension_rejects_unmatched_and_empty-Passes :
      Passes can_handle_extension_rejects_unmatched_and_empty test_process
  unfolding can_handle_extension_rejects_unmatched_and_empty ensure_initialized
      codec_can_handle_extension ig_string_ref_from_str encode_utf16 with_core
  can_handle_extension_rejects_unmatched_and_empty-Passes = tt

  module _ (env : Env) where
    unfoldable load_metadata_rejects_null_info : Run (Unit {0})
    load_metadata_rejects_null_info = do
      ensure_initialized version
      let path_ref = (ig_string_ref_from_str (codes "/nonexistent.ithmb")).1
      status ← codec_load_metadata env path_ref 0
      assert (eqb_status status IgStatus.invalid_arg)

    load_metadata_rejects_null_info-Passes : (w : World) → Passes load_metadata_rejects_null_info w
    unfolding load_metadata_rejects_null_info ensure_initialized codec_load_metadata eqb_status
    load_metadata_rejects_null_info-Passes w = tt

    abbrev missing_path : Str
    missing_path = codes "/nonexistent/definitely-missing.ithmb"

    unfoldable load_metadata_missing_file_is_io_error : Run (Unit {0})
    load_metadata_missing_file_is_io_error = do
      ensure_initialized version
      modify (λ w. record w { image_infos = update w.image_infos stack_slot zero_image_info })
      status ← codec_load_metadata env (ig_string_ref_from_str missing_path).1 stack_slot
      assert (eqb_status status IgStatus.io_error)

    load_metadata_missing_file_is_io_error-Passes :
        (w : World)
        → env.metadata_len missing_path ≡ none
        → Passes load_metadata_missing_file_is_io_error w
    unfolding load_metadata_missing_file_is_io_error ensure_initialized codec_load_metadata
        utf16_to_string from_utf16_lossy ig_string_ref_from_str encode_utf16 read_ithmb_prefix
        check_file_size eqb_status
    load_metadata_missing_file_is_io_error-Passes w missing = rw (Passes, missing) tt
