-- ===== src/UnitTests/Entries.antt =====
-- src/lib.rs, `mod tests`. The process-wide statics are those of the state that a test starts in.
use imageglass_ithmb_plugin.Prelude.{◌==◌, Bool, false, not, ◌&&◌, [], ◌∷◌, codes}
use imageglass_ithmb_plugin.Prelude.Int.{pos, eqb_ℤ, ltb_ℤ}
use imageglass_ithmb_plugin.Prelude.Machine.{as_i32}
use imageglass_ithmb_plugin.Types.{IgStatus, null, ref, IgHostApi}
use imageglass_ithmb_plugin.AbiLayout.{
  size_of, ig_host_api_fields, ig_plugin_api_fields, ig_codec_api_fields,
  ig_codec_capability_fields, ig_animation_info_fields, ig_animation_frame_info_fields,
}
use imageglass_ithmb_plugin.World.{World, Run, ask, modify, update, deref, unwrap, ◌>>=◌, ◌>>◌}
use imageglass_ithmb_plugin.Strings.{
  Str, encode_utf16, from_utf16_lossy, utf16_to_string, ig_string_ref_from_str,
}
use imageglass_ithmb_plugin.State.{ig_plugin_abi_version, ensure_initialized, build_plugin_state}
use imageglass_ithmb_plugin.Plugin.{ig_plugin_get_api, plugin_get_codec, plugin_self_test}
use imageglass_ithmb_plugin.UnitTests.{
  assert, eqb_status, is_null_ptr, is_some, stack_slot, test_process, Passes,
}

abbrev leaked_host_api : IgHostApi
leaked_host_api = record {
  struct_size = as_i32 (pos (size_of ig_host_api_fields));
  abi_version = ig_plugin_abi_version;
  core = null;
}

module _ (version : Str) where
  unfoldable entry_point_rejects_null_host_api : Run (Unit {0})
  entry_point_rejects_null_host_api = do
    api ← ig_plugin_get_api version ig_plugin_abi_version null
    assert (is_null_ptr api)

  entry_point_rejects_null_host_api-Passes :
      (w : World) → Passes entry_point_rejects_null_host_api w
  unfolding entry_point_rejects_null_host_api ig_plugin_get_api
  entry_point_rejects_null_host_api-Passes w = tt

  unfoldable entry_point_rejects_mismatched_abi_major : Run (Unit {0})
  entry_point_rejects_mismatched_abi_major = do
    api ← ig_plugin_get_api version (pos 2000000) (ref leaked_host_api)
    assert (is_null_ptr api)

  entry_point_rejects_mismatched_abi_major-Passes :
      (w : World) → Passes entry_point_rejects_mismatched_abi_major w
  unfolding entry_point_rejects_mismatched_abi_major ig_plugin_get_api
  entry_point_rejects_mismatched_abi_major-Passes w = tt

  unfoldable entry_point_rejects_undersized_host_api : Run (Unit {0})
  entry_point_rejects_undersized_host_api = do
    let host = record leaked_host_api { struct_size = pos 4 }
    api ← ig_plugin_get_api version ig_plugin_abi_version (ref host)
    assert (is_null_ptr api)

  entry_point_rejects_undersized_host_api-Passes :
      (w : World) → Passes entry_point_rejects_undersized_host_api w
  unfolding entry_point_rejects_undersized_host_api ig_plugin_get_api size_of
  entry_point_rejects_undersized_host_api-Passes w = tt

  -- The calls through the two tables are those of the functions that `PluginFn` and `CodecFn` name.
  unfoldable entry_point_returns_valid_plugin_api : Run (Unit {0})
  entry_point_returns_valid_plugin_api = do
    api ← ig_plugin_get_api version ig_plugin_abi_version (ref leaked_host_api)
    assert (not (is_null_ptr api))
    plugin ← deref api
    assert (eqb_ℤ plugin.struct_size (as_i32 (pos (size_of ig_plugin_api_fields))))
    assert (eqb_ℤ plugin.abi_version ig_plugin_abi_version)
    assert (eqb_ℤ plugin.info.codec_count (pos 1))
    assert (is_some plugin.get_codec)
    assert (is_some plugin.initialize)
    assert (is_some plugin.shutdown)
    assert (is_some plugin.self_test)
    modify (λ w. record w { codec_slots = update w.codec_slots stack_slot null })
    get_codec ← unwrap plugin.get_codec
    status ← plugin_get_codec (pos 0) stack_slot
    assert (eqb_status status IgStatus.ok)
    slot ← ask (λ w. w.codec_slots stack_slot)
    assert (not (is_null_ptr slot))
    codec ← deref slot
    assert (eqb_ℤ codec.struct_size (as_i32 (pos (size_of ig_codec_api_fields))))
    assert (is_some codec.get_capability)
    assert (is_some codec.can_handle_extension)
    assert (is_some codec.load_metadata)
    assert (is_some codec.decode_static_raster)
    assert (is_some codec.free_pixel_buffer)
    assert (not (is_some codec.get_animation_info))
    assert (not (is_some codec.encode_static_raster))

  entry_point_returns_valid_plugin_api-Passes :
      Passes entry_point_returns_valid_plugin_api test_process
  unfolding entry_point_returns_valid_plugin_api ig_plugin_get_api size_of ensure_initialized
      build_plugin_state plugin_get_codec eqb_status
  entry_point_returns_valid_plugin_api-Passes = tt

  unfoldable self_test_succeeds : Run (Unit {0})
  self_test_succeeds = do
    api ← ig_plugin_get_api version ig_plugin_abi_version (ref leaked_host_api)
    assert (not (is_null_ptr api))
    plugin ← deref api
    self_test ← unwrap plugin.self_test
    status ← plugin_self_test
    assert (eqb_status status IgStatus.ok)

  self_test_succeeds-Passes : Passes self_test_succeeds test_process
  unfolding self_test_succeeds ig_plugin_get_api size_of ensure_initialized build_plugin_state
      plugin_self_test eqb_status
  self_test_succeeds-Passes = tt

-- `==` on texts.
abbrev eqb_str : Str → Str → Bool
eqb_str [] [] = Bool.true
eqb_str [] (d ∷ t) = false
eqb_str (c ∷ s) [] = false
eqb_str (c ∷ s) (d ∷ t) = c == d && eqb_str s t

unfoldable test_utf16_roundtrip : Run (Unit {0})
test_utf16_roundtrip = do
  let original = codes "Hello, ithmb!"
  let string_ref = (ig_string_ref_from_str original).1
  assert (ltb_ℤ (pos 0) string_ref.length)
  decoded ← utf16_to_string string_ref
  text ← unwrap decoded
  assert (eqb_str text original)

test_utf16_roundtrip-Passes : (w : World) → Passes test_utf16_roundtrip w
unfolding test_utf16_roundtrip ig_string_ref_from_str encode_utf16 utf16_to_string from_utf16_lossy
test_utf16_roundtrip-Passes w = tt

unfoldable test_abi_struct_sizes : Run (Unit {0})
test_abi_struct_sizes = do
  assert (size_of ig_codec_api_fields == 112)
  assert (size_of ig_codec_capability_fields == 104)
  assert (size_of ig_animation_info_fields == 16)
  assert (size_of ig_animation_frame_info_fields == 8)

test_abi_struct_sizes-Passes : (w : World) → Passes test_abi_struct_sizes w
unfolding test_abi_struct_sizes size_of
test_abi_struct_sizes-Passes w = tt
