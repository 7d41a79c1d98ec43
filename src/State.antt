-- ===== src/State.antt =====
-- src/state.rs: the plugin's statics and their initialization. A `OnceLock` is set once; a pointer
-- to immutable data of the plugin is that data.
pub mod Init
use imageglass_ithmb_plugin.Prelude.{ℕ, [], ◌∷◌, List, Option, none, some, length, codes}
use imageglass_ithmb_plugin.Prelude.Int.{ℤ, pos}
use imageglass_ithmb_plugin.Prelude.Machine.{as_i32}
use imageglass_ithmb_plugin.Types.{
  Ptr, null, ref, IgStringRef, IgCodecCapability, IgCodecApi, IgPluginApi, CodecFn, PluginFn,
  ig_string_ref_null,
}
use imageglass_ithmb_plugin.World.{World, PluginState, Run, modify}
use imageglass_ithmb_plugin.Registry.{new}
use imageglass_ithmb_plugin.Strings.{Str, encode_utf16}
use imageglass_ithmb_plugin.AbiLayout.{
  size_of, ig_codec_api_fields, ig_plugin_api_fields, ig_codec_capability_fields,
}

-- v1.0.0.0.
abbrev pub ig_plugin_abi_version : ℤ
ig_plugin_abi_version = pos 1000000

abbrev pub ext_ithmb_data : List ℕ
ext_ithmb_data = b'.' ∷ b'i' ∷ b't' ∷ b'h' ∷ b'm' ∷ b'b' ∷ []

abbrev pub ext_ipm_data : List ℕ
ext_ipm_data = b'.' ∷ b'i' ∷ b'p' ∷ b'm' ∷ []

-- A string reference to units of the plugin: `as_ptr()`, and `len() as i32`.
abbrev pub string_ref_of : List ℕ → IgStringRef
string_ref_of units = record { data_ptr = ref units; length = as_i32 (pos (length units)) }

abbrev pub extensions_array : List IgStringRef
extensions_array = string_ref_of ext_ithmb_data ∷ string_ref_of ext_ipm_data ∷ []

unfoldable pub codec_api : IgCodecApi
codec_api = record {
  struct_size = as_i32 (pos (size_of ig_codec_api_fields));
  get_capability = some CodecFn.codec_get_capability;
  can_handle_extension = some CodecFn.codec_can_handle_extension;
  can_handle_signature = some CodecFn.codec_can_handle_signature;
  load_metadata = some CodecFn.codec_load_metadata;
  decode_static_raster = some CodecFn.codec_decode_static_raster;
  free_pixel_buffer = some CodecFn.codec_free_pixel_buffer;
  get_animation_info = none;
  free_animation_info = none;
  decode_animation_frame = none;
  encode_static_raster = none;
  begin_encode_multi_frame = none;
  encode_frame = none;
  end_encode_multi_frame = none;
}

unfoldable pub plugin_api : List ℕ → List ℕ → List ℕ → IgPluginApi
plugin_api plugin_id plugin_name plugin_version = record {
  struct_size = as_i32 (pos (size_of ig_plugin_api_fields));
  abi_version = ig_plugin_abi_version;
  info = record {
    plugin_id = string_ref_of plugin_id;
    name = string_ref_of plugin_name;
    version = string_ref_of plugin_version;
    abi_version = ig_plugin_abi_version;
    codec_count = pos 1;
  };
  get_codec = some PluginFn.plugin_get_codec;
  initialize = some PluginFn.plugin_initialize;
  shutdown = some PluginFn.plugin_shutdown;
  self_test = some PluginFn.plugin_self_test;
}

-- The package's version is fixed when the crate is built: a parameter.
unfoldable pub build_plugin_state : Str → PluginState
unfolding codec_api plugin_api
build_plugin_state version =
    let plugin_id = encode_utf16 (codes "ithmb-codec") in
    let plugin_name = encode_utf16 (codes "iThmb Codec") in
    let plugin_version = encode_utf16 version in
    let cap_name = encode_utf16 (codes "iThmb Codec") in
    record {
      plugin_id = plugin_id;
      plugin_name = plugin_name;
      plugin_version = plugin_version;
      cap_name = cap_name;
      codec_api = codec_api;
      plugin_api = plugin_api plugin_id plugin_name plugin_version;
    }

-- `PLUGIN_EXTENSIONS.get().map_or(null, …)`, and the two string references of the state.
abbrev extensions_ptr : Option (List IgStringRef) → Ptr (List IgStringRef)
extensions_ptr none = null
extensions_ptr (some e) = ref e

abbrev codec_id_ref : Option PluginState → IgStringRef
codec_id_ref none = ig_string_ref_null
codec_id_ref (some s) = string_ref_of s.plugin_id

abbrev codec_name_ref : Option PluginState → IgStringRef
codec_name_ref none = ig_string_ref_null
codec_name_ref (some s) = string_ref_of s.cap_name

unfoldable pub build_capability : World → IgCodecCapability
build_capability w = record {
  struct_size = as_i32 (pos (size_of ig_codec_capability_fields));
  codec_id = codec_id_ref w.plugin_state;
  codec_name = codec_name_ref w.plugin_state;
  metadata_priority = pos 200;
  decode_priority = pos 200;
  supports_metadata = pos 1;
  supports_color_profiles = pos 0;
  supports_static_raster_decoding = pos 1;
  supports_animation_decoding = pos 0;
  decode_extension_count = pos 2;
  decode_extensions = extensions_ptr w.plugin_extensions;
  supports_static_raster_encoding = pos 0;
  supports_multi_frame_encoding = pos 0;
  encode_priority = pos 0;
  encode_extension_count = pos 0;
  encode_extensions = null;
}

-- `OnceLock::get_or_init`: the value that is there, or the new one.
abbrev pub get_or_init {ℓ} : {A : Type ℓ} → Option A → A → Option A
get_or_init none a = some a
get_or_init (some b) a = some b

-- The four steps of `ensure_initialized`, in order.
unfoldable pub init_extensions : World → World
init_extensions w = record w {
  plugin_extensions = get_or_init w.plugin_extensions extensions_array;
}

unfoldable pub init_plugin_state : Str → World → World
init_plugin_state version w = record w {
  plugin_state = get_or_init w.plugin_state (build_plugin_state version);
}

unfoldable pub init_capability : World → World
init_capability w = record w { capability = get_or_init w.capability (build_capability w) }

unfoldable pub init_registry : World → World
init_registry w = record w { buffer_registry = get_or_init w.buffer_registry new }

unfoldable pub initialized : Str → World → World
unfolding init_extensions init_plugin_state init_capability init_registry
initialized version w =
    init_registry (init_capability (init_plugin_state version (init_extensions w)))

unfoldable pub ensure_initialized : Str → Run (Unit {0})
unfolding initialized
ensure_initialized version = modify (initialized version)
