-- ===== src/Types/Structs.antt =====
-- src/types.rs: the structs that cross the ABI. A field named `data` in the source is `data_ptr`.
use imageglass_ithmb_plugin.Prelude.{ℕ, List, Option}
use imageglass_ithmb_plugin.Prelude.Int.{ℤ, pos}

-- A pointer to memory that nobody writes while the plugin reads it: null, or a pointer to a value.
-- Pointers whose identity matters, such as those of pixel buffers, are addresses instead, and 0 is
-- null.
pub data Ptr {ℓ} (A : Type ℓ) : Type ℓ where
  null : Ptr A
  ref : A → Ptr A

-- `data` points at the UTF-16 code units that are readable from there on.
pub record IgStringRef : Type 0 where
  pub data_ptr : Ptr (List ℕ)
  pub length : ℤ

pub record IgPixelBuffer : Type 0 where
  pub data_ptr : ℕ
  pub width : ℤ
  pub height : ℤ
  pub stride : ℤ
  pub pixel_format : ℤ
  pub release_context : ℕ

pub record IgImageInfo : Type 0 where
  pub width : ℤ
  pub height : ℤ
  pub pixel_format : ℤ
  pub has_alpha : ℤ
  pub hdr_transfer_fn : ℤ
  pub color_space : ℤ
  pub orientation : ℤ
  pub frame_count : ℤ
  pub file_size_bytes : ℤ
  pub icc_profile_data : Ptr (List ℕ)
  pub icc_profile_size : ℤ

pub record IgCodecCapability : Type 0 where
  pub struct_size : ℤ
  pub codec_id : IgStringRef
  pub codec_name : IgStringRef
  pub metadata_priority : ℤ
  pub decode_priority : ℤ
  pub supports_metadata : ℤ
  pub supports_color_profiles : ℤ
  pub supports_static_raster_decoding : ℤ
  pub supports_animation_decoding : ℤ
  pub decode_extension_count : ℤ
  pub decode_extensions : Ptr (List IgStringRef)
  pub supports_static_raster_encoding : ℤ
  pub supports_multi_frame_encoding : ℤ
  pub encode_priority : ℤ
  pub encode_extension_count : ℤ
  pub encode_extensions : Ptr (List IgStringRef)

pub record IgPluginInfo : Type 0 where
  pub plugin_id : IgStringRef
  pub name : IgStringRef
  pub version : IgStringRef
  pub abi_version : ℤ
  pub codec_count : ℤ

-- A function of the host is its address.
pub record IgHostCoreApi : Type 0 where
  pub log : Option ℕ
  pub alloc : Option ℕ
  pub free : Option ℕ
  pub is_cancellation_requested : Option ℕ
  pub get_config_directory : Option ℕ

pub record IgHostApi : Type 0 where
  pub struct_size : ℤ
  pub abi_version : ℤ
  pub core : Ptr IgHostCoreApi

-- The functions of the plugin that its tables point at.
pub data CodecFn : Type 0 where
  codec_get_capability codec_can_handle_extension codec_can_handle_signature : CodecFn
  codec_load_metadata codec_decode_static_raster codec_free_pixel_buffer : CodecFn

pub data PluginFn : Type 0 where
  plugin_get_codec plugin_initialize plugin_shutdown plugin_self_test : PluginFn

pub record IgCodecApi : Type 0 where
  pub struct_size : ℤ
  pub get_capability : Option CodecFn
  pub can_handle_extension : Option CodecFn
  pub can_handle_signature : Option CodecFn
  pub load_metadata : Option CodecFn
  pub decode_static_raster : Option CodecFn
  pub free_pixel_buffer : Option CodecFn
  pub get_animation_info : Option CodecFn
  pub free_animation_info : Option CodecFn
  pub decode_animation_frame : Option CodecFn
  pub encode_static_raster : Option CodecFn
  pub begin_encode_multi_frame : Option CodecFn
  pub encode_frame : Option CodecFn
  pub end_encode_multi_frame : Option CodecFn

pub record IgPluginApi : Type 0 where
  pub struct_size : ℤ
  pub abi_version : ℤ
  pub info : IgPluginInfo
  pub get_codec : Option PluginFn
  pub initialize : Option PluginFn
  pub shutdown : Option PluginFn
  pub self_test : Option PluginFn

-- An absent string.
unfoldable pub ig_string_ref_null : IgStringRef
ig_string_ref_null = record { data_ptr = null; length = pos 0 }
