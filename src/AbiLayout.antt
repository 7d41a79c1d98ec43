-- ===== src/AbiLayout.antt =====
-- src/types.rs: the `#[repr(C)]` layout of the ABI structs on a 64-bit target, as `size_of` sees it.
pub mod Offsets
use imageglass_ithmb_plugin.Prelude.{ℕ, ◌+◌, ◌-◌, ◌*◌, ◌/◌, List, [], ◌∷◌, ltb, if◌then◌else◌}

-- A type of the ABI is its size and its alignment.
pub record CType : Type 0 where
  pub size : ℕ
  pub align : ℕ

abbrev pub int32 : CType
int32 = record { size = 4; align = 4 }

abbrev pub int64 : CType
int64 = record { size = 8; align = 8 }

-- Pointers, and optional function pointers.
abbrev pub pointer : CType
pointer = record { size = 8; align = 8 }

-- The next offset that is a multiple of an alignment.
unfoldable pub align_up : ℕ → ℕ → ℕ
align_up offset align = (offset + (align - 1)) / align * align

abbrev larger : ℕ → ℕ → ℕ
larger a b = if ltb a b then b else a

-- The offsets of the fields behind `offset`.
unfoldable pub offsets : ℕ → List CType → List ℕ
unfolding align_up
offsets offset [] = []
offsets offset (t ∷ ts) = let start = align_up offset t.align in start ∷ offsets (start + t.size) ts

-- Where the last field ends, and the largest alignment.
unfoldable pub fields_end : ℕ → List CType → ℕ
unfolding align_up
fields_end offset [] = offset
fields_end offset (t ∷ ts) = fields_end (align_up offset t.align + t.size) ts

unfoldable pub fields_align : List CType → ℕ
fields_align [] = 1
fields_align (t ∷ ts) = larger t.align (fields_align ts)

-- A `#[repr(C)]` struct of these fields.
unfoldable pub struct : List CType → CType
unfolding fields_end fields_align align_up
struct ts = let a = fields_align ts in record { size = align_up (fields_end 0 ts) a; align = a }

abbrev pub ig_string_ref_fields : List CType
ig_string_ref_fields = pointer ∷ int32 ∷ []

abbrev pub ig_string_ref : CType
unfolding struct
ig_string_ref = struct ig_string_ref_fields

abbrev pub ig_pixel_buffer_fields : List CType
ig_pixel_buffer_fields = pointer ∷ int32 ∷ int32 ∷ int32 ∷ int32 ∷ pointer ∷ []

abbrev pub ig_image_info_fields : List CType
ig_image_info_fields =
    int32 ∷ int32 ∷ int32 ∷ int32 ∷ int32 ∷ int32 ∷ int32 ∷ int32 ∷ int64 ∷ pointer ∷ int32 ∷ []

abbrev pub ig_animation_frame_info_fields : List CType
ig_animation_frame_info_fields = int32 ∷ int32 ∷ []

abbrev pub ig_animation_info_fields : List CType
ig_animation_info_fields = int32 ∷ int32 ∷ pointer ∷ []

abbrev pub ig_encode_options_fields : List CType
unfolding struct
ig_encode_options_fields = int32 ∷ int32 ∷ int32 ∷ int32 ∷ ig_string_ref ∷ pointer ∷ int32 ∷ []

abbrev pub ig_multi_frame_encode_info_fields : List CType
ig_multi_frame_encode_info_fields = int32 ∷ int32 ∷ int32 ∷ int32 ∷ int32 ∷ int32 ∷ []

abbrev pub ig_encode_frame_info_fields : List CType
ig_encode_frame_info_fields = int32 ∷ int32 ∷ int32 ∷ int32 ∷ []

abbrev pub ig_codec_capability_fields : List CType
unfolding struct
ig_codec_capability_fields =
    int32 ∷ ig_string_ref ∷ ig_string_ref ∷ int32 ∷ int32 ∷ int32 ∷ int32 ∷ int32 ∷ int32 ∷ int32
    ∷ pointer ∷ int32 ∷ int32 ∷ int32 ∷ int32 ∷ pointer ∷ []

abbrev pub ig_plugin_info_fields : List CType
unfolding struct
ig_plugin_info_fields = ig_string_ref ∷ ig_string_ref ∷ ig_string_ref ∷ int32 ∷ int32 ∷ []

abbrev pub ig_plugin_info : CType
unfolding struct
ig_plugin_info = struct ig_plugin_info_fields

abbrev pub ig_host_core_api_fields : List CType
ig_host_core_api_fields = pointer ∷ pointer ∷ pointer ∷ pointer ∷ pointer ∷ []

abbrev pub ig_host_api_fields : List CType
ig_host_api_fields = int32 ∷ int32 ∷ pointer ∷ []

abbrev pub ig_codec_api_fields : List CType
ig_codec_api_fields =
    int32 ∷ pointer ∷ pointer ∷ pointer ∷ pointer ∷ pointer ∷ pointer ∷ pointer ∷ pointer ∷ pointer
    ∷ pointer ∷ pointer ∷ pointer ∷ pointer ∷ []

abbrev pub ig_plugin_api_fields : List CType
unfolding struct
ig_plugin_api_fields = int32 ∷ int32 ∷ ig_plugin_info ∷ pointer ∷ pointer ∷ pointer ∷ pointer ∷ []

-- `std::mem::size_of` of a struct of these fields.
unfoldable pub size_of : List CType → ℕ
unfolding struct
size_of ts = (struct ts).size

-- The structs that cross the ABI.
abbrev pub abi_structs : List (List CType)
abi_structs =
    ig_string_ref_fields ∷ ig_pixel_buffer_fields ∷ ig_image_info_fields
    ∷ ig_animation_frame_info_fields ∷ ig_animation_info_fields ∷ ig_encode_options_fields
    ∷ ig_multi_frame_encode_info_fields ∷ ig_encode_frame_info_fields ∷ ig_codec_capability_fields
    ∷ ig_plugin_info_fields ∷ ig_host_core_api_fields ∷ ig_host_api_fields ∷ ig_codec_api_fields
    ∷ ig_plugin_api_fields ∷ []
