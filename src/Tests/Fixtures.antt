-- ===== src/Tests/Fixtures.antt =====
-- An environment and a state for the tests: one file, which decodes to one pixel, and an allocator
-- that hands out addresses above all live ones.
use mathlib.Core.Path.{subst}
use imageglass_ithmb_plugin.Prelude.{
  ℕ, suc, ◌+◌, ◌^◌, ◌<◌, ◌≡◌, refl, inl, inr, [], ◌∷◌, none, some, false, ltb, le→ltb, Bool-cases,
  if◌then◌else◌, arith, codes,
}
use imageglass_ithmb_plugin.Prelude.Int.{pos}
use imageglass_ithmb_plugin.Prelude.HashMap.{HashMap, get}
use imageglass_ithmb_plugin.Types.{
  null, ref, IgStringRef, IgPixelBuffer, IgImageInfo, IgHostApi, IgHostCoreApi,
}
use imageglass_ithmb_plugin.World.{World, Block}
use imageglass_ithmb_plugin.Registry.{BufferRegistry, new}
use imageglass_ithmb_plugin.Registry.Laws.{new-IsValid}
use imageglass_ithmb_plugin.Env.{Env, DecodedImage, decoded}
use imageglass_ithmb_plugin.Allocator.{IsAllocator}
use imageglass_ithmb_plugin.Decode.Layout.{IsFrame}
use imageglass_ithmb_plugin.Decode.Contract.{IsSound, IsSane}

abbrev key_sum : HashMap Block → ℕ
key_sum [] = 0
key_sum ((a, b) ∷ m) = a + key_sum m

abbrev pub bump_malloc : HashMap Block → ℕ → ℕ
bump_malloc heap n = if ltb n (2 ^ 63) then suc (key_sum heap) else 0

get_above : (a : ℕ) (m : HashMap Block) → key_sum m < a → get a m ≡ none
unfolding get
get_above a [] h = refl
get_above a ((k, b) ∷ m) h = ground (arith, get_above a m)

bump-IsAllocator : IsAllocator bump_malloc
bump-IsAllocator = record {
  fresh = λ heap n. elim (Bool-cases (ltb n (2 ^ 63))) [
    | inl small ↦ inr (rw small (get_above (suc (key_sum heap)) heap (omega arith)))
    | inr large ↦ inl (rw large)
  ];
  bounded = λ heap n h. rw (le→ltb n (2 ^ 63) h);
}

abbrev pub pixel : DecodedImage
pixel = record { width = pos 1; height = pos 1; pixels = 10 ∷ 20 ∷ 30 ∷ 255 ∷ [] }

abbrev pub test_env : Env
test_env = record {
  metadata_len = λ path. some 6;
  read_file = λ path. some (0 ∷ 0 ∷ 4 ∷ 0 ∷ 7 ∷ 7 ∷ []);
  open_file = λ path. some (0 ∷ 0 ∷ 4 ∷ 0 ∷ 7 ∷ 7 ∷ []);
  decode_ithmb = λ bytes canceled. decoded pixel;
  find_formats_by_id = λ id. codes "320x240" ∷ [];
  load_builtin = some (λ id. some (record { display_width = pos 320; display_height = pos 240 }));
  malloc = bump_malloc;
}

pixel-IsFrame : IsFrame pixel
pixel-IsFrame = record { columns = 1; rows = 1; wide = refl; high = refl; full = refl }

pub test_env-IsSane : IsSane test_env
test_env-IsSane = record {
  allocator = bump-IsAllocator;
  frames = λ bytes img e. subst IsFrame (decoded-injective e) pixel-IsFrame;
}
  where
    decoded-injective : {a b : DecodedImage} → decoded a ≡ decoded b → a ≡ b
    decoded-injective e = cc

abbrev pub empty_buffer : IgPixelBuffer
empty_buffer = record {
  data_ptr = 0;
  width = pos 0;
  height = pos 0;
  stride = pos 0;
  pixel_format = pos 0;
  release_context = 0;
}

abbrev zero_info : IgImageInfo
zero_info = record {
  width = pos 0;
  height = pos 0;
  pixel_format = pos 0;
  has_alpha = pos 0;
  hdr_transfer_fn = pos 0;
  color_space = pos 0;
  orientation = pos 0;
  frame_count = pos 0;
  file_size_bytes = pos 0;
  icc_profile_data = null;
  icc_profile_size = pos 0;
}

abbrev pub test_core : IgHostCoreApi
test_core = record {
  log = some 77;
  alloc = none;
  free = none;
  is_cancellation_requested = none;
  get_config_directory = none;
}

abbrev pub test_host : IgHostApi
test_host = record { struct_size = pos 16; abi_version = pos 1000000; core = ref test_core }

abbrev pub empty_registry : BufferRegistry
empty_registry = record { poisoned = false; entries = [] }

-- A state in which the registry is in place and holds nothing.
abbrev pub test_world : World
test_world = record {
  plugin_extensions = none;
  plugin_state = none;
  capability = none;
  host_api = some (ref test_host);
  buffer_registry = some empty_registry;
  heap = [];
  pixel_buffers = λ p. empty_buffer;
  image_infos = λ p. zero_info;
  capability_slots = λ p. null;
  codec_slots = λ p. null;
  log_calls = [];
}

pub test_world-IsSound : IsSound test_world
unfolding get new
test_world-IsSound = record {
  registry = empty_registry;
  consistent = record {
    initialised = refl;
    valid = new-IsValid;
    distinct = tt;
    same = λ a. tt;
    no_null = refl;
  };
  hosted = λ e. cc;
}

abbrev pub test_path : IgStringRef
test_path = record { data_ptr = ref (codes "/a.ithmb"); length = pos 8 }
