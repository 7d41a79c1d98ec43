-- ===== src/UnitTests.antt =====
-- The unit tests of src/buffer_registry.rs, src/codec.rs, src/decode.rs and src/lib.rs, as runs that
-- panic where an assertion fails.
pub mod Buffers
pub mod Decoding
pub mod Queries
pub mod Entries
pub mod Disk
pub mod Encoded
pub mod Metadata
use imageglass_ithmb_plugin.Prelude.{
  ℕ, ◌≡◌, ◌==◌, List, [], Option, none, some, Bool, true, false, if◌then◌else◌,
}
use imageglass_ithmb_plugin.Prelude.Int.{pos}
use imageglass_ithmb_plugin.Types.{
  IgStatus, Result, Ptr, null, ref, IgPixelBuffer, IgImageInfo, status_code,
}
use imageglass_ithmb_plugin.World.{World, Run, pure, panic, done, panicked, undefined}

-- `assert!`.
abbrev pub assert : Bool → Run (Unit {0})
assert b = if b then pure tt else panic

-- `==` on `IGStatus`.
unfoldable abbrev pub eqb_status : IgStatus → IgStatus → Bool
unfolding status_code
eqb_status a b = status_code a == status_code b

-- `Result::is_ok`, `Result::unwrap`, and a comparison with `Err(status)`.
abbrev pub is_ok {ℓ} : {A : Type ℓ} → Result A → Bool
is_ok (Result.ok a) = true
is_ok (Result.err s) = false

abbrev pub unwrap_ok {ℓ} : {A : Type ℓ} → Result A → Run A
unwrap_ok (Result.ok a) = pure a
unwrap_ok (Result.err s) = panic

abbrev pub is_error {ℓ} : {A : Type ℓ} → Result A → IgStatus → Bool
is_error (Result.ok a) status = false
is_error (Result.err s) status = eqb_status s status

-- `is_null` of a pointer, and `is_some` of a function pointer.
abbrev pub is_null_ptr {ℓ} : {A : Type ℓ} → Ptr A → Bool
is_null_ptr null = true
is_null_ptr (ref a) = false

abbrev pub is_some {ℓ} : {A : Type ℓ} → Option A → Bool
is_some none = false
is_some (some a) = true

-- The address of a variable on the stack.
abbrev pub stack_slot : ℕ
stack_slot = 1

abbrev pub zero_pixel_buffer : IgPixelBuffer
zero_pixel_buffer = record {
  data_ptr = 0;
  width = pos 0;
  height = pos 0;
  stride = pos 0;
  pixel_format = pos 0;
  release_context = 0;
}

abbrev pub zero_image_info : IgImageInfo
zero_image_info = record {
  width = pos 0;
  height = pos 0;
  pixel_format = pos 0;
  has_alpha = pos 0;
  hdr_transfer_fn = pos 0;
  color_space = pos 0;
  orientation = pos 0;
  frame_count = pos 0;
  file_size_bytes = pos 0;
  icc_profile_data = null;
  icc_profile_size = pos 0;
}

-- A process in which no static is set.
abbrev pub test_process : World
test_process = record {
  plugin_extensions = none;
  plugin_state = none;
  capability = none;
  host_api = none;
  buffer_registry = none;
  heap = [];
  pixel_buffers = λ p. zero_pixel_buffer;
  image_infos = λ p. zero_image_info;
  capability_slots = λ p. null;
  codec_slots = λ p. null;
  log_calls = [];
}

-- The test ends without a panic and without undefined behaviour.
abbrev pub Passes {ℓ} : {A : Type ℓ} → Run A → World → Type 0
Passes test w = elim (test w) [ done a w' ↦ Unit {0} | panicked w' ↦ ⊥ | undefined ↦ ⊥ ]
