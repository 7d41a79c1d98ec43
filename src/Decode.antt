-- ===== src/Decode.antt =====
-- src/decode.rs: `codec_decode_static_raster` and `codec_free_pixel_buffer`. The buffers of the host
-- are its `IgPixelBuffer` variables, by address.
pub mod Drain
pub mod History
pub mod Layout
pub mod Memory
pub mod Cases
pub mod Calls
pub mod Release
pub mod Contract
pub mod Verdict
pub mod Status
pub mod Frames
pub mod Lifetime
pub mod Twice
use imageglass_ithmb_plugin.Prelude.{
  ℕ, List, Option, none, some, false, not, ◌==◌, if◌then◌else◌, codes, ◌++◌,
}
use imageglass_ithmb_plugin.Prelude.Int.{ℤ, pos, eqb_ℤ}
use imageglass_ithmb_plugin.Prelude.Machine.{as_i32, as_usize, i32_checked_mul, usize_checked_mul}
use imageglass_ithmb_plugin.Types.{
  IgStatus, Result, debug_status, ig_status_from_decode_error, IgStringRef, IgPixelBuffer,
}
use imageglass_ithmb_plugin.World.{
  Run, pure, ◌>>=◌, ◌>>◌, ask, modify, panic, unwrap, update, catch_unwind_or,
}
use imageglass_ithmb_plugin.Registry.{BufferEntry, register, unregister}
use imageglass_ithmb_plugin.Strings.{utf16_to_string}
use imageglass_ithmb_plugin.Env.{Env, DecodedImage, decoded, failed, panics}
use imageglass_ithmb_plugin.Logging.{with_core}
use imageglass_ithmb_plugin.Logging.Methods
use imageglass_ithmb_plugin.FileIo.{read_ithmb_file}
use imageglass_ithmb_plugin.Allocator.{pixel_buffer_alloc, pixel_buffer_free, copy_nonoverlapping}

-- The width, height, stride and size in bytes of a decoded frame.
pub record FrameLayout : Type 0 where
  pub width : ℤ
  pub height : ℤ
  pub stride : ℤ
  pub buf_size : ℕ

-- The casts and the checked products; `none` is an overflow.
unfoldable pub frame_layout : DecodedImage → Option FrameLayout
frame_layout img =
    let width = as_i32 img.width in
    let height = as_i32 img.height in
    elim (i32_checked_mul width (pos 4)) [
      | none ↦ none
      | some stride ↦ elim (usize_checked_mul (as_usize height) (as_usize stride)) [
        | none ↦ none
        | some buf_size ↦
            some (record { width = width; height = height; stride = stride; buf_size = buf_size })
      ]
    ]

-- `BUFFER_REGISTRY.get().unwrap()` and a call of `register` on it.
unfoldable pub register_buffer : ℕ → ℕ → Run (Result (Unit {0}))
register_buffer p n = do
  stored ← ask (λ w. w.buffer_registry)
  registry ← unwrap stored
  let outcome = register registry p n
  modify (λ w. record w { buffer_registry = some outcome.1 })
  pure outcome.0

unfoldable pub unregister_buffer : ℕ → Run (Result BufferEntry)
unregister_buffer p = do
  stored ← ask (λ w. w.buffer_registry)
  registry ← unwrap stored
  let outcome = unregister registry p
  modify (λ w. record w { buffer_registry = some outcome.1 })
  pure outcome.0

-- The fields that the host reads of a filled buffer.
unfoldable pub filled_buffer : FrameLayout → ℕ → IgPixelBuffer
filled_buffer l data_ptr = record {
  data_ptr = data_ptr;
  width = l.width;
  height = l.height;
  stride = l.stride;
  pixel_format = pos 1;
  release_context = 0;
}

-- From the allocation of the pixel buffer on.
unfoldable pub hand_over : Env → ℕ → DecodedImage → FrameLayout → Run IgStatus
unfolding filled_buffer
hand_over env buffer img l = do
  data_ptr ← pixel_buffer_alloc env l.buf_size
  if data_ptr == 0 then pure IgStatus.out_of_memory else do
    copy_nonoverlapping img.pixels data_ptr l.buf_size
    registered ← register_buffer data_ptr l.buf_size
    elim registered [
      | Result.err _ ↦ do pixel_buffer_free data_ptr; pure IgStatus.internal
      | Result.ok _ ↦ do
        modify (λ w. record w {
          pixel_buffers = update w.pixel_buffers buffer (filled_buffer l data_ptr);
        })
        pure IgStatus.ok
    ]

-- From the decoder's call on. The flag that it polls is fresh.
unfoldable pub decode_bytes : Env → ℕ → List ℕ → Run IgStatus
unfolding hand_over frame_layout
decode_bytes env buffer bytes = elim (env.decode_ithmb bytes false) [
  | panics ↦ panic
  | failed e ↦ pure (ig_status_from_decode_error e)
  | decoded img ↦ elim (frame_layout img) [
    | none ↦ pure IgStatus.out_of_memory
    | some l ↦ hand_over env buffer img l
  ]
]

unfoldable pub log_read_failure : IgStatus → Run (Unit {0})
log_read_failure status = with_core (λ core.
    Methods.log_error (Methods.new core)
      (codes "ithmb-codec: failed to read file: " ++ debug_status status))

unfoldable pub decode_body : Env → IgStringRef → ℤ → ℕ → Run IgStatus
unfolding decode_bytes log_read_failure
decode_body env path frame_index buffer = if buffer == 0 then pure IgStatus.invalid_arg else do
  path_str ← utf16_to_string path
  elim path_str [
    | none ↦ pure IgStatus.invalid_arg
    | some p ↦
        if not (eqb_ℤ frame_index (pos 0))
        then pure IgStatus.invalid_arg
        else elim (read_ithmb_file env p) [
          | Result.err status ↦ do log_read_failure status; pure status
          | Result.ok bytes ↦ decode_bytes env buffer bytes
        ]
  ]

unfoldable pub codec_decode_static_raster : Env → IgStringRef → ℤ → ℕ → Run IgStatus
unfolding decode_body
codec_decode_static_raster env path frame_index buffer =
    catch_unwind_or IgStatus.internal (decode_body env path frame_index buffer)

-- The struct is cleared before anything else.
unfoldable pub cleared_buffer : IgPixelBuffer → IgPixelBuffer
cleared_buffer b = record b { data_ptr = 0; width = pos 0; height = pos 0; stride = pos 0 }

-- From the look-up in the registry on.
unfoldable pub release_data : ℕ → Run (Unit {0})
release_data data_ptr = if data_ptr == 0 then pure tt else do
  unregistered ← unregister_buffer data_ptr
  elim unregistered [ Result.err _ ↦ pure tt | Result.ok _ ↦ pixel_buffer_free data_ptr ]

unfoldable pub free_body : ℕ → Run (Unit {0})
unfolding release_data cleared_buffer
free_body buffer = if buffer == 0 then pure tt else do
  held ← ask (λ w. w.pixel_buffers buffer)
  modify (λ w. record w { pixel_buffers = update w.pixel_buffers buffer (cleared_buffer held) })
  release_data held.data_ptr

unfoldable pub codec_free_pixel_buffer : ℕ → Run (Unit {0})
unfolding free_body
codec_free_pixel_buffer buffer = catch_unwind_or tt (free_body buffer)
