-- ===== src/Tests/DecodeTests.antt =====
-- Decoding and freeing at concrete inputs.
use imageglass_ithmb_plugin.Prelude.{inl, [], ◌∷◌, some, false, ◌≡◌, refl, arith}
use native.Mathlib.Decide.{ℕ_discrete}
use imageglass_ithmb_plugin.Prelude.Int.{pos}
use imageglass_ithmb_plugin.Prelude.HashMap.{get, insert, remove, contains_key}
use imageglass_ithmb_plugin.Types.{IgStatus}
use imageglass_ithmb_plugin.World.{World, done, update}
use imageglass_ithmb_plugin.Registry.{BufferRegistry, register, unregister}
use imageglass_ithmb_plugin.Strings.{utf16_to_string, from_utf16_lossy}
use imageglass_ithmb_plugin.FileIo.{read_ithmb_file}
use imageglass_ithmb_plugin.Allocator.{
  uninitialised, pixel_buffer_alloc, pixel_buffer_free, copy_nonoverlapping,
}
use imageglass_ithmb_plugin.Decode.{
  register_buffer, unregister_buffer, codec_decode_static_raster, codec_free_pixel_buffer,
  filled_buffer,
}
use imageglass_ithmb_plugin.Decode.Contract.{IsSound, decode-IsSound, free-IsSound}
use imageglass_ithmb_plugin.Decode.Frames.{HasFrame, decode-HasFrame, decode_error_keeps}
use imageglass_ithmb_plugin.Decode.Lifetime.{Restores, free-decode}
use imageglass_ithmb_plugin.Decode.Drain.{free_all, IsCovered, free_all_empties}
use imageglass_ithmb_plugin.Decode.Twice.{FreesNothing, free_twice}
use imageglass_ithmb_plugin.Session.Steps.{Reach, here, next, decodes, writes}
use imageglass_ithmb_plugin.Session.{Reach-IsSound, Serves, Reach-Serves}
use imageglass_ithmb_plugin.Tests.Fixtures.{
  test_env, test_env-IsSane, test_world, test_world-IsSound, test_path,
}

-- The run of the decode, and the state after it.
unfoldable abbrev pub decoded_world : World
unfolding codec_decode_static_raster register_buffer utf16_to_string from_utf16_lossy
    read_ithmb_file uninitialised pixel_buffer_alloc pixel_buffer_free copy_nonoverlapping register
    get insert contains_key filled_buffer
decoded_world = elim (codec_decode_static_raster test_env test_path (pos 0) 5 test_world) [
  | done s w ↦ w
  | _ ↦ test_world
]

pub decode_run :
    codec_decode_static_raster test_env test_path (pos 0) 5 test_world
    ≡ done IgStatus.ok decoded_world
unfolding codec_decode_static_raster register_buffer utf16_to_string from_utf16_lossy
    read_ithmb_file uninitialised pixel_buffer_alloc pixel_buffer_free copy_nonoverlapping register
    get insert contains_key decoded_world
decode_run = refl

decode-IsSound_example :
    (status : IgStatus) × (w' : World) × (codec_decode_static_raster test_env test_path
        (pos 0)
        5
        test_world
      ≡ done status w')
    × IsSound w'
decode-IsSound_example =
    decode-IsSound test_env test_path (pos 0) 5 test_world test_env-IsSane (omega arith)
      test_world-IsSound

decode-HasFrame_example : HasFrame test_env test_path (pos 0) 5 test_world decoded_world
decode-HasFrame_example =
    decode-HasFrame test_env test_path (pos 0) 5 test_world test_env-IsSane (omega arith)
      test_world-IsSound decoded_world decode_run

-- Frame 1 is refused.
second_frame :
    codec_decode_static_raster test_env test_path (pos 1) 5 test_world
    ≡ done IgStatus.invalid_arg test_world
unfolding codec_decode_static_raster utf16_to_string from_utf16_lossy
second_frame = refl

decode_error_keeps_example : test_world ≡ record test_world { log_calls = test_world.log_calls }
decode_error_keeps_example =
    decode_error_keeps test_env test_path (pos 1) 5 test_world test_env-IsSane (omega arith)
      test_world-IsSound IgStatus.invalid_arg test_world second_frame (λ e. cc)

free-decode_example : Restores test_world decoded_world 5
free-decode_example =
    free-decode test_env test_path (pos 0) 5 test_world decoded_world test_env-IsSane (omega arith)
      test_world-IsSound decode_run

-- A session: the file is decoded into the struct at 5, and the host copies the struct to 6.
unfoldable abbrev pub copied_world : World
unfolding decoded_world
copied_world = record decoded_world {
  pixel_buffers = update decoded_world.pixel_buffers 6 (decoded_world.pixel_buffers 5);
}

unfoldable pub session : Reach test_world copied_world
unfolding copied_world
session =
    next
      (next here
        (decodes test_env test_path (pos 0) 5 IgStatus.ok test_env-IsSane (omega arith) decode_run))
      (writes 6 (decoded_world.pixel_buffers 5) refl)

pub copied_world-IsSound : IsSound copied_world
copied_world-IsSound = Reach-IsSound test_world copied_world test_world-IsSound session

Reach-Serves_example : Serves copied_world
Reach-Serves_example = Reach-Serves test_world copied_world test_world-IsSound session

free-IsSound_example :
    (w' : World) × (codec_free_pixel_buffer 5 copied_world ≡ done tt w') × IsSound w'
free-IsSound_example = free-IsSound copied_world 5 copied_world-IsSound

unfoldable abbrev pub freed_world : World
unfolding copied_world codec_free_pixel_buffer unregister_buffer pixel_buffer_free unregister get
    remove
freed_world = elim (codec_free_pixel_buffer 5 copied_world) [ done u w ↦ w | _ ↦ test_world ]

pub free_run : codec_free_pixel_buffer 5 copied_world ≡ done tt freed_world
unfolding freed_world
free_run = refl

copied_alias : (copied_world.pixel_buffers 5).data_ptr ≡ (copied_world.pixel_buffers 6).data_ptr
unfolding copied_world decoded_world
copied_alias = refl

-- The copy is freed too, and nothing happens.
free_twice_example : FreesNothing 6 freed_world
free_twice_example =
    free_twice copied_world freed_world 5 6 copied_world-IsSound (omega arith) copied_alias free_run

-- The registry with the one block that both structs hold.
one_entry : (r : BufferRegistry) × (copied_world.buffer_registry ≡ some r) × (r.poisoned ≡ false)
unfolding copied_world decoded_world
one_entry = (_, refl, refl)

copied_world-IsCovered : IsCovered copied_world (6 ∷ 5 ∷ [])
unfolding copied_world decoded_world get
copied_world-IsCovered a block live = elim (ℕ_discrete 1 a) [
  | yes e ↦ inl (omega arith, e)
  | no ne ↦ absurd (ground (arith, ne, live))
]

free_all_empties_example :
    (w' : World) × (free_all (6 ∷ 5 ∷ []) copied_world ≡ done tt w') × (w'.heap ≡ [])
free_all_empties_example =
    free_all_empties copied_world one_entry.0 (6 ∷ 5 ∷ []) copied_world-IsSound one_entry.1
      one_entry.2 copied_world-IsCovered
