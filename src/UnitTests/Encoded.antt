-- ===== src/UnitTests/Encoded.antt =====
-- src/decode.rs, the unit test that encodes an image with ithmb_core, writes it to a file and decodes
-- that file.
use imageglass_ithmb_plugin.Prelude.{
  ℕ, ◌*◌, ◌≤◌, ◌≡◌, Option, none, some, List, [], codes, Bool, true, false, not, ◌==◌, ltb, arith,
  ◌≢◌, refl, ap, ==-true, ==-false, drop, length-append, ◌++◌, le→ltb, length, if◌then◌else◌,
}
use imageglass_ithmb_plugin.Prelude.HashMap.{get, insert, remove, contains_key}
use imageglass_ithmb_plugin.Prelude.Machine.{as_usize}
use imageglass_ithmb_plugin.Registry.{BufferRegistry, is_empty, len, register, unregister, new}
use imageglass_ithmb_plugin.Registry.Laws.{unregister-register}
use imageglass_ithmb_plugin.Allocator.{
  pixel_buffer_alloc, pixel_buffer_free, copy_nonoverlapping, uninitialised,
}
use imageglass_ithmb_plugin.Prelude.Int.{pos, eqb_ℤ}
use imageglass_ithmb_plugin.Types.{IgStatus}
use imageglass_ithmb_plugin.World.{Run, pure, modify, ask, update, undefined_behaviour, ◌>>=◌, ◌>>◌}
use imageglass_ithmb_plugin.Strings.{Str, ig_string_ref_from_str}
use imageglass_ithmb_plugin.Env.{Env, DecodedImage, decoded}
use imageglass_ithmb_plugin.Decode.Memory.{frame_bytes, length-uninitialised, length-frame_bytes}
use imageglass_ithmb_plugin.Logging.{with_core}
use imageglass_ithmb_plugin.FileIo.{check_file_size, read_ithmb_file}
use imageglass_ithmb_plugin.State.{ensure_initialized}
use imageglass_ithmb_plugin.Decode.{
  codec_decode_static_raster, codec_free_pixel_buffer, register_buffer, unregister_buffer,
  filled_buffer,
}
use imageglass_ithmb_plugin.UnitTests.{
  assert, eqb_status, stack_slot, zero_pixel_buffer, test_process, Passes,
}
use imageglass_ithmb_plugin.Prelude.{suc, zero, ◌%◌, ◌^◌, ◌∷◌}
use imageglass_ithmb_plugin.Prelude.Int.{ℤ}
use imageglass_ithmb_plugin.Env.{Profile}
use imageglass_ithmb_plugin.World.{unwrap}
use imageglass_ithmb_plugin.Strings.RoundTrip.{utf16_to_string-ig_string_ref_from_str}
use imageglass_ithmb_plugin.UnitTests.Disk.{FileSystem, env_on, fixture_path, Stores, IsCarried}

abbrev wrapping_mul_u8 : ℕ → ℕ → ℕ
wrapping_mul_u8 a b = a * b % 2 ^ 8

-- The source image's bytes for `n` pixels from number `i` on.
unfoldable gradient : ℕ → ℕ → List ℕ
gradient i zero = []
gradient i (suc n) =
    let base = i % 2 ^ 8 in
    wrapping_mul_u8 base 7
    ∷ wrapping_mul_u8 base 13
    ∷ wrapping_mul_u8 base 29
    ∷ 255
    ∷ gradient (suc i) n

-- `std::slice::from_raw_parts(buffer.data, n)`, and its length: the block must be live and as long.
abbrev slice_len : ℕ → ℕ → Run ℕ
slice_len p n = do
  block ← ask (λ w. get p w.heap)
  elim block [
    | none ↦ undefined_behaviour
    | some bytes ↦ if ltb (length bytes) n then undefined_behaviour else pure n
  ]

abbrev is_none_or_empty : Option BufferRegistry → Bool
is_none_or_empty none = true
is_none_or_empty (some r) = is_empty r

-- A registry is empty again once its one entry is removed.
len-unregister : (p n : ℕ) → len (unregister (register new p n).1 p).1 ≡ 0
unfolding len register new contains_key
len-unregister p n = ap (λ x. len x.1) (unregister-register new (register new p n).1 p n refl)

-- `build` is ithmb_core's `enc::build_ithmb_file`.
module _ {Disk : Type 0} (fs : FileSystem Disk) (disk : Disk) (env : Env)
    (build : List ℕ → ℤ → ℤ → Profile → List ℕ) (version : Str) where
  -- The disk is that after the file is removed.
  unfoldable decode_roundtrips_encoded_fixture : Run Disk
  decode_roundtrips_encoded_fixture = do
    ensure_initialized version
    db ← unwrap env.load_builtin
    profile ← unwrap (db (pos 1005))
    let file = build (gradient 0 (80 * 80)) (pos 80) (pos 80) profile
    let path = fixture_path fs (codes "ithmb-cabi-rt-")
    written ← unwrap (fs.write disk path file)
    modify (λ w. record w { pixel_buffers = update w.pixel_buffers stack_slot zero_pixel_buffer })
    status ←
        codec_decode_static_raster (env_on fs written env) (ig_string_ref_from_str path).1 (pos 0)
          stack_slot
    assert (eqb_status status IgStatus.ok)
    buffer ← ask (λ w. w.pixel_buffers stack_slot)
    assert (not (buffer.data_ptr == 0))
    assert (eqb_ℤ buffer.width (pos 80))
    assert (eqb_ℤ buffer.height (pos 80))
    assert (eqb_ℤ buffer.stride (pos 320))
    assert (eqb_ℤ buffer.pixel_format (pos 1))
    let buf_size = as_usize (pos 80) * as_usize buffer.stride
    decoded_len ← slice_len buffer.data_ptr buf_size
    assert (decoded_len == 80 * 80 * 4)
    codec_free_pixel_buffer stack_slot
    freed ← ask (λ w. w.pixel_buffers stack_slot)
    assert (freed.data_ptr == 0)
    assert (eqb_ℤ freed.width (pos 0))
    registry ← ask (λ w. w.buffer_registry)
    assert (is_none_or_empty registry)
    pure (fs.remove_file written path)

  abbrev fixture : Str
  fixture = fixture_path fs (codes "ithmb-cabi-rt-")

  -- The profile exists, the file can be written, its bytes decode to a frame of 80 by 80 pixels,
  -- and the allocator has room for it.
  decode_roundtrips_encoded_fixture-Passes :
      (db : ℤ → Option Profile) (profile : Profile) (file pixels : List ℕ) (written : Disk) (p : ℕ)
      → Stores fs
      → IsCarried fixture
      → env.load_builtin ≡ some db
      → db (pos 1005) ≡ some profile
      → build (gradient 0 6400) (pos 80) (pos 80) profile ≡ file
      → fs.write disk fixture file ≡ some written
      → length file ≤ 8388608
      → 4 ≤ length file
      → env.decode_ithmb file false
        ≡ decoded (record { width = pos 80; height = pos 80; pixels = pixels })
      → length pixels ≡ 25600
      → env.malloc [] 25600 ≡ p
      → p ≢ 0
      → Passes decode_roundtrips_encoded_fixture test_process
  unfolding decode_roundtrips_encoded_fixture ensure_initialized codec_decode_static_raster
      read_ithmb_file check_file_size eqb_status with_core pixel_buffer_alloc pixel_buffer_free
      copy_nonoverlapping register_buffer unregister_buffer register unregister new get insert
      remove contains_key filled_buffer is_empty len codec_free_pixel_buffer
  decode_roundtrips_encoded_fixture-Passes db profile file pixels written p stores path loaded found
        built stored small long frame full room given =
      let img : DecodedImage = record { width = pos 80; height = pos 80; pixels = pixels } in
      let enough : 25600 ≤ length pixels = omega (arith, full) in
      let blank : 25600 ≤ length (uninitialised 25600) =
        omega (arith, length-uninitialised 25600) in
      let fresh = drop 25600 (uninitialised 25600) in
      let block : 25600 ≤ length (frame_bytes img 25600 ++ fresh) = omega (
        arith,
        length-append (frame_bytes img 25600) fresh,
        length-frame_bytes pixels 25600 enough,
      ) in
      rw
        (
          Passes,
          loaded,
          found,
          built,
          stored,
          utf16_to_string-ig_string_ref_from_str fixture _ path.not_empty path.scalar path.short,
          stores.sized disk written fixture file stored,
          stores.reads disk written fixture file stored,
          le→ltb _ _ small,
          le→ltb _ _ long,
          frame,
          room,
          ==-false p 0 given,
          ==-false p 0 given,
          ==-true p p refl,
          ==-true p p refl,
          le→ltb _ _ enough,
          le→ltb _ _ blank,
          ==-false p 0 given,
          ==-true p p refl,
          le→ltb _ _ block,
          ==-false p 0 given,
          ==-true p p refl,
          ==-false p 0 given,
          ==-true p p refl,
          len-unregister p 25600,
        )
        tt
