-- ===== src/Decode/Calls.antt =====
-- src/decode.rs: the ways in which `codec_decode_static_raster` can end.
use imageglass_ithmb_plugin.Prelude.{
  ℕ, ◌≡◌, ◌≢◌, ◌⊎◌, inl, inr, refl, ◌∙◌, List, Option, none, some, true, false, ==-true, ==-false,
  Bool-cases, Option-cases, arith,
}
use native.Mathlib.Decide.{ℕ_discrete}
use imageglass_ithmb_plugin.Prelude.Int.{ℤ, pos, eqb_ℤ}
use imageglass_ithmb_plugin.Types.{IgStatus, Result, IgStringRef}
use imageglass_ithmb_plugin.World.{World, LogCall, Outcome, done, catch_unwind_or, ◌>>=◌, ◌>>◌}
use imageglass_ithmb_plugin.Registry.{BufferRegistry}
use imageglass_ithmb_plugin.Strings.{Str}
use imageglass_ithmb_plugin.Strings.Access.{IsReadable, decoded_string, utf16_to_string_readable}
use imageglass_ithmb_plugin.Env.{Env}
use imageglass_ithmb_plugin.Logging.{LogLevel}
use imageglass_ithmb_plugin.Logging.Effect.{IsHosted, OnlyLogs, log-OnlyLogs, with_core-OnlyLogs}
use imageglass_ithmb_plugin.FileIo.{read_ithmb_file}
use imageglass_ithmb_plugin.FileIo.Bounds.{read_ithmb_file_error, read_ithmb_file_iff, IsWholeRead}
use imageglass_ithmb_plugin.Allocator.{IsAllocator}
use imageglass_ithmb_plugin.Decode.{
  decode_bytes, decode_body, log_read_failure, codec_decode_static_raster,
}
use imageglass_ithmb_plugin.Decode.Memory.{IsConsistent}
use imageglass_ithmb_plugin.Decode.Cases.{
  DecodesFrames, Refuses, Delivers, ends_along, decode_bytes_ends,
}

-- The arguments that reach the decoder, with the path's text and the bytes of its file.
pub record Reaches (env : Env) (path : IgStringRef) (frame_index : ℤ) (buffer : ℕ) (p : Str)
    (bytes : List ℕ) : Type 0 where
  pub writable : buffer ≢ 0
  pub named : decoded_string path.data_ptr path.length ≡ some p
  pub first_frame : frame_index ≡ pos 0
  pub whole : IsWholeRead env p bytes

pub first_frame_index : (n : ℤ) → eqb_ℤ n (pos 0) ≡ true → n ≡ pos 0
first_frame_index n h = ground arith

module _ (env : Env) (r : BufferRegistry) (w : World) (buffer : ℕ) (consistent : IsConsistent r w)
    (allocator : IsAllocator env.malloc) (frames : DecodesFrames env) (path : IgStringRef)
    (frame_index : ℤ) (hosted : IsHosted w) (readable : IsReadable path) where
  abbrev pub run : Outcome IgStatus
  run = codec_decode_static_raster env path frame_index buffer w

  -- The string that the path reference holds.
  abbrev path_str : Option Str
  path_str = decoded_string path.data_ptr path.length

  refuses : (s : IgStatus) → s ≢ IgStatus.ok → run ≡ done s w → Refuses w run
  refuses s h e = record { status = s; calls = w.log_calls; not_ok = h; ends = e }

  read_failure : (s : IgStatus) → OnlyLogs w (log_read_failure s w)
  unfolding log_read_failure
  read_failure s = with_core-OnlyLogs _ w hosted λ core. log-OnlyLogs core LogLevel.error _ w

  -- Once the guards have passed and the file is read.
  pub decodes_file :
      (p : Str) (bytes : List ℕ)
      → buffer ≢ 0
      → path_str ≡ some p
      → eqb_ℤ frame_index (pos 0) ≡ true
      → read_ithmb_file env p ≡ Result.ok bytes
      → run ≡ catch_unwind_or IgStatus.internal (decode_bytes env buffer bytes) w
  unfolding codec_decode_static_raster
  decodes_file p bytes h e index file = rw (
    catch_unwind_or,
    decode_body,
    ==-false _ _ h,
    ◌>>=◌,
    utf16_to_string_readable path w readable,
    e,
    index,
    file,
  )

  pub read_fails_run :
      (p : Str) (s : IgStatus)
      → buffer ≢ 0
      → path_str ≡ some p
      → eqb_ℤ frame_index (pos 0) ≡ true
      → read_ithmb_file env p ≡ Result.err s
      → (calls : List LogCall) × (run ≡ done s (record w { log_calls = calls }))
  unfolding codec_decode_static_raster
  read_fails_run p s h e index file = (
    (read_failure s).0,
    rw (
      catch_unwind_or,
      decode_body,
      ==-false _ _ h,
      ◌>>=◌,
      ◌>>◌,
      utf16_to_string_readable path w readable,
      e,
      index,
      file,
      (read_failure s).1,
    ),
  )

  read_fails :
      (p : Str) (s : IgStatus)
      → buffer ≢ 0
      → path_str ≡ some p
      → eqb_ℤ frame_index (pos 0) ≡ true
      → read_ithmb_file env p ≡ Result.err s
      → Refuses w run
  read_fails p s h e index file =
      let (calls, ends) = read_fails_run p s h e index file in
      record {
        status = s;
        calls = calls;
        not_ok = λ q. ground (arith, read_ithmb_file_error env p s file);
        ends = ends;
      }

  pub null_buffer : buffer ≡ 0 → run ≡ done IgStatus.invalid_arg w
  unfolding codec_decode_static_raster
  null_buffer h = rw (catch_unwind_or, decode_body, ==-true _ _ h)

  pub no_path : buffer ≢ 0 → path_str ≡ none → run ≡ done IgStatus.invalid_arg w
  unfolding codec_decode_static_raster
  no_path h e = rw (
    catch_unwind_or,
    decode_body,
    ==-false _ _ h,
    ◌>>=◌,
    utf16_to_string_readable path w readable,
    e,
  )

  pub wrong_frame :
      (p : Str)
      → buffer ≢ 0
      → path_str ≡ some p
      → eqb_ℤ frame_index (pos 0) ≡ false
      → run ≡ done IgStatus.invalid_arg w
  unfolding codec_decode_static_raster
  wrong_frame p h e index = rw (
    catch_unwind_or,
    decode_body,
    ==-false _ _ h,
    ◌>>=◌,
    utf16_to_string_readable path w readable,
    e,
    index,
  )

  file_ends :
      (p : Str) (result : Result (List ℕ))
      → buffer ≢ 0
      → path_str ≡ some p
      → eqb_ℤ frame_index (pos 0) ≡ true
      → read_ithmb_file env p ≡ result
      → Refuses w run
        ⊎ ((q : Str) × (bytes : List ℕ) × Reaches env path frame_index buffer q bytes
            × Delivers env r w buffer bytes run)
  file_ends p (Result.err s) h e index file = inl (read_fails p s h e index file)
  file_ends p (Result.ok bytes) h e index file =
      elim (ends_along env r w buffer bytes (λ s w' q. decodes_file p bytes h e index file ∙ q)
        (decode_bytes_ends env r w buffer consistent allocator frames bytes
          (env.decode_ithmb bytes false) refl)) [
            | inl refused ↦ inl refused
            | inr given ↦ inr (
              p,
              bytes,
              record {
                writable = h;
                named = e;
                first_frame = first_frame_index frame_index index;
                whole = (read_ithmb_file_iff env p bytes).0 file;
              },
              given,
            )
          ]

  -- Every call returns. It ends with an error and has changed nothing but the log calls, or it
  -- delivers the frame of the file that its arguments name.
  pub decode_ends :
      Refuses w run
      ⊎ ((p : Str) × (bytes : List ℕ) × Reaches env path frame_index buffer p bytes
          × Delivers env r w buffer bytes run)
  decode_ends = elim (ℕ_discrete buffer 0) [
    | yes h ↦ inl (refuses IgStatus.invalid_arg (λ q. cc) (null_buffer h))
    | no h ↦ elim (Option-cases path_str) [
      | inl e ↦ inl (refuses IgStatus.invalid_arg (λ q. cc) (no_path h e))
      | inr (p, e) ↦ elim (Bool-cases (eqb_ℤ frame_index (pos 0))) [
        | inl index ↦ file_ends p (read_ithmb_file env p) h e index refl
        | inr index ↦ inl (refuses IgStatus.invalid_arg (λ q. cc) (wrong_frame p h e index))
      ]
    ]
  ]
