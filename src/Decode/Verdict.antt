-- ===== src/Decode/Verdict.antt =====
-- src/decode.rs: what each status that a decode returns says of its arguments and surroundings.
use imageglass_ithmb_plugin.Prelude.{ℕ, ◌≡◌, ◌≢◌, ◌⊎◌, List, none, some, true, false}
use imageglass_ithmb_plugin.Prelude.Int.{ℤ, pos}
use imageglass_ithmb_plugin.Types.{
  IgStatus, IgStringRef, Result, DecodeError, ig_status_from_decode_error,
}
use imageglass_ithmb_plugin.World.{World}
use imageglass_ithmb_plugin.Registry.{BufferRegistry}
use imageglass_ithmb_plugin.Strings.{Str}
use imageglass_ithmb_plugin.Strings.Access.{decoded_string}
use imageglass_ithmb_plugin.Env.{Env, DecodedImage, panics, failed, decoded}
use imageglass_ithmb_plugin.FileIo.{read_ithmb_file}
use imageglass_ithmb_plugin.Decode.{FrameLayout, frame_layout}
use imageglass_ithmb_plugin.Decode.Cases.{allocated}
use imageglass_ithmb_plugin.Decode.Calls.{Reaches}

-- The arguments that the guards let through, with the path's text.
pub record IsAccepted (path : IgStringRef) (frame_index : ℤ) (buffer : ℕ) (p : Str) : Type 0 where
  pub writable : buffer ≢ 0
  pub named : decoded_string path.data_ptr path.length ≡ some p
  pub first_frame : frame_index ≡ pos 0

-- The frame that the decoder makes of the file, and its layout.
pub record Decodes (env : Env) (path : IgStringRef) (frame_index : ℤ) (buffer : ℕ)
    (img : DecodedImage) : Type 0 where
  pub path_str : Str
  pub bytes : List ℕ
  pub reaches : Reaches env path frame_index buffer path_str bytes
  pub decodes : env.decode_ithmb bytes false ≡ decoded img

-- What each status says of the arguments, the file, the decoder, the allocator and the lock.
pub data DecodeStatus (env : Env) (path : IgStringRef) (frame_index : ℤ) (buffer : ℕ) (w : World)
    : IgStatus → Type 0 where
  bad_arguments :
      (buffer ≡ 0) ⊎ (decoded_string path.data_ptr path.length ≡ none) ⊎ (frame_index ≢ pos 0)
      → DecodeStatus env path frame_index buffer w IgStatus.invalid_arg
  unreadable :
      (p : Str) (s : IgStatus)
      → IsAccepted path frame_index buffer p
      → read_ithmb_file env p ≡ Result.err s
      → DecodeStatus env path frame_index buffer w s
  decoder_panics :
      (p : Str) (bytes : List ℕ)
      → Reaches env path frame_index buffer p bytes
      → env.decode_ithmb bytes false ≡ panics
      → DecodeStatus env path frame_index buffer w IgStatus.internal
  decoder_fails :
      (p : Str) (bytes : List ℕ) (error : DecodeError)
      → Reaches env path frame_index buffer p bytes
      → env.decode_ithmb bytes false ≡ failed error
      → DecodeStatus env path frame_index buffer w (ig_status_from_decode_error error)
  too_large :
      (img : DecodedImage)
      → Decodes env path frame_index buffer img
      → frame_layout img ≡ none
      → DecodeStatus env path frame_index buffer w IgStatus.out_of_memory
  no_memory :
      (img : DecodedImage) (l : FrameLayout)
      → Decodes env path frame_index buffer img
      → frame_layout img ≡ some l
      → allocated env w l ≡ 0
      → DecodeStatus env path frame_index buffer w IgStatus.out_of_memory
  lock_poisoned :
      (img : DecodedImage) (l : FrameLayout) (r : BufferRegistry)
      → Decodes env path frame_index buffer img
      → frame_layout img ≡ some l
      → allocated env w l ≢ 0
      → w.buffer_registry ≡ some r
      → r.poisoned ≡ true
      → DecodeStatus env path frame_index buffer w IgStatus.internal
  delivers :
      (img : DecodedImage) (l : FrameLayout) (r : BufferRegistry)
      → Decodes env path frame_index buffer img
      → frame_layout img ≡ some l
      → allocated env w l ≢ 0
      → w.buffer_registry ≡ some r
      → r.poisoned ≡ false
      → DecodeStatus env path frame_index buffer w IgStatus.ok
