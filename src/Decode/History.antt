-- ===== src/Decode/History.antt =====
-- src/decode.rs: what a decode and a release add to the host's log.
use imageglass_ithmb_plugin.Prelude.{
  ℕ, inr, refl, map, take, drop, ◌++◌, List, Option, none, some, false, ◌==◌, ltb, ◌||◌,
  if◌then◌else◌, length,
}
use imageglass_ithmb_plugin.Prelude.Int.{ℤ}
use imageglass_ithmb_plugin.Prelude.HashMap.{get, insert, remove}
use imageglass_ithmb_plugin.Types.{
  IgStatus, IgStringRef, IgPixelBuffer, ig_status_from_decode_error,
}
use imageglass_ithmb_plugin.World.{World, Block, done, undefined, pure, modify, update, panic}
use imageglass_ithmb_plugin.Registry.{BufferRegistry}
use imageglass_ithmb_plugin.Env.{Env, DecodedImage, DecodeResult, decoded, failed, panics}
use imageglass_ithmb_plugin.FileIo.{read_ithmb_file}
use imageglass_ithmb_plugin.Logging.{LogLevel, level_code}
use imageglass_ithmb_plugin.Logging.History.{
  log_rules, Logs, Sends, Sent-same, Sends-if, Logs-bind, Logs-pure, Logs-modify, Logs-panic,
  Logs-catch_unwind_or, Logs-if, Logs-elim, Logs-result,
}
use imageglass_ithmb_plugin.Logging.Messages.{Logs-with_core, Sends-log, utf16_to_string-Logs}
use imageglass_ithmb_plugin.Allocator.{pixel_buffer_alloc, pixel_buffer_free, copy_nonoverlapping}
use imageglass_ithmb_plugin.Decode.{
  FrameLayout, frame_layout, register_buffer, unregister_buffer, hand_over, decode_bytes,
  log_read_failure, decode_body, codec_decode_static_raster, cleared_buffer, release_data,
  free_body, codec_free_pixel_buffer,
}

entries_stored-Logs :
    (r : BufferRegistry) → Logs (modify (λ w. record w { buffer_registry = some r }))
entries_stored-Logs r = record { sends = λ w. Sent-same w _ refl refl }

register_buffer-Logs : (p n : ℕ) → Logs (register_buffer p n)
unfolding register_buffer
register_buffer-Logs p n = search (log_rules, entries_stored-Logs)

unregister_buffer-Logs : (p : ℕ) → Logs (unregister_buffer p)
unfolding unregister_buffer
unregister_buffer-Logs p = search (log_rules, entries_stored-Logs)

pixel_buffer_alloc-Logs : (env : Env) (n : ℕ) → Logs (pixel_buffer_alloc env n)
unfolding pixel_buffer_alloc
pixel_buffer_alloc-Logs env n = record {
  sends = λ w.
      Sends-if w (env.malloc w.heap n == 0) _ _ (Sent-same w _ refl refl) (Sent-same w _ refl refl);
}

free_block-Sends :
    (w : World) (p : ℕ) (o : Option Block)
    → Sends {A = Unit {0}} w
        (elim o [ none ↦ undefined | some block ↦ done tt (record w { heap = remove p w.heap }) ])
free_block-Sends w p none = tt
free_block-Sends w p (some block) = Sent-same w _ refl refl

pixel_buffer_free-Logs : (p : ℕ) → Logs (pixel_buffer_free p)
unfolding pixel_buffer_free
pixel_buffer_free-Logs p = record {
  sends =
      λ w. Sends-if w (p == 0) _ _ (Sent-same w _ refl refl) (free_block-Sends w p (get p w.heap));
}

copy_block-Sends :
    (w : World) (src : List ℕ) (dst n : ℕ) (o : Option Block)
    → Sends {A = Unit {0}} w (elim o [
      | none ↦ undefined
      | some block ↦
          if ltb (length src) n || ltb (length block) n
          then undefined
          else done tt
              (record w { heap = insert dst (map some (take n src) ++ drop n block) w.heap })
    ])
copy_block-Sends w src dst n none = tt
copy_block-Sends w src dst n (some block) =
    Sends-if {A = Unit {0}} w (ltb (length src) n || ltb (length block) n) undefined
      (done tt (record w { heap = insert dst (map some (take n src) ++ drop n block) w.heap })) tt
      (Sent-same w _ refl refl)

copy_nonoverlapping-Logs : (src : List ℕ) (dst n : ℕ) → Logs (copy_nonoverlapping src dst n)
unfolding copy_nonoverlapping
copy_nonoverlapping-Logs src dst n = record {
  sends = λ w. copy_block-Sends w src dst n (get dst w.heap);
}

hand_over-Logs :
    (env : Env) (buffer : ℕ) (img : DecodedImage) (l : FrameLayout)
    → Logs (hand_over env buffer img l)
unfolding hand_over
hand_over-Logs env buffer img l = Logs-bind _ _ (pixel_buffer_alloc-Logs env l.buf_size) λ data_ptr.
    Logs-if (data_ptr == 0) _ _ (Logs-pure IgStatus.out_of_memory) (
      Logs-bind _ _ (copy_nonoverlapping-Logs img.pixels data_ptr l.buf_size) λ _.
        Logs-bind _ _ (register_buffer-Logs data_ptr l.buf_size) λ registered.
          Logs-result registered _ _
            (λ e. Logs-bind _ _ (pixel_buffer_free-Logs data_ptr) λ _. Logs-pure IgStatus.internal)
            λ a. Logs-bind _ _ (Logs-modify _ λ w. (refl, refl)) λ _. Logs-pure IgStatus.ok)

decode_result-Logs :
    (env : Env) (buffer : ℕ) (result : DecodeResult)
    → Logs (elim result [
      | panics ↦ panic
      | failed e ↦ pure (ig_status_from_decode_error e)
      | decoded img ↦ elim (frame_layout img) [
        | none ↦ pure IgStatus.out_of_memory
        | some l ↦ hand_over env buffer img l
      ]
    ])
decode_result-Logs env buffer panics = Logs-panic IgStatus
decode_result-Logs env buffer (failed e) = Logs-pure (ig_status_from_decode_error e)
decode_result-Logs env buffer (decoded img) =
    Logs-elim (frame_layout img) _ _ (Logs-pure IgStatus.out_of_memory)
      (hand_over-Logs env buffer img)

decode_bytes-Logs : (env : Env) (buffer : ℕ) (bytes : List ℕ) → Logs (decode_bytes env buffer bytes)
unfolding decode_bytes
decode_bytes-Logs env buffer bytes = decode_result-Logs env buffer (env.decode_ithmb bytes false)

log_read_failure-Logs : (status : IgStatus) → Logs (log_read_failure status)
unfolding log_read_failure level_code
log_read_failure-Logs status =
    Logs-with_core _ λ w api core h. Sends-log w api core LogLevel.error _ h (inr refl)

decode_body-Logs :
    (env : Env) (path : IgStringRef) (frame_index : ℤ) (buffer : ℕ)
    → Logs (decode_body env path frame_index buffer)
unfolding decode_body
decode_body-Logs env path frame_index buffer =
    Logs-if (buffer == 0) _ _ (Logs-pure IgStatus.invalid_arg) (
      Logs-bind _ _ (utf16_to_string-Logs path) λ path_str.
        Logs-elim path_str _ _ (Logs-pure IgStatus.invalid_arg) λ p.
          Logs-if _ _ _ (Logs-pure IgStatus.invalid_arg) (
            Logs-result (read_ithmb_file env p) _ _
              (λ status. Logs-bind _ _ (log_read_failure-Logs status) λ _. Logs-pure status)
              (decode_bytes-Logs env buffer)))

pub codec_decode_static_raster-Logs :
    (env : Env) (path : IgStringRef) (frame_index : ℤ) (buffer : ℕ)
    → Logs (codec_decode_static_raster env path frame_index buffer)
unfolding codec_decode_static_raster
codec_decode_static_raster-Logs env path frame_index buffer =
    Logs-catch_unwind_or IgStatus.internal _ (decode_body-Logs env path frame_index buffer)

release_data-Logs : (data_ptr : ℕ) → Logs (release_data data_ptr)
unfolding release_data
release_data-Logs data_ptr = Logs-if (data_ptr == 0) _ _ (Logs-pure tt) (
    Logs-bind _ _ (unregister_buffer-Logs data_ptr) λ unregistered.
      Logs-result unregistered _ _ (λ e. Logs-pure tt) λ e. pixel_buffer_free-Logs data_ptr)

cleared-Logs :
    (buffer : ℕ) (held : IgPixelBuffer)
    → Logs (
        modify
          (λ w. record w { pixel_buffers = update w.pixel_buffers buffer (cleared_buffer held) }))
cleared-Logs buffer held = record { sends = λ w. Sent-same w _ refl refl }

free_body-Logs : (buffer : ℕ) → Logs (free_body buffer)
unfolding free_body
free_body-Logs buffer = search (log_rules, cleared-Logs, release_data-Logs)

pub codec_free_pixel_buffer-Logs : (buffer : ℕ) → Logs (codec_free_pixel_buffer buffer)
unfolding codec_free_pixel_buffer
codec_free_pixel_buffer-Logs buffer = Logs-catch_unwind_or tt _ (free_body-Logs buffer)
