-- ===== src/Decode/Status.antt =====
-- src/decode.rs: which status a decode returns.
use native.Mathlib.Decide.{ℕ_discrete}
use imageglass_ithmb_plugin.Prelude.{
  ℕ, ◌≡◌, ◌≢◌, ◌⊎◌, ◌↔◌, inl, inr, refl, ap, ◌≤◌, ◌^◌, length, ◌∙◌, List, none, some, Option-cases,
  Bool-cases, false, arith,
}
use mathlib.Core.Path.{subst}
use imageglass_ithmb_plugin.Prelude.Int.{ℤ, pos, eqb_ℤ}
use imageglass_ithmb_plugin.Types.{IgStatus, IgStringRef, Result}
use imageglass_ithmb_plugin.World.{World, Outcome, done, catch_unwind_or}
use imageglass_ithmb_plugin.Registry.{BufferRegistry}
use imageglass_ithmb_plugin.Strings.{Str}
use imageglass_ithmb_plugin.Strings.Access.{IsReadable, decoded_string}
use imageglass_ithmb_plugin.Env.{Env, DecodedImage, DecodeResult, panics, failed, decoded}
use imageglass_ithmb_plugin.FileIo.{read_ithmb_file}
use imageglass_ithmb_plugin.FileIo.Bounds.{read_ithmb_file_iff}
use imageglass_ithmb_plugin.Decode.{
  FrameLayout, frame_layout, decode_bytes, hand_over, codec_decode_static_raster,
}
use imageglass_ithmb_plugin.Decode.Memory.{
  hand_over_refused, hand_over_poisoned, hand_over_delivers,
}
use imageglass_ithmb_plugin.Decode.Layout.{frame_layout_bound}
use imageglass_ithmb_plugin.Decode.Cases.{allocated}
use imageglass_ithmb_plugin.Decode.Calls.{
  Reaches, first_frame_index, null_buffer, no_path, wrong_frame, read_fails_run, decodes_file,
}
use imageglass_ithmb_plugin.Decode.Contract.{IsSound, IsSane}
use imageglass_ithmb_plugin.Decode.Verdict.{
  IsAccepted, Decodes, DecodeStatus, bad_arguments, unreadable, decoder_panics, decoder_fails,
  too_large, no_memory, lock_poisoned, delivers,
}

other_frame_index : (n : ℤ) → n ≢ pos 0 → eqb_ℤ n (pos 0) ≡ false
other_frame_index n h = ground arith

module _ (env : Env) (path : IgStringRef) (frame_index : ℤ) (buffer : ℕ) (w : World)
    (sane : IsSane env) (readable : IsReadable path) (s : IsSound w) where
  abbrev run : Outcome IgStatus
  run = codec_decode_static_raster env path frame_index buffer w

  abbrev Returns : IgStatus → Type 0
  Returns status = (w' : World) × (run ≡ done status w')

  abbrev Says : IgStatus → Type 0
  Says = DecodeStatus env path frame_index buffer w

  reading :
      (p : Str) (bytes : List ℕ)
      → Reaches env path frame_index buffer p bytes
      → run ≡ catch_unwind_or IgStatus.internal (decode_bytes env buffer bytes) w
  reading p bytes h =
      decodes_file env s.registry w buffer s.consistent sane.allocator sane.frames path frame_index
        s.hosted readable p bytes h.writable h.named (rw h.first_frame refl)
        ((read_ithmb_file_iff env p bytes).1 h.whole)

  null_buffer_run : buffer ≡ 0 → run ≡ done IgStatus.invalid_arg w
  null_buffer_run =
      null_buffer env s.registry w buffer s.consistent sane.allocator sane.frames path frame_index
        s.hosted readable

  no_path_run : decoded_string path.data_ptr path.length ≡ none → run ≡ done IgStatus.invalid_arg w
  no_path_run e = elim (ℕ_discrete buffer 0) [
    | yes null ↦ null_buffer_run null
    | no h ↦
        no_path env s.registry w buffer s.consistent sane.allocator sane.frames path frame_index
          s.hosted readable h e
  ]

  other_frame_run : frame_index ≢ pos 0 → run ≡ done IgStatus.invalid_arg w
  other_frame_run index = elim (ℕ_discrete buffer 0) [
    | yes null ↦ null_buffer_run null
    | no h ↦ elim (Option-cases (decoded_string path.data_ptr path.length)) [
      | inl e ↦ no_path_run e
      | inr (p, e) ↦
          wrong_frame env s.registry w buffer s.consistent sane.allocator sane.frames path
            frame_index s.hosted readable p h e (other_frame_index frame_index index)
    ]
  ]

  handed_run :
      (img : DecodedImage) (l : FrameLayout) (status : IgStatus) (w' : World)
      → Decodes env path frame_index buffer img
      → frame_layout img ≡ some l
      → hand_over env buffer img l w ≡ done status w'
      → run ≡ done status w'
  unfolding decode_bytes
  handed_run img l status w' d e q =
      reading d.path_str d.bytes d.reaches ∙ rw (catch_unwind_or, decode_bytes, d.decodes, e, q)

  bound :
      (img : DecodedImage) (l : FrameLayout)
      → Decodes env path frame_index buffer img
      → frame_layout img ≡ some l
      → (l.buf_size ≤ length img.pixels) ⊎ (2 ^ 63 ≤ l.buf_size)
  bound img l d e = frame_layout_bound img l (sane.frames d.bytes img d.decodes) e

  registered : (r : BufferRegistry) → w.buffer_registry ≡ some r → s.registry.poisoned ≡ r.poisoned
  registered r set =
      let same : s.registry ≡ r = cc (s.consistent.initialised, set) in
      ap (λ (q : BufferRegistry). q.poisoned) same

  Says-Returns : (status : IgStatus) → Says status → Returns status
  unfolding decode_bytes
  Says-Returns _ (bad_arguments (inl null)) = (w, null_buffer_run null)
  Says-Returns _ (bad_arguments (inr (inl e))) = (w, no_path_run e)
  Says-Returns _ (bad_arguments (inr (inr index))) = (w, other_frame_run index)
  Says-Returns _ (unreadable p st h e) =
      let (calls, ends) =
        read_fails_run env s.registry w buffer s.consistent sane.allocator sane.frames path
          frame_index s.hosted readable p st h.writable h.named (rw h.first_frame refl) e in
      (record w { log_calls = calls }, ends)
  Says-Returns _ (decoder_panics p bytes h e) =
      (w, reading p bytes h ∙ rw (catch_unwind_or, decode_bytes, e))
  Says-Returns _ (decoder_fails p bytes error h e) =
      (w, reading p bytes h ∙ rw (catch_unwind_or, decode_bytes, e))
  Says-Returns _ (too_large img d e) =
      (w, reading d.path_str d.bytes d.reaches ∙ rw (catch_unwind_or, decode_bytes, d.decodes, e))
  Says-Returns _ (no_memory img l d e null) = (
    w,
    handed_run img l _ w d e (
        hand_over_refused env s.registry w buffer img l s.consistent sane.allocator
          (bound img l d e) null),
  )
  Says-Returns _ (lock_poisoned img l r d e live set poisoned) = (
    w,
    handed_run img l _ w d e (
        hand_over_poisoned env s.registry w buffer img l s.consistent sane.allocator
          (bound img l d e) live (registered r set ∙ poisoned)),
  )
  Says-Returns _ (delivers img l r d e live set healthy) = (
    _,
    handed_run img l _ _ d e (
        hand_over_delivers env s.registry w buffer img l s.consistent sane.allocator
          (bound img l d e) live (registered r set ∙ healthy)),
  )

  decoded-Says :
      (img : DecodedImage)
      → Decodes env path frame_index buffer img
      → (status : IgStatus) × Says status
  decoded-Says img d = elim (Option-cases (frame_layout img)) [
    | inl large ↦ (_, too_large img d large)
    | inr (l, e) ↦ elim (ℕ_discrete (allocated env w l) 0) [
      | yes null ↦ (_, no_memory img l d e null)
      | no live ↦ elim (Bool-cases s.registry.poisoned) [
        | inl poisoned ↦
            (_, lock_poisoned img l s.registry d e live s.consistent.initialised poisoned)
        | inr healthy ↦ (_, delivers img l s.registry d e live s.consistent.initialised healthy)
      ]
    ]
  ]

  decoder-Says :
      (p : Str) (bytes : List ℕ) (result : DecodeResult)
      → Reaches env path frame_index buffer p bytes
      → env.decode_ithmb bytes false ≡ result
      → (status : IgStatus) × Says status
  decoder-Says p bytes panics h e = (_, decoder_panics p bytes h e)
  decoder-Says p bytes (failed error) h e = (_, decoder_fails p bytes error h e)
  decoder-Says p bytes (decoded img) h e =
      decoded-Says img (record { path_str = p; bytes = bytes; reaches = h; decodes = e })

  file-Says :
      (p : Str) (result : Result (List ℕ))
      → IsAccepted path frame_index buffer p
      → read_ithmb_file env p ≡ result
      → (status : IgStatus) × Says status
  file-Says p (Result.err st) h e = (st, unreadable p st h e)
  file-Says p (Result.ok bytes) h e =
      decoder-Says p bytes (env.decode_ithmb bytes false)
        (record {
          writable = h.writable;
          named = h.named;
          first_frame = h.first_frame;
          whole = (read_ithmb_file_iff env p bytes).0 e;
        })
        refl

  some-Says : (status : IgStatus) × Says status
  some-Says = elim (ℕ_discrete buffer 0) [
    | yes null ↦ (_, bad_arguments (inl null))
    | no h ↦ elim (Option-cases (decoded_string path.data_ptr path.length)) [
      | inl e ↦ (_, bad_arguments (inr (inl e)))
      | inr (p, e) ↦ elim (Bool-cases (eqb_ℤ frame_index (pos 0))) [
        | inl index ↦
            file-Says p (read_ithmb_file env p)
              (record {
                writable = h;
                named = e;
                first_frame = first_frame_index frame_index index;
              })
              refl
        | inr other ↦ (_, bad_arguments (inr (inr (λ q. cc (other, ap (λ n. eqb_ℤ n (pos 0)) q)))))
      ]
    ]
  ]

  -- In a sound state, with a sane environment and a readable path, a decode returns a status
  -- exactly when one of the cases of DecodeStatus with that status holds: InvalidArg for a null
  -- struct, a path without text or a frame other than the first; the error of the file read;
  -- Internal for a panic of the decoder, else its error by its status code; OutOfMemory for a
  -- layout that overflows or an allocation that fails; Internal for a poisoned lock; and Ok if
  -- none of these is so.
  pub DecodeStatus-iff :
      (status : IgStatus)
      → ((w' : World) × (codec_decode_static_raster env path frame_index buffer w ≡ done status w'))
        ↔ DecodeStatus env path frame_index buffer w status
  DecodeStatus-iff status = (
    λ returned.
        let (st, says) = some-Says in
        let (w', ends) = Says-Returns st says in
        let same : st ≡ status = cc (ends, returned.1) in subst Says same says,
    Says-Returns status,
  )
