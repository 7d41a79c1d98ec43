-- ===== src/Decode/Frames.antt =====
-- src/decode.rs: what a decode leaves behind, when it succeeds and when it fails.
use imageglass_ithmb_plugin.Prelude.{
  ℕ, ◌≤◌, ◌≡◌, ◌≢◌, refl, ◌⊎◌, inl, inr, sym, ap, ◌∙◌, none, some, false, List, arith, length, map,
  take, ==-false,
}
use imageglass_ithmb_plugin.Prelude.Int.{ℤ, pos}
use imageglass_ithmb_plugin.Prelude.Machine.{as_i32, as_usize, i32_checked_mul, usize_checked_mul}
use imageglass_ithmb_plugin.Prelude.HashMap.{get, get-insert, get-insert_self}
use imageglass_ithmb_plugin.Types.{IgStatus, IgStringRef}
use imageglass_ithmb_plugin.World.{World, done}
use imageglass_ithmb_plugin.Strings.{Str}
use imageglass_ithmb_plugin.Strings.Access.{IsReadable}
use imageglass_ithmb_plugin.Env.{Env, DecodedImage, decoded}
use imageglass_ithmb_plugin.Decode.{FrameLayout, filled_buffer, codec_decode_static_raster}
use imageglass_ithmb_plugin.Decode.Memory.{delivered, frame_bytes, untracked, fits}
use imageglass_ithmb_plugin.Decode.Layout.{frame_layout_parts, frame_layout_bound}
use imageglass_ithmb_plugin.Decode.Cases.{allocated, Delivers, Refuses}
use imageglass_ithmb_plugin.Decode.Calls.{Reaches, decode_ends}
use imageglass_ithmb_plugin.Decode.Contract.{IsSound, IsSane}

-- What the host finds after a successful decode: the frame of the file that it named, in a block
-- that is new, and all else as it was.
pub record HasFrame (env : Env) (path : IgStringRef) (frame_index : ℤ) (buffer : ℕ) (w w' : World)
    : Type 0 where
  pub path_str : Str
  pub bytes : List ℕ
  pub img : DecodedImage
  pub block : ℕ
  pub stride : ℤ
  pub size : ℕ
  pub reaches : Reaches env path frame_index buffer path_str bytes
  pub decodes : env.decode_ithmb bytes false ≡ decoded img
  pub row_of_four : i32_checked_mul (as_i32 img.width) (pos 4) ≡ some stride
  pub rows : usize_checked_mul (as_usize (as_i32 img.height)) (as_usize stride) ≡ some size
  pub covered : size ≤ length img.pixels
  pub new_block : get block w.heap ≡ none
  pub filled_block : get block w'.heap ≡ some (map some (take size img.pixels))
  pub slot : w'.pixel_buffers buffer ≡ record {
    data_ptr = block;
    width = as_i32 img.width;
    height = as_i32 img.height;
    stride = stride;
    pixel_format = pos 1;
    release_context = 0;
  }
  pub other_slots : (q : ℕ) → buffer ≢ q → w'.pixel_buffers q ≡ w.pixel_buffers q
  pub other_blocks : (a : ℕ) → block ≢ a → get a w'.heap ≡ get a w.heap

-- The literal form of the buffer that is handed over.
filled_buffer-fields :
    (l : FrameLayout) (p : ℕ)
    → filled_buffer l p ≡ record {
      data_ptr = p;
      width = l.width;
      height = l.height;
      stride = l.stride;
      pixel_format = pos 1;
      release_context = 0;
    }
unfolding filled_buffer
filled_buffer-fields l p = refl

module _ (env : Env) (path : IgStringRef) (frame_index : ℤ) (buffer : ℕ) (w : World)
    (sane : IsSane env) (readable : IsReadable path) (s : IsSound w) where
  ended :
      Refuses w (codec_decode_static_raster env path frame_index buffer w)
      ⊎ ((p : Str) × (bytes : List ℕ) × Reaches env path frame_index buffer p bytes
          × Delivers env s.registry w buffer bytes
              (codec_decode_static_raster env path frame_index buffer w))
  ended =
      decode_ends env s.registry w buffer s.consistent sane.allocator sane.frames path frame_index
        s.hosted readable

  delivered-HasFrame :
      (p : Str) (bytes : List ℕ) (w' : World)
      → Reaches env path frame_index buffer p bytes
      → (d : Delivers env s.registry w buffer bytes
          (codec_decode_static_raster env path frame_index buffer w))
      → w' ≡ delivered w s.registry buffer (allocated env w d.layout) d.img d.layout
      → HasFrame env path frame_index buffer w w'
  delivered-HasFrame p bytes w' reach d e =
      let l = d.layout in
      let b = allocated env w l in
      let bound = frame_layout_bound d.img l (sane.frames bytes d.img d.decodes) d.laid_out in
      let (wide, high, stride_eq, size_eq) = frame_layout_parts d.img l d.laid_out in
      let at_slot : w'.pixel_buffers buffer ≡ filled_buffer l b = rw e (ground arith) in
      let frame = frame_bytes d.img l.buf_size in
      record {
        path_str = p;
        bytes = bytes;
        img = d.img;
        block = b;
        stride = l.stride;
        size = l.buf_size;
        reaches = reach;
        decodes = d.decodes;
        row_of_four = rw (sym wide) stride_eq;
        rows = rw (sym high) size_eq;
        covered = fits env s.registry w buffer d.img l s.consistent sane.allocator bound d.not_null;
        new_block =
            (untracked env s.registry w buffer d.img l s.consistent sane.allocator bound
              d.not_null).0;
        filled_block = rw e (get-insert_self b frame w.heap);
        slot = at_slot ∙ rw (sym wide, sym high) (filled_buffer-fields l b);
        other_slots = λ q h. rw (e, ==-false buffer q h);
        other_blocks = λ a h. rw (e, get-insert b a frame w.heap, ==-false b a h);
      }

  -- In a sound state, with a sane environment and a readable path, a decode that returns `Ok`
  -- has passed its guards and put the decoder's bytes for the named file into a block that was
  -- not live; the struct describes that block, and other structs and blocks are as they were.
  pub decode-HasFrame :
      (w' : World)
      → codec_decode_static_raster env path frame_index buffer w ≡ done IgStatus.ok w'
      → HasFrame env path frame_index buffer w w'
  decode-HasFrame w' e = frame_case ended
    where
      frame_case :
          Refuses w (codec_decode_static_raster env path frame_index buffer w)
            ⊎ ((p : Str) × (bytes : List ℕ) × Reaches env path frame_index buffer p bytes
                × Delivers env s.registry w buffer bytes
                    (codec_decode_static_raster env path frame_index buffer w))
          → HasFrame env path frame_index buffer w w'
      frame_case (inl a) = absurd (a.not_ok (cc (a.ends, e)))
      frame_case (inr (p, bytes, reach, d)) = delivered-HasFrame p bytes w' reach d (cc (d.ends, e))

  -- Under the same conditions a decode that returns any other status has changed nothing but the
  -- record of log calls.
  pub decode_error_keeps :
      (status : IgStatus) (w' : World)
      → codec_decode_static_raster env path frame_index buffer w ≡ done status w'
      → status ≢ IgStatus.ok
      → w' ≡ record w { log_calls = w'.log_calls }
  decode_error_keeps status w' e bad = keep_case ended
    where
      keep_case :
          Refuses w (codec_decode_static_raster env path frame_index buffer w)
            ⊎ ((p : Str) × (bytes : List ℕ) × Reaches env path frame_index buffer p bytes
                × Delivers env s.registry w buffer bytes
                    (codec_decode_static_raster env path frame_index buffer w))
          → w' ≡ record w { log_calls = w'.log_calls }
      keep_case (inl a) =
          let same : w' ≡ record w { log_calls = a.calls } = cc (a.ends, e) in
          same ∙ ap (λ (v : World). record w { log_calls = v.log_calls }) (sym same)
      keep_case (inr (p, bytes, reach, d)) = absurd (bad (cc (d.ends, e)))
