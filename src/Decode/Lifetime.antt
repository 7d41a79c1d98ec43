-- ===== src/Decode/Lifetime.antt =====
-- src/decode.rs: the life of a pixel buffer, from the decode that hands it over to its release.
use imageglass_ithmb_plugin.Prelude.{ℕ, List, ◌≡◌, ◌≢◌, ◌⊎◌, inl, inr, sym, none, some, arith}
use imageglass_ithmb_plugin.Prelude.Int.{ℤ}
use imageglass_ithmb_plugin.Prelude.HashMap.{get, get-insert_self, remove-insert}
use imageglass_ithmb_plugin.Types.{IgStatus, IgStringRef, IgPixelBuffer}
use imageglass_ithmb_plugin.World.{World, Outcome, done, update}
use imageglass_ithmb_plugin.Registry.Laws.{tracked, fresh_entry}
use imageglass_ithmb_plugin.Strings.{Str}
use imageglass_ithmb_plugin.Strings.Access.{IsReadable}
use imageglass_ithmb_plugin.Env.{Env}
use imageglass_ithmb_plugin.Decode.{
  cleared_buffer, filled_buffer, codec_decode_static_raster, codec_free_pixel_buffer,
}
use imageglass_ithmb_plugin.Decode.Memory.{added, delivered, frame_bytes, untracked}
use imageglass_ithmb_plugin.Decode.Layout.{frame_layout_bound}
use imageglass_ithmb_plugin.Decode.Cases.{allocated, Delivers, Refuses}
use imageglass_ithmb_plugin.Decode.Calls.{Reaches, decode_ends}
use imageglass_ithmb_plugin.Decode.Release.{freed, Frees, ignored, kept, released, free_ends}
use imageglass_ithmb_plugin.Decode.Contract.{IsSound, IsSane, delivered_in_step}

-- A run of `codec_free_pixel_buffer` from `w'` that brings back the blocks and the registry of `w`.
pub record Restores (w w' : World) (buffer : ℕ) : Type 0 where
  pub end : World
  pub frees : codec_free_pixel_buffer buffer w' ≡ done tt end
  pub heap : end.heap ≡ w.heap
  pub buffer_registry : end.buffer_registry ≡ w.buffer_registry
  pub forgotten : (end.pixel_buffers buffer).data_ptr ≡ 0

-- The struct that a release has cleared holds a null pointer.
update_self :
    (slots : ℕ → IgPixelBuffer) (buffer : ℕ)
    → (update slots buffer (cleared_buffer (slots buffer)) buffer).data_ptr ≡ 0
unfolding cleared_buffer
update_self slots buffer = ground arith

module _ (env : Env) (w : World) (buffer : ℕ) (bytes : _) (o : Outcome IgStatus) (sane : IsSane env)
    (s : IsSound w) (named : buffer ≢ 0) (d : Delivers env s.registry w buffer bytes o) where
  abbrev after : World
  after = delivered w s.registry buffer (allocated env w d.layout) d.img d.layout

  block : ℕ
  block = allocated env w d.layout

  held : ℕ
  held = (after.pixel_buffers buffer).data_ptr

  held-block : held ≡ block
  unfolding held block filled_buffer
  held-block = ground arith

  delivered_tracked :
      tracked (added s.registry block d.layout.buf_size) held
      ≡ some (fresh_entry block d.layout.buf_size)
  delivered_tracked =
      rw held-block (get-insert_self block (fresh_entry block d.layout.buf_size) s.registry.entries)

  new : (get block w.heap ≡ none) × (tracked s.registry block ≡ none)
  unfolding block
  new =
      untracked env s.registry w buffer d.img d.layout s.consistent sane.allocator
        (frame_layout_bound d.img d.layout (sane.frames bytes d.img d.decodes) d.laid_out)
        d.not_null

  delivered-Restores : Restores w after buffer
  unfolding block held
  delivered-Restores =
      free_case (free_ends _ after (delivered_in_step env w buffer bytes o sane s d) buffer)
    where
      free_case :
          Frees
            (added s.registry block d.layout.buf_size)
            after
            buffer
            (codec_free_pixel_buffer buffer after)
          → Restores w after buffer
      free_case (ignored h e) = absurd (named h)
      free_case (kept h (inl poisoned) e) = absurd (cc (d.unpoisoned, poisoned))
      free_case (kept h (inr q) e) = absurd (cc (delivered_tracked, q))
      free_case (released entry h u q e) = record {
        end = freed after (added s.registry block d.layout.buf_size) buffer;
        frees = e;
        heap =
            rw held-block (remove-insert block (frame_bytes d.img d.layout.buf_size) w.heap new.0);
        buffer_registry =
            rw
              (
                held-block,
                remove-insert block (fresh_entry block d.layout.buf_size) s.registry.entries new.1,
              )
              (sym s.consistent.initialised);
        forgotten = update_self (after.pixel_buffers) buffer;
      }

-- In a sound state, with a sane environment and a readable path: when a decode has returned
-- `Ok`, the release of its struct returns, the blocks and the registry are then as before the
-- decode, and the struct holds the null address.
pub free-decode :
    (env : Env) (path : IgStringRef) (frame_index : ℤ) (buffer : ℕ) (w w' : World)
    → IsSane env
    → IsReadable path
    → IsSound w
    → codec_decode_static_raster env path frame_index buffer w ≡ done IgStatus.ok w'
    → Restores w w' buffer
free-decode env path frame_index buffer w w' sane readable s e = restore_case (
    decode_ends env s.registry w buffer s.consistent sane.allocator sane.frames path frame_index
      s.hosted readable)
  where
    restore_case :
        Refuses w (codec_decode_static_raster env path frame_index buffer w)
          ⊎ ((p : Str) × (bytes : List ℕ) × Reaches env path frame_index buffer p bytes
              × Delivers env s.registry w buffer bytes
                  (codec_decode_static_raster env path frame_index buffer w))
        → Restores w w' buffer
    restore_case (inl a) = absurd (a.not_ok (cc (a.ends, e)))
    restore_case (inr (p, bytes, reach, d)) =
        let same : delivered w s.registry buffer (allocated env w d.layout) d.img d.layout ≡ w' =
          cc (d.ends, e) in
        rw same at (delivered-Restores env w buffer bytes _ sane s reach.writable d)
