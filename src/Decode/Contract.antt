-- ===== src/Decode/Contract.antt =====
-- src/decode.rs: what the host can rely on when it decodes and frees pixel buffers.
use imageglass_ithmb_plugin.Prelude.{some, ℕ, ◌≡◌, inl, inr, refl, ◌∙◌, List}
use imageglass_ithmb_plugin.Prelude.Int.{ℤ}
use imageglass_ithmb_plugin.Types.{IgStatus, IgStringRef}
use imageglass_ithmb_plugin.World.{World, Outcome, done}
use imageglass_ithmb_plugin.Registry.{BufferRegistry, BufferEntry}
use imageglass_ithmb_plugin.Registry.Laws.{tracked}
use imageglass_ithmb_plugin.Strings.Access.{IsReadable}
use imageglass_ithmb_plugin.Env.{Env}
use imageglass_ithmb_plugin.Logging.Effect.{IsHosted}
use imageglass_ithmb_plugin.Allocator.{IsAllocator}
use imageglass_ithmb_plugin.Decode.{codec_decode_static_raster, codec_free_pixel_buffer}
use imageglass_ithmb_plugin.Decode.Memory.{IsConsistent, added, delivered, delivered-IsConsistent}
use imageglass_ithmb_plugin.Decode.Layout.{frame_layout_bound}
use imageglass_ithmb_plugin.Decode.Cases.{allocated, DecodesFrames, Delivers}
use imageglass_ithmb_plugin.Decode.Calls.{decode_ends}
use imageglass_ithmb_plugin.Decode.Release.{
  removed, cleared, freed, Frees, ignored, kept, released, free_ends, removed-IsConsistent,
}

-- A state in which some registry is in step with the live blocks.
pub record IsSound (w : World) : Type 0 where
  pub registry : BufferRegistry
  pub consistent : IsConsistent registry w
  pub hosted : IsHosted w

-- What is known of the code that the plugin calls.
pub record IsSane (env : Env) : Type 0 where
  pub allocator : IsAllocator env.malloc
  pub frames : DecodesFrames env

pub in_step :
    (r : BufferRegistry) (w w' : World)
    → w'.buffer_registry ≡ w.buffer_registry
    → w'.heap ≡ w.heap
    → IsConsistent r w
    → IsConsistent r w'
in_step r w w' er eh c = record {
  initialised = er ∙ c.initialised;
  valid = c.valid;
  distinct = rw eh c.distinct;
  same = λ a. rw eh (c.same a);
  no_null = rw eh c.no_null;
}

pub in_step_cleared : (w : World) (a : ℕ) (s : IsSound w) → IsConsistent s.registry (cleared w a)
in_step_cleared w a s = in_step s.registry w (cleared w a) refl refl s.consistent

-- A state with the same registry, blocks and host API is as sound.
pub same_memory-IsSound :
    (w w' : World)
    → w'.buffer_registry ≡ w.buffer_registry
    → w'.heap ≡ w.heap
    → w'.host_api ≡ w.host_api
    → IsSound w
    → IsSound w'
same_memory-IsSound w w' er eh ea s = record {
  registry = s.registry;
  consistent = in_step s.registry w w' er eh s.consistent;
  hosted = rw ea s.hosted;
}

pub delivered_in_step :
    (env : Env) (w : World) (buffer : ℕ) (bytes : List ℕ) (o : Outcome IgStatus)
    → IsSane env
    → (s : IsSound w) → (d : Delivers env s.registry w buffer bytes o)
    → IsConsistent
        (added s.registry (allocated env w d.layout) d.layout.buf_size)
        (delivered w s.registry buffer (allocated env w d.layout) d.img d.layout)
delivered_in_step env w buffer bytes o sane s d =
    delivered-IsConsistent env s.registry w buffer d.img d.layout s.consistent sane.allocator
      (frame_layout_bound d.img d.layout (sane.frames bytes d.img d.decodes) d.laid_out) d.not_null
      d.unpoisoned

delivered-IsSound :
    (env : Env) (w : World) (buffer : ℕ) (bytes : List ℕ) (o : Outcome IgStatus)
    → IsSane env
    → (s : IsSound w) → (d : Delivers env s.registry w buffer bytes o)
    → IsSound (delivered w s.registry buffer (allocated env w d.layout) d.img d.layout)
delivered-IsSound env w buffer bytes o sane s d = record {
  registry = added s.registry (allocated env w d.layout) d.layout.buf_size;
  consistent = delivered_in_step env w buffer bytes o sane s d;
  hosted = s.hosted;
}

pub freed-IsSound :
    (w : World) (buffer : ℕ) (s : IsSound w) (e : BufferEntry)
    → tracked s.registry (w.pixel_buffers buffer).data_ptr ≡ some e
    → IsSound (freed w s.registry buffer)
freed-IsSound w buffer s e q = record {
  registry = removed s.registry (w.pixel_buffers buffer).data_ptr;
  consistent = removed-IsConsistent s.registry w s.consistent _ e (cleared w buffer) q;
  hosted = s.hosted;
}

-- In a sound state the release of any struct returns, whatever address the struct holds, in a
-- sound state: it does not panic, and frees nothing that is not live.
pub free-IsSound :
    (w : World) (buffer : ℕ)
    → IsSound w
    → (w' : World) × (codec_free_pixel_buffer buffer w ≡ done tt w') × IsSound w'
free-IsSound w buffer s = free_case (free_ends s.registry w s.consistent buffer)
  where
    free_case :
        Frees s.registry w buffer (codec_free_pixel_buffer buffer w)
        → (w' : World) × (codec_free_pixel_buffer buffer w ≡ done tt w') × IsSound w'
    free_case (ignored h e) = (w, e, s)
    free_case (kept h q e) = (cleared w buffer, e, same_memory-IsSound w _ refl refl refl s)
    free_case (released entry h u q e) =
        (freed w s.registry buffer, e, freed-IsSound w buffer s entry q)

-- In a sound state, with a sane environment and a readable path, a decode at any frame index and
-- any buffer pointer returns some status, in a sound state: it does not panic, and has no
-- undefined behaviour.
pub decode-IsSound :
    (env : Env) (path : IgStringRef) (frame_index : ℤ) (buffer : ℕ) (w : World)
    → IsSane env
    → IsReadable path
    → IsSound w
    → (status : IgStatus) × (w' : World) × (codec_decode_static_raster env path frame_index buffer w
        ≡ done status w')
      × IsSound w'
decode-IsSound env path frame_index buffer w sane readable s =
    elim (decode_ends env s.registry w buffer s.consistent sane.allocator sane.frames path
      frame_index s.hosted readable) [
        | inl a ↦ (
          a.status,
          record w { log_calls = a.calls },
          a.ends,
          same_memory-IsSound w _ refl refl refl s,
        )
        | inr (p, bytes, reach, d) ↦ (
          IgStatus.ok,
          delivered w s.registry buffer (allocated env w d.layout) d.img d.layout,
          d.ends,
          delivered-IsSound env w buffer bytes _ sane s d,
        )
      ]
