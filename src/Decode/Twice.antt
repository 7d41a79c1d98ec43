-- ===== src/Decode/Twice.antt =====
-- src/decode.rs: a second release of one pixel buffer.
use imageglass_ithmb_plugin.Prelude.{ℕ, ◌≡◌, ◌≢◌, ◌⊎◌, inl, inr, refl, none, true, arith}
use imageglass_ithmb_plugin.Prelude.HashMap.{get-remove}
use imageglass_ithmb_plugin.World.{World, done}
use imageglass_ithmb_plugin.Registry.{BufferRegistry}
use imageglass_ithmb_plugin.Registry.Laws.{tracked}
use imageglass_ithmb_plugin.Decode.{cleared_buffer, codec_free_pixel_buffer}
use imageglass_ithmb_plugin.Decode.Memory.{IsConsistent}
use imageglass_ithmb_plugin.Decode.Release.{
  removed, cleared, freed, Frees, ignored, kept, released, free_ends, removed-IsConsistent,
}
use imageglass_ithmb_plugin.Decode.Contract.{IsSound, in_step_cleared}

-- A release of the struct at `b` that leaves the blocks and the registry as they are.
pub record FreesNothing (b : ℕ) (w : World) : Type 0 where
  pub end : World
  pub frees : codec_free_pixel_buffer b w ≡ done tt end
  pub heap : end.heap ≡ w.heap
  pub buffer_registry : end.buffer_registry ≡ w.buffer_registry

module _ (r : BufferRegistry) (w : World) (b : ℕ) (c : IsConsistent r w) where
  unknown-FreesNothing :
      (r.poisoned ≡ true) ⊎ (tracked r (w.pixel_buffers b).data_ptr ≡ none) → FreesNothing b w
  unknown-FreesNothing unknown = release_case (free_ends r w c b)
    where
      release_case : Frees r w b (codec_free_pixel_buffer b w) → FreesNothing b w
      release_case (ignored h e) = record {
        end = w;
        frees = e;
        heap = refl;
        buffer_registry = refl;
      }
      release_case (kept h q e) = record {
        end = cleared w b;
        frees = e;
        heap = refl;
        buffer_registry = refl;
      }
      release_case (released entry h u q e) = absurd (ground (arith, unknown))

module _ (r : BufferRegistry) (w : World) (a b : ℕ) (c : IsConsistent r w)
    (alias : (w.pixel_buffers a).data_ptr ≡ (w.pixel_buffers b).data_ptr) where
  abbrev p : ℕ
  p = (w.pixel_buffers a).data_ptr

  -- After the first release the second struct holds the null address or the same one.
  second_slot :
      (((cleared w a).pixel_buffers b).data_ptr ≡ 0)
      ⊎ (((cleared w a).pixel_buffers b).data_ptr ≡ p)
  unfolding cleared_buffer
  second_slot = ground arith

  null_untracked : tracked r 0 ≡ none
  null_untracked = ground (arith, c.same 0, c.no_null)

  kept_untracked : tracked r p ≡ none → tracked r ((cleared w a).pixel_buffers b).data_ptr ≡ none
  kept_untracked q = elim second_slot [ inl null ↦ rw null null_untracked | inr same ↦ rw same q ]

  released_untracked : tracked (removed r p) ((freed w r a).pixel_buffers b).data_ptr ≡ none
  released_untracked = elim second_slot [
    | inl null ↦ rw null (ground (arith, null_untracked, get-remove p 0 r.entries c.valid.distinct))
    | inr same ↦ rw same (ground (arith, get-remove p p r.entries c.valid.distinct))
  ]

-- In a sound state, after the release of a non-null struct, the release of any struct that held
-- the same address (that struct again, or a copy of it) frees nothing and leaves the blocks and
-- the registry as they are.
pub free_twice :
    (w w' : World) (a b : ℕ)
    → IsSound w
    → a ≢ 0
    → (w.pixel_buffers a).data_ptr ≡ (w.pixel_buffers b).data_ptr
    → codec_free_pixel_buffer a w ≡ done tt w'
    → FreesNothing b w'
free_twice w w' a b s named alias first = second_case (free_ends s.registry w s.consistent a)
  where
    second_case : Frees s.registry w a (codec_free_pixel_buffer a w) → FreesNothing b w'
    second_case (ignored h e) = absurd (named h)
    second_case (kept h q e) =
        let same : cleared w a ≡ w' = cc (e, first) in
        rw same at
          (unknown-FreesNothing s.registry (cleared w a) b (in_step_cleared w a s) (still q))
      where
        still :
            (s.registry.poisoned ≡ true) ⊎ (tracked s.registry (w.pixel_buffers a).data_ptr ≡ none)
            → (s.registry.poisoned ≡ true)
              ⊎ (tracked s.registry ((cleared w a).pixel_buffers b).data_ptr ≡ none)
        still (inl poisoned) = inl poisoned
        still (inr q) = inr (kept_untracked s.registry w a b s.consistent alias q)
    second_case (released entry h u q e) =
        let same : freed w s.registry a ≡ w' = cc (e, first) in
        rw same at (
          unknown-FreesNothing (removed s.registry (w.pixel_buffers a).data_ptr)
            (freed w s.registry a) b
            (removed-IsConsistent s.registry w s.consistent _ entry (cleared w a) q)
            (inr (released_untracked s.registry w a b s.consistent alias)))
