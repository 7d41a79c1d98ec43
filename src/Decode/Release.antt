-- ===== src/Decode/Release.antt =====
-- src/decode.rs: the ways in which `codec_free_pixel_buffer` can end.
use native.Mathlib.Decide.{ℕ_discrete}
use imageglass_ithmb_plugin.Prelude.{
  ℕ, ◌≡◌, ◌≢◌, ◌⊎◌, inl, inr, refl, ap, sym, Option, none, some, true, false, ==-true, ==-false,
  Bool-cases, Option-cases, arith, length,
}
use imageglass_ithmb_plugin.Prelude.HashMap.{get, remove, get-remove, remove-IsDistinct}
use imageglass_ithmb_plugin.Types.{IgStatus, Result}
use imageglass_ithmb_plugin.World.{
  World, Block, Outcome, done, update, catch_unwind_or, ◌>>=◌, ◌>>◌,
}
use imageglass_ithmb_plugin.Registry.{BufferEntry, BufferRegistry, unregister}
use imageglass_ithmb_plugin.Registry.Laws.{tracked}
use imageglass_ithmb_plugin.Decode.{
  cleared_buffer, release_data, free_body, codec_free_pixel_buffer,
}
use imageglass_ithmb_plugin.Decode.Memory.{IsConsistent, unregister_buffer_step, free_live}

abbrev pub removed : BufferRegistry → ℕ → BufferRegistry
removed r p = record r { entries = remove p r.entries }

-- The state with the host's struct cleared, and with its block freed too.
abbrev pub cleared : World → ℕ → World
cleared w buffer = record w {
  pixel_buffers = update w.pixel_buffers buffer (cleared_buffer (w.pixel_buffers buffer));
}

abbrev pub freed : World → BufferRegistry → ℕ → World
freed w r buffer =
    let p = (w.pixel_buffers buffer).data_ptr in
    record (cleared w buffer) { buffer_registry = some (removed r p); heap = remove p w.heap }

-- How a call on the host's struct at `buffer` can end.
pub data Frees (r : BufferRegistry) (w : World) (buffer : ℕ) (o : Outcome (Unit {0})) : Type 0 where
  -- A null pointer: nothing happens.
  ignored : buffer ≡ 0 → o ≡ done tt w → Frees r w buffer o
  -- The address is not that of a registered buffer: only the struct is cleared.
  kept :
      buffer ≢ 0
      → (r.poisoned ≡ true) ⊎ (tracked r (w.pixel_buffers buffer).data_ptr ≡ none)
      → o ≡ done tt (cleared w buffer)
      → Frees r w buffer o
  -- A registered buffer: the struct is cleared, and the block freed and forgotten.
  released :
      (e : BufferEntry)
      → buffer ≢ 0
      → r.poisoned ≡ false
      → tracked r (w.pixel_buffers buffer).data_ptr ≡ some e
      → o ≡ done tt (freed w r buffer)
      → Frees r w buffer o

module _ (r : BufferRegistry) (p : ℕ) where
  pub unregister_poisoned : r.poisoned ≡ true → unregister r p ≡ (Result.err IgStatus.internal, r)
  unfolding unregister
  unregister_poisoned h = ground arith

  pub unregister_untracked :
      r.poisoned ≡ false
      → tracked r p ≡ none
      → unregister r p ≡ (Result.err IgStatus.invalid_arg, r)
  unfolding unregister
  unregister_untracked h e = ground arith

  pub unregister_present :
      (e : BufferEntry)
      → r.poisoned ≡ false
      → tracked r p ≡ some e
      → unregister r p ≡ (Result.ok e, removed r p)
  unfolding unregister
  unregister_present e h q = ground arith

module _ (r : BufferRegistry) (w : World) (consistent : IsConsistent r w) where
  -- A tracked address is that of a live block, and is not null.
  tracked_live :
      (p : ℕ) (e : BufferEntry)
      → tracked r p ≡ some e
      → (b : Block) × (get p w.heap ≡ some b) × (e.size ≡ length b)
  tracked_live p e q = elim (Option-cases (get p w.heap)) [
    | inl dead ↦ absurd (ground (arith, consistent.same p))
    | inr (b, live) ↦ (b, live, ground (arith, consistent.same p))
  ]

  -- Freeing what the registry tracks keeps the two in step.
  pub removed-IsConsistent :
      (p : ℕ) (e : BufferEntry) (slots : World)
      → tracked r p ≡ some e
      → IsConsistent
          (removed r p)
          (record slots { buffer_registry = some (removed r p); heap = remove p w.heap })
  removed-IsConsistent p e slots q = record {
    initialised = refl;
    valid = record {
      distinct = remove-IsDistinct p r.entries consistent.valid.distinct;
      written = λ a f h.
          ground (
            arith,
            consistent.valid.written a f,
            get-remove p a r.entries consistent.valid.distinct,
          );
    };
    distinct = remove-IsDistinct p w.heap consistent.distinct;
    same = λ a. ground (
      arith,
      consistent.same a,
      get-remove p a r.entries consistent.valid.distinct,
      get-remove p a w.heap consistent.distinct,
    );
    no_null = ground (arith, consistent.no_null, get-remove p 0 w.heap consistent.distinct);
  }

  module _ (buffer : ℕ) where
    abbrev data_ptr : ℕ
    data_ptr = (w.pixel_buffers buffer).data_ptr

    null_slot_run : buffer ≡ 0 → codec_free_pixel_buffer buffer w ≡ done tt w
    unfolding codec_free_pixel_buffer
    null_slot_run h = rw (catch_unwind_or, free_body, ==-true _ _ h)

    null_data_run :
        buffer ≢ 0 → data_ptr ≡ 0 → codec_free_pixel_buffer buffer w ≡ done tt (cleared w buffer)
    unfolding codec_free_pixel_buffer
    null_data_run h null =
        rw (catch_unwind_or, free_body, ==-false _ _ h, ◌>>=◌, ◌>>◌, release_data, ==-true _ _ null)

    unknown_data_run :
        (s : IgStatus)
        → buffer ≢ 0
        → data_ptr ≢ 0
        → unregister r data_ptr ≡ (Result.err s, r)
        → codec_free_pixel_buffer buffer w ≡ done tt (cleared w buffer)
    unfolding codec_free_pixel_buffer
    unknown_data_run s h live e =
        rw
          (
            catch_unwind_or,
            free_body,
            ==-false _ _ h,
            ◌>>=◌,
            ◌>>◌,
            release_data,
            ==-false _ _ live,
            ◌>>=◌,
            unregister_buffer_step r data_ptr (cleared w buffer) consistent.initialised,
            e,
          )
          (ap (λ b. done tt (record (cleared w buffer) { buffer_registry = b }))
            (sym consistent.initialised))

    live_data_run :
        (e : BufferEntry)
        → buffer ≢ 0
        → data_ptr ≢ 0
        → unregister r data_ptr ≡ (Result.ok e, removed r data_ptr)
        → tracked r data_ptr ≡ some e
        → codec_free_pixel_buffer buffer w ≡ done tt (freed w r buffer)
    unfolding codec_free_pixel_buffer
    live_data_run e h live u q =
        let (b, live_block, _) = tracked_live data_ptr e q in
        rw (
          catch_unwind_or,
          free_body,
          ==-false _ _ h,
          ◌>>=◌,
          ◌>>◌,
          release_data,
          ==-false _ _ live,
          ◌>>=◌,
          unregister_buffer_step r data_ptr (cleared w buffer) consistent.initialised,
          u,
          free_live data_ptr b
              (record (cleared w buffer) { buffer_registry = some (removed r data_ptr) }) live
              live_block,
        )

    null_untracked : data_ptr ≡ 0 → tracked r data_ptr ≡ none
    null_untracked null = rw null (ground (arith, consistent.same 0, consistent.no_null))

    live_data_case :
        (o : Option BufferEntry)
        → buffer ≢ 0
        → data_ptr ≢ 0
        → r.poisoned ≡ false
        → tracked r data_ptr ≡ o
        → Frees r w buffer (codec_free_pixel_buffer buffer w)
    live_data_case none h live unpoisoned q = kept h (inr q) (
        unknown_data_run IgStatus.invalid_arg h live (unregister_untracked r data_ptr unpoisoned q))
    live_data_case (some e) h live unpoisoned q =
        released e h unpoisoned q
          (live_data_run e h live (unregister_present r data_ptr e unpoisoned q) q)

    -- Every call returns, and ends in one of the three ways.
    pub free_ends : Frees r w buffer (codec_free_pixel_buffer buffer w)
    free_ends = elim (ℕ_discrete buffer 0) [
      | yes h ↦ ignored h (null_slot_run h)
      | no h ↦ elim (ℕ_discrete data_ptr 0) [
        | yes null ↦ kept h (inr (null_untracked null)) (null_data_run h null)
        | no live ↦ elim (Bool-cases r.poisoned) [
          | inl poisoned ↦
              kept h (inl poisoned) (
                unknown_data_run IgStatus.internal h live (unregister_poisoned r data_ptr poisoned))
          | inr unpoisoned ↦ live_data_case (tracked r data_ptr) h live unpoisoned refl
        ]
      ]
    ]
