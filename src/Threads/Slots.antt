-- ===== src/Threads/Slots.antt =====
-- src/decode.rs: the steps on the host's structs.
use imageglass_ithmb_plugin.Prelude.{
  ℕ, ◌≡◌, inl, inr, refl, none, some, Bool-cases, ◌==◌, if◌then◌else◌,
}
use imageglass_ithmb_plugin.Types.{IgStatus}
use imageglass_ithmb_plugin.World.{World, done, update}
use imageglass_ithmb_plugin.Registry.{BufferRegistry}
use imageglass_ithmb_plugin.Env.{Env}
use imageglass_ithmb_plugin.Allocator.{IsAllocator}
use imageglass_ithmb_plugin.Decode.{FrameLayout, filled_buffer, cleared_buffer}
use imageglass_ithmb_plugin.Threads.{
  Thread, resting, publishes, returns, reads, clears, unregisters, step,
}
use imageglass_ithmb_plugin.Threads.Local.{local}
use imageglass_ithmb_plugin.Threads.Guards.{owner, Relies, Guards}
use imageglass_ithmb_plugin.Threads.Local.{Progress}

module _ (env : Env) (r : BufferRegistry) (w : World) (ts : ℕ → Thread) (i : ℕ)
    (allocator : IsAllocator env.malloc) (init : w.buffer_registry ≡ some r)
    (g : Guards r w.heap ts) where
  -- The steps on the host's structs.
  pub publishes_slot :
      (buffer : ℕ) (l : FrameLayout) (p : ℕ)
      → ts i ≡ publishes buffer l p
      → Progress env r w ts i (publishes buffer l p)
  unfolding step
  publishes_slot buffer l p at = record {
    next = returns IgStatus.ok;
    after = record w { pixel_buffers = update w.pixel_buffers buffer (filled_buffer l p) };
    registry = r;
    address = 0;
    runs = refl;
    initialised = init;
    same_host = refl;
    changes = local r w.heap ts g i (publishes buffer l p) (returns IgStatus.ok) at refl refl tt;
  }

  pub reads_slot : (buffer : ℕ) → ts i ≡ reads buffer → Progress env r w ts i (reads buffer)
  unfolding step
  reads_slot buffer at = record {
    next = clears buffer (w.pixel_buffers buffer).data_ptr;
    after = w;
    registry = r;
    address = 0;
    runs = refl;
    initialised = init;
    same_host = refl;
    changes =
        local r w.heap ts g i (reads buffer) (clears buffer (w.pixel_buffers buffer).data_ptr) at
          refl refl tt;
  }

  pub clears_slot :
      (buffer p : ℕ) → ts i ≡ clears buffer p → Progress env r w ts i (clears buffer p)
  unfolding step
  clears_slot buffer p at = record {
    next = if p == 0 then resting else unregisters p;
    after = record w {
      pixel_buffers = update w.pixel_buffers buffer (cleared_buffer (w.pixel_buffers buffer));
    };
    registry = r;
    address = 0;
    runs = refl;
    initialised = init;
    same_host = refl;
    changes =
        local r w.heap ts g i (clears buffer p) (if p == 0 then resting else unregisters p) at refl
          (elim (Bool-cases (p == 0)) [ inl e ↦ rw e refl | inr e ↦ rw e refl ])
          (elim (Bool-cases (p == 0)) [ inl e ↦ rw e tt | inr e ↦ rw e tt ]);
  }

  pub stays :
      (t : Thread)
      → ts i ≡ t
      → owner t ≡ none
      → Relies r w.heap t
      → step env t w ≡ done t w
      → Progress env r w ts i t
  stays t at o k runs = record {
    next = t;
    after = w;
    registry = r;
    address = 0;
    runs = runs;
    initialised = init;
    same_host = refl;
    changes = local r w.heap ts g i t t at o o k;
  }
