-- ===== src/Threads/Moves.antt =====
-- src/decode.rs: the step of a thread, and the agreement of Threads.Guards.
use native.Mathlib.Decide.{ℕ_discrete}
use imageglass_ithmb_plugin.Prelude.{ℕ, ◌≡◌, inl, inr, refl, some, Bool-cases, Option-cases}
use imageglass_ithmb_plugin.Types.{IgStatus}
use imageglass_ithmb_plugin.World.{World}
use imageglass_ithmb_plugin.Registry.{BufferRegistry}
use imageglass_ithmb_plugin.Registry.Laws.{tracked}
use imageglass_ithmb_plugin.Env.{Env}
use imageglass_ithmb_plugin.Allocator.{IsAllocator}
use imageglass_ithmb_plugin.Decode.Release.{unregister_poisoned, unregister_untracked}
use imageglass_ithmb_plugin.Threads.{
  Thread, resting, allocates, copies, registers, discards, publishes, returns, reads, clears,
  unregisters, releases, step,
}
use imageglass_ithmb_plugin.Threads.Guards.{Guards}
use imageglass_ithmb_plugin.Threads.Local.{Progress}
use imageglass_ithmb_plugin.Threads.Filling.{
  allocates_null, allocates_block, copies_block, registers_refused, registers_block,
}
use imageglass_ithmb_plugin.Threads.Releasing.{
  discards_block, releases_block, unregisters_refused, unregisters_entry,
}
use imageglass_ithmb_plugin.Threads.Slots.{publishes_slot, reads_slot, clears_slot, stays}

module _ (env : Env) (r : BufferRegistry) (w : World) (ts : ℕ → Thread) (i : ℕ)
    (allocator : IsAllocator env.malloc) (init : w.buffer_registry ≡ some r)
    (g : Guards r w.heap ts) where
  -- A thread can always take its next step: it neither panics nor has undefined behaviour.
  pub progress : (t : Thread) → ts i ≡ t → Progress env r w ts i t
  unfolding step
  progress resting at = stays env r w ts i allocator init g resting at refl tt refl
  progress (returns status) at =
      stays env r w ts i allocator init g (returns status) at refl tt refl
  progress (allocates buffer img l) at = elim (ℕ_discrete (env.malloc w.heap l.buf_size) 0) [
    | yes null ↦ allocates_null env r w ts i allocator init g buffer img l at null
    | no live ↦ allocates_block env r w ts i allocator init g buffer img l at live
  ]
  progress (copies buffer img l p) at = copies_block env r w ts i allocator init g buffer img l p at
  progress (registers buffer l p) at = elim (Bool-cases r.poisoned) [
    | inl poisoned ↦ registers_refused env r w ts i allocator init g buffer l p at poisoned
    | inr unpoisoned ↦ registers_block env r w ts i allocator init g buffer l p at unpoisoned
  ]
  progress (discards p) at = discards_block env r w ts i allocator init g p at
  progress (publishes buffer l p) at = publishes_slot env r w ts i allocator init g buffer l p at
  progress (reads buffer) at = reads_slot env r w ts i allocator init g buffer at
  progress (clears buffer p) at = clears_slot env r w ts i allocator init g buffer p at
  progress (unregisters p) at = elim (Bool-cases r.poisoned) [
    | inl poisoned ↦
        unregisters_refused env r w ts i allocator init g p IgStatus.internal at
          (unregister_poisoned r p poisoned)
    | inr unpoisoned ↦ elim (Option-cases (tracked r p)) [
      | inl q ↦
          unregisters_refused env r w ts i allocator init g p IgStatus.invalid_arg at
            (unregister_untracked r p unpoisoned q)
      | inr (e, q) ↦ unregisters_entry env r w ts i allocator init g p e at unpoisoned q
    ]
  ]
  progress (releases p) at = releases_block env r w ts i allocator init g p at
