-- ===== src/Threads/Releasing.antt =====
-- src/decode.rs: the steps that give an address back: removal from the registry, free.
use imageglass_ithmb_plugin.Prelude.{ℕ, ◌≡◌, refl, ap, none, some, false, arith, ==-false}
use imageglass_ithmb_plugin.Prelude.HashMap.{remove, get-remove}
use imageglass_ithmb_plugin.Types.{IgStatus, Result}
use imageglass_ithmb_plugin.World.{World, ◌>>=◌, ◌>>◌}
use imageglass_ithmb_plugin.Registry.{BufferEntry, BufferRegistry, unregister}
use imageglass_ithmb_plugin.Registry.Laws.{tracked, unregister-IsValid}
use imageglass_ithmb_plugin.Env.{Env}
use imageglass_ithmb_plugin.Allocator.{IsAllocator}
use imageglass_ithmb_plugin.Decode.Memory.{unregister_buffer_step, free_live}
use imageglass_ithmb_plugin.Decode.Release.{removed, unregister_present}
use imageglass_ithmb_plugin.Threads.{
  Thread, resting, discards, returns, unregisters, releases, step,
}
use imageglass_ithmb_plugin.Threads.Local.{none_holds_tracked, local, entry_live}
use imageglass_ithmb_plugin.Threads.Guards.{owner, Guards}
use imageglass_ithmb_plugin.Threads.Hands.{loose, not_null, frees}
use imageglass_ithmb_plugin.Threads.Local.{Progress}

module _ (env : Env) (r : BufferRegistry) (w : World) (ts : ℕ → Thread) (i : ℕ)
    (allocator : IsAllocator env.malloc) (init : w.buffer_registry ≡ some r)
    (g : Guards r w.heap ts) where
  pub discards_block : (p : ℕ) → ts i ≡ discards p → Progress env r w ts i (discards p)
  unfolding step
  discards_block p at =
      let l = loose r w ts i g (discards p) p at refl in
      record {
        next = returns IgStatus.internal;
        after = record w { heap = remove p w.heap };
        registry = r;
        address = p;
        runs =
            rw
              (
                step,
                ◌>>=◌,
                ◌>>◌,
                free_live p l.block w (not_null r w ts i g (discards p) p at refl) l.live,
              )
              refl;
        initialised = init;
        same_host = refl;
        changes = frees r w ts i g (discards p) p at refl (returns IgStatus.internal) refl tt;
      }

  pub releases_block : (p : ℕ) → ts i ≡ releases p → Progress env r w ts i (releases p)
  unfolding step
  releases_block p at =
      let l = loose r w ts i g (releases p) p at refl in
      record {
        next = resting;
        after = record w { heap = remove p w.heap };
        registry = r;
        address = p;
        runs =
            rw
              (
                step,
                ◌>>=◌,
                ◌>>◌,
                free_live p l.block w (not_null r w ts i g (releases p) p at refl) l.live,
              )
              refl;
        initialised = init;
        same_host = refl;
        changes = frees r w ts i g (releases p) p at refl resting refl tt;
      }

  -- The removal from the registry: the thread gets the address, or nothing.
  pub unregisters_refused :
      (p : ℕ) (s : IgStatus)
      → ts i ≡ unregisters p
      → unregister r p ≡ (Result.err s, r)
      → Progress env r w ts i (unregisters p)
  unfolding step
  unregisters_refused p s at refused = record {
    next = resting;
    after = record w { buffer_registry = some r };
    registry = r;
    address = 0;
    runs = rw (step, ◌>>=◌, ◌>>◌, unregister_buffer_step r p w init, refused) refl;
    initialised = refl;
    same_host = refl;
    changes = local r w.heap ts g i (unregisters p) resting at refl refl tt;
  }

  pub unregisters_entry :
      (p : ℕ) (e : BufferEntry)
      → ts i ≡ unregisters p
      → r.poisoned ≡ false
      → tracked r p ≡ some e
      → Progress env r w ts i (unregisters p)
  unfolding step
  unregisters_entry p e at unpoisoned q =
      let given = unregister_present r p e unpoisoned q in
      let (b, live) = entry_live r w.heap ts g p e q in
      let gone : tracked (removed r p) p ≡ none =
        ground (arith, get-remove p p r.entries g.valid.distinct) in
      record {
        next = releases p;
        after = record w { buffer_registry = some (removed r p) };
        registry = removed r p;
        address = p;
        runs = rw (step, ◌>>=◌, ◌>>◌, unregister_buffer_step r p w init, given) refl;
        initialised = refl;
        same_host = refl;
        changes = record {
          valid =
              rw (ap (λ (x : Result BufferEntry × BufferRegistry). x.1) given) at
                (unregister-IsValid r p g.valid);
          distinct = g.distinct;
          no_null = g.no_null;
          entries = λ a ne. rw (get-remove p a r.entries g.valid.distinct, ==-false p a ne) refl;
          blocks = λ a ne. refl;
          mine = λ j o. absurd (none_holds_tracked r w.heap ts g p j e q o);
          held = λ a o. absurd (cc (ap owner at, o));
          holds = λ a o. cc o;
          backed = rw gone tt;
          relies = record { block = b; live = live; untracked = gone };
          no_leak = λ c h u. refl;
        };
      }
