-- ===== src/Threads/Filling.antt =====
-- src/decode.rs: the steps of a decode: allocation, copy, registration.
use imageglass_ithmb_plugin.Prelude.{
  ℕ, zero, suc, ◌≡◌, ◌≢◌, refl, ap, sym, [], ◌∷◌, ◌++◌, map, take, drop, none, some, true, false,
  length, length-append, arith, ==-true, ==-false, le→ltb,
}
use imageglass_ithmb_plugin.Prelude.HashMap.{
  get, insert, get-insert, get-insert_self, insert-IsDistinct,
}
use imageglass_ithmb_plugin.Types.{IgStatus, Result}
use imageglass_ithmb_plugin.World.{World, Block, ◌>>=◌, ◌>>◌}
use imageglass_ithmb_plugin.Registry.{BufferRegistry}
use imageglass_ithmb_plugin.Registry.Laws.{fresh_entry, register-IsValid}
use imageglass_ithmb_plugin.Env.{Env, DecodedImage}
use imageglass_ithmb_plugin.Allocator.{
  uninitialised, pixel_buffer_alloc, copy_nonoverlapping, IsAllocator,
}
use imageglass_ithmb_plugin.Decode.{FrameLayout}
use imageglass_ithmb_plugin.Decode.Memory.{
  length-uninitialised, length-frame_bytes, register_untracked, register_poisoned,
  register_buffer_step, added,
}
use imageglass_ithmb_plugin.Threads.{
  Thread, allocates, copies, registers, discards, publishes, returns, step,
}
use imageglass_ithmb_plugin.Threads.Local.{none_holds_dead, local, no_entry, untracked-Backed}
use imageglass_ithmb_plugin.Threads.Guards.{owner, Relies, Guards}
use imageglass_ithmb_plugin.Threads.Hands.{mine_alone, held_alone, loose, not_null, keeps}
use imageglass_ithmb_plugin.Threads.Local.{Progress}

length-drop_all : (n : ℕ) (xs : Block) → length xs ≡ n → length (drop n xs) ≡ 0
length-drop_all zero xs e = e
length-drop_all (suc n) [] e = refl
length-drop_all (suc n) (x ∷ xs) e = length-drop_all n xs (omega (arith, e))

module _ (env : Env) (r : BufferRegistry) (w : World) (ts : ℕ → Thread) (i : ℕ)
    (allocator : IsAllocator env.malloc) (init : w.buffer_registry ≡ some r)
    (g : Guards r w.heap ts) where
  -- The allocation.
  pub allocates_null :
      (buffer : ℕ) (img : DecodedImage) (l : FrameLayout)
      → ts i ≡ allocates buffer img l
      → env.malloc w.heap l.buf_size ≡ 0
      → Progress env r w ts i (allocates buffer img l)
  unfolding step pixel_buffer_alloc
  allocates_null buffer img l at null = record {
    next = returns IgStatus.out_of_memory;
    after = w;
    registry = r;
    address = 0;
    runs = rw (step, pixel_buffer_alloc, ◌>>=◌, ==-true _ _ null) refl;
    initialised = init;
    same_host = refl;
    changes =
        local r w.heap ts g i (allocates buffer img l) (returns IgStatus.out_of_memory) at refl refl
          tt;
  }

  pub allocates_block :
      (buffer : ℕ) (img : DecodedImage) (l : FrameLayout)
      → ts i ≡ allocates buffer img l
      → env.malloc w.heap l.buf_size ≢ 0
      → Progress env r w ts i (allocates buffer img l)
  unfolding step pixel_buffer_alloc
  allocates_block buffer img l at live =
      let p = env.malloc w.heap l.buf_size in
      let fresh : get p w.heap ≡ none = ground (arith, allocator.fresh w.heap l.buf_size) in
      let bound : Relies r w.heap (allocates buffer img l) = rw at at (g.relies i) in
      let blank = uninitialised l.buf_size in
      record {
        next = copies buffer img l p;
        after = record w { heap = insert p blank w.heap };
        registry = r;
        address = p;
        runs =
            rw (step, pixel_buffer_alloc, ◌>>=◌, ==-false _ _ live) (rw (==-false _ _ live) refl);
        initialised = init;
        same_host = refl;
        changes = record {
          valid = g.valid;
          distinct = insert-IsDistinct p blank w.heap g.distinct;
          no_null = ground (arith, g.no_null, get-insert p 0 blank w.heap);
          entries = λ a ne. refl;
          blocks = λ a ne. rw (get-insert p a blank w.heap, ==-false p a ne) refl;
          mine = λ j o. absurd (none_holds_dead r w.heap ts g p j fresh o);
          held = λ a o. absurd (cc (ap owner at, o));
          holds = λ a o. cc o;
          backed = untracked-Backed r w.heap ts g p _ (no_entry r w.heap ts g p fresh);
          relies = (
            record {
              block = blank;
              live = get-insert_self p blank w.heap;
              untracked = no_entry r w.heap ts g p fresh;
            },
            length-uninitialised l.buf_size,
            ground (arith, bound, allocator.bounded w.heap l.buf_size),
          );
          no_leak = λ b q loose. refl;
        };
      }

  pub copies_block :
      (buffer : ℕ) (img : DecodedImage) (l : FrameLayout) (p : ℕ)
      → ts i ≡ copies buffer img l p
      → Progress env r w ts i (copies buffer img l p)
  unfolding step copy_nonoverlapping
  copies_block buffer img l p at =
      let k : Relies r w.heap (copies buffer img l p) = rw at at (g.relies i) in
      let (loose_block, size, room) = k in
      let n = l.buf_size in
      let src = img.pixels in
      let rest = drop n loose_block.block in
      let copied : Block = map some (take n src) ++ rest in
      record {
        next = registers buffer l p;
        after = record w { heap = insert p copied w.heap };
        registry = r;
        address = p;
        runs =
            rw
              (
                step,
                ◌>>=◌,
                ◌>>◌,
                copy_nonoverlapping,
                loose_block.live,
                le→ltb (length src) n room,
                le→ltb (length loose_block.block) n (omega (arith, size)),
              )
              refl;
        initialised = init;
        same_host = refl;
        changes = record {
          valid = g.valid;
          distinct = insert-IsDistinct p copied w.heap g.distinct;
          no_null = ground (
            arith,
            not_null r w ts i g (copies buffer img l p) p at refl,
            g.no_null,
            get-insert p 0 copied w.heap,
          );
          entries = λ a ne. refl;
          blocks = λ a ne. rw (get-insert p a copied w.heap, ==-false p a ne) refl;
          mine = mine_alone r w ts i g (copies buffer img l p) p at refl;
          held = held_alone r w ts i g (copies buffer img l p) p at refl;
          holds = λ a o. cc o;
          backed = untracked-Backed r w.heap ts g p _ loose_block.untracked;
          relies = (
            record {
              block = copied;
              live = get-insert_self p copied w.heap;
              untracked = loose_block.untracked;
            },
            omega (
              arith,
              length-append (map some (take n src)) rest,
              length-frame_bytes src n room,
              length-drop_all n loose_block.block size,
            ),
          );
          no_leak = λ b q u. refl;
        };
      }

  -- The registration: refused where the mutex is poisoned.
  pub registers_refused :
      (buffer : ℕ) (l : FrameLayout) (p : ℕ)
      → ts i ≡ registers buffer l p
      → r.poisoned ≡ true
      → Progress env r w ts i (registers buffer l p)
  unfolding step
  registers_refused buffer l p at poisoned =
      let n = l.buf_size in
      record {
        next = discards p;
        after = record w { buffer_registry = some r };
        registry = r;
        address = p;
        runs =
            rw
              (
                step,
                ◌>>=◌,
                ◌>>◌,
                register_buffer_step r p n w init,
                register_poisoned r p n poisoned,
              )
              refl;
        initialised = refl;
        same_host = refl;
        changes =
            keeps r w ts i g (registers buffer l p) p at refl (discards p) refl
              (loose r w ts i g (registers buffer l p) p at refl);
      }

  pub registers_block :
      (buffer : ℕ) (l : FrameLayout) (p : ℕ)
      → ts i ≡ registers buffer l p
      → r.poisoned ≡ false
      → Progress env r w ts i (registers buffer l p)
  unfolding step
  registers_block buffer l p at unpoisoned =
      let n = l.buf_size in
      let k : Relies r w.heap (registers buffer l p) = rw at at (g.relies i) in
      let (loose_block, size) = k in
      let accepted = register_untracked r p n unpoisoned loose_block.untracked in
      let entry = get-insert_self p (fresh_entry p n) r.entries in
      record {
        next = publishes buffer l p;
        after = record w { buffer_registry = some (added r p n) };
        registry = added r p n;
        address = p;
        runs = rw (step, ◌>>=◌, ◌>>◌, register_buffer_step r p n w init, accepted) refl;
        initialised = refl;
        same_host = refl;
        changes = record {
          valid =
              rw (ap (λ (x : Result (Unit {0}) × BufferRegistry). x.1) accepted) at
                (register-IsValid r p n g.valid);
          distinct = g.distinct;
          no_null = g.no_null;
          entries = λ a ne. rw (get-insert p a (fresh_entry p n) r.entries, ==-false p a ne) refl;
          blocks = λ a ne. refl;
          mine = mine_alone r w ts i g (registers buffer l p) p at refl;
          held = held_alone r w ts i g (registers buffer l p) p at refl;
          holds = λ a o. absurd (cc o);
          backed = rw (entry, loose_block.live) (sym size);
          relies = tt;
          no_leak = λ b q u. absurd (cc (entry, u));
        };
      }
