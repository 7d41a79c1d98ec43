-- ===== src/Decode/Memory.antt =====
-- src/decode.rs: the pixel buffers as memory. The registry and the allocator's live blocks stay in
-- step, so that nothing is freed twice and nothing dangles.
use mathlib.Core.List.{append-nil}
use imageglass_ithmb_plugin.Prelude.{
  ℕ, zero, suc, ◌^◌, ◌≤◌, ◌≡◌, ◌≢◌, ◌⊎◌, refl, ap, sym, List, [], ◌∷◌, map, Option, none, some,
  true, false, length, take, drop, arith, le→ltb, ==-true, ==-false,
}
use imageglass_ithmb_plugin.Prelude.HashMap.{
  get, insert, remove, IsDistinct, get-insert, get-insert_self, insert-IsDistinct, contains_key-get,
  remove-insert, insert-insert,
}
use imageglass_ithmb_plugin.Types.{IgStatus, Result}
use imageglass_ithmb_plugin.World.{World, Block, done, update, ◌>>=◌, ◌>>◌}
use imageglass_ithmb_plugin.Registry.{BufferEntry, BufferRegistry, register, unregister}
use imageglass_ithmb_plugin.Registry.Laws.{fresh_entry, tracked, IsValid, register-IsValid}
use imageglass_ithmb_plugin.Env.{Env, DecodedImage}
use imageglass_ithmb_plugin.Allocator.{
  uninitialised, pixel_buffer_alloc, pixel_buffer_free, copy_nonoverlapping, IsAllocator,
}
use imageglass_ithmb_plugin.Decode.{
  FrameLayout, filled_buffer, register_buffer, unregister_buffer, hand_over,
}

-- An entry and a block of one address: both absent, or both there and of one size.
abbrev pub Tracks : Option BufferEntry → Option Block → Type 0
Tracks none none = Unit {0}
Tracks none (some b) = ⊥
Tracks (some e) none = ⊥
Tracks (some e) (some b) = e.size ≡ length b

-- The registry `r` is in place, and it tracks just the live blocks. None of them is at the null
-- address.
pub record IsConsistent (r : BufferRegistry) (w : World) : Type 0 where
  pub initialised : w.buffer_registry ≡ some r
  pub valid : IsValid r
  pub distinct : IsDistinct w.heap
  pub same : (a : ℕ) → Tracks (tracked r a) (get a w.heap)
  pub no_null : get 0 w.heap ≡ none

-- The contents of a filled pixel buffer.
abbrev pub frame_bytes : DecodedImage → ℕ → Block
frame_bytes img n = map some (take n img.pixels)

abbrev pub added : BufferRegistry → ℕ → ℕ → BufferRegistry
added r p n = record r { entries = insert p (fresh_entry p n) r.entries }

-- The state after a delivered frame.
abbrev pub delivered : World → BufferRegistry → ℕ → ℕ → DecodedImage → FrameLayout → World
delivered w r buffer p img l = record w {
  buffer_registry = some (added r p l.buf_size);
  heap = insert p (frame_bytes img l.buf_size) w.heap;
  pixel_buffers = update w.pixel_buffers buffer (filled_buffer l p);
}

drop-uninitialised : (n : ℕ) → drop n (uninitialised n) ≡ []
unfolding uninitialised
drop-uninitialised zero = refl
drop-uninitialised (suc n) = drop-uninitialised n

pub length-uninitialised : (n : ℕ) → length (uninitialised n) ≡ n
unfolding uninitialised
length-uninitialised zero = refl
length-uninitialised (suc n) = ap suc (length-uninitialised n)

pub length-frame_bytes :
    (xs : List ℕ) (n : ℕ) → n ≤ length xs → length (map {B = Option ℕ} some (take n xs)) ≡ n
length-frame_bytes xs zero h = refl
length-frame_bytes [] (suc n) h = absurd (omega arith)
length-frame_bytes (x ∷ xs) (suc n) h = ap suc (length-frame_bytes xs n (omega arith))

-- The copy fills a fresh block.
copy_fresh :
    (src : List ℕ) (p n : ℕ) (w : World)
    → n ≤ length src
    → copy_nonoverlapping src p n (record w { heap = insert p (uninitialised n) w.heap })
      ≡ done tt (record w { heap = insert p (map some (take n src)) w.heap })
unfolding copy_nonoverlapping
copy_fresh src p n w h = rw (
  copy_nonoverlapping,
  get-insert_self p (uninitialised n) w.heap,
  le→ltb (length src) n h,
  le→ltb (length (uninitialised n)) n (omega (arith, length-uninitialised n)),
  drop-uninitialised n,
  append-nil,
  insert-insert p (uninitialised n) (map some (take n src)) w.heap,
)

-- Registering an address that nothing tracks succeeds, unless the mutex is poisoned.
pub register_untracked :
    (r : BufferRegistry) (p n : ℕ)
    → r.poisoned ≡ false
    → tracked r p ≡ none
    → register r p n ≡ (Result.ok tt, added r p n)
unfolding register
register_untracked r p n unpoisoned h = ground (arith, contains_key-get p r.entries)

pub register_poisoned :
    (r : BufferRegistry) (p n : ℕ)
    → r.poisoned ≡ true
    → register r p n ≡ (Result.err IgStatus.internal, r)
unfolding register
register_poisoned r p n poisoned = ground arith

pub register_buffer_step :
    (r : BufferRegistry) (p n : ℕ) (w : World)
    → w.buffer_registry ≡ some r
    → register_buffer p n w
      ≡ done (register r p n).0 (record w { buffer_registry = some (register r p n).1 })
unfolding register_buffer
register_buffer_step r p n w e = rw (register_buffer, ◌>>=◌, ◌>>◌, e)

pub unregister_buffer_step :
    (r : BufferRegistry) (p : ℕ) (w : World)
    → w.buffer_registry ≡ some r
    → unregister_buffer p w
      ≡ done (unregister r p).0 (record w { buffer_registry = some (unregister r p).1 })
unfolding unregister_buffer
unregister_buffer_step r p w e = rw (unregister_buffer, ◌>>=◌, ◌>>◌, e)

-- A live block is freed.
pub free_live :
    (p : ℕ) (b : Block) (w : World)
    → p ≢ 0
    → get p w.heap ≡ some b
    → pixel_buffer_free p w ≡ done tt (record w { heap = remove p w.heap })
unfolding pixel_buffer_free
free_live p b w h live = rw (pixel_buffer_free, ==-false _ _ h, live)

module _ (env : Env) (r : BufferRegistry) (w : World) (buffer : ℕ) (img : DecodedImage)
    (l : FrameLayout) (consistent : IsConsistent r w) (allocator : IsAllocator env.malloc)
    (bound : (l.buf_size ≤ length img.pixels) ⊎ (2 ^ 63 ≤ l.buf_size)) where
  abbrev pub block : ℕ
  block = env.malloc w.heap l.buf_size

  alloc_null : block ≡ 0 → pixel_buffer_alloc env l.buf_size w ≡ done 0 w
  unfolding pixel_buffer_alloc
  alloc_null null = rw (pixel_buffer_alloc, ==-true _ _ null)

  alloc_block :
      block ≢ 0
      → pixel_buffer_alloc env l.buf_size w
        ≡ done block (record w { heap = insert block (uninitialised l.buf_size) w.heap })
  unfolding pixel_buffer_alloc
  alloc_block h = rw (pixel_buffer_alloc, ==-false _ _ h)

  pub hand_over_refused : block ≡ 0 → hand_over env buffer img l w ≡ done IgStatus.out_of_memory w
  unfolding hand_over
  hand_over_refused null = rw (hand_over, ◌>>=◌, ◌>>◌, alloc_null null)

  -- An address that the allocator hands out is new to the registry too.
  pub untracked : block ≢ 0 → (get block w.heap ≡ none) × (tracked r block ≡ none)
  untracked h = ground (arith, allocator.fresh w.heap l.buf_size, consistent.same block)

  pub fits : block ≢ 0 → l.buf_size ≤ length img.pixels
  fits h = ground (arith, bound, allocator.bounded w.heap l.buf_size)

  abbrev filled : World
  filled = record w { heap = insert block (frame_bytes img l.buf_size) w.heap }

  pub hand_over_poisoned :
      block ≢ 0 → r.poisoned ≡ true → hand_over env buffer img l w ≡ done IgStatus.internal w
  unfolding hand_over
  hand_over_poisoned h poisoned =
      rw
        (
          hand_over,
          ◌>>=◌,
          ◌>>◌,
          alloc_block h,
          ==-false _ _ h,
          copy_fresh img.pixels block l.buf_size w (fits h),
          register_buffer_step r block l.buf_size filled consistent.initialised,
          register_poisoned r block l.buf_size poisoned,
          ◌>>=◌,
          ◌>>◌,
          free_live block (frame_bytes img l.buf_size) (record filled { buffer_registry = some r })
              h (get-insert_self block (frame_bytes img l.buf_size) w.heap),
          remove-insert block (frame_bytes img l.buf_size) w.heap (untracked h).0,
        )
        (ap (λ b. done IgStatus.internal (record w { buffer_registry = b }))
          (sym consistent.initialised))

  pub hand_over_delivers :
      block ≢ 0
      → r.poisoned ≡ false
      → hand_over env buffer img l w ≡ done IgStatus.ok (delivered w r buffer block img l)
  unfolding hand_over
  hand_over_delivers h unpoisoned = rw (
    hand_over,
    ◌>>=◌,
    ◌>>◌,
    alloc_block h,
    ==-false _ _ h,
    copy_fresh img.pixels block l.buf_size w (fits h),
    register_buffer_step r block l.buf_size filled consistent.initialised,
    register_untracked r block l.buf_size unpoisoned (untracked h).1,
  )

  pub added-IsValid : block ≢ 0 → r.poisoned ≡ false → IsValid (added r block l.buf_size)
  added-IsValid h unpoisoned =
      rw
        (ap (λ (x : Result (Unit {0}) × BufferRegistry). x.1)
          (register_untracked r block l.buf_size unpoisoned (untracked h).1))
        at (register-IsValid r block l.buf_size consistent.valid)

  pub delivered-IsConsistent :
      block ≢ 0
      → r.poisoned ≡ false
      → IsConsistent (added r block l.buf_size) (delivered w r buffer block img l)
  delivered-IsConsistent h unpoisoned = record {
    initialised = refl;
    valid = added-IsValid h unpoisoned;
    distinct = insert-IsDistinct block (frame_bytes img l.buf_size) w.heap consistent.distinct;
    same = λ a. ground (
      arith,
      consistent.same a,
      get-insert block a (fresh_entry block l.buf_size) r.entries,
      get-insert block a (frame_bytes img l.buf_size) w.heap,
      length-frame_bytes img.pixels l.buf_size (fits h),
    );
    no_null =
        ground (arith, consistent.no_null, get-insert block 0 (frame_bytes img l.buf_size) w.heap);
  }
