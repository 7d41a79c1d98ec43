-- ===== src/Allocator.antt =====
-- src/allocator.rs over the C allocator, and the copy into a fresh block. The table of live blocks
-- holds those that the plugin has allocated. To free an address that is not live, or to reach past a
-- block, is undefined behaviour.
use imageglass_ithmb_plugin.Prelude.{
  ℕ, zero, suc, ◌≤◌, ◌^◌, ◌≡◌, ◌⊎◌, List, [], ◌∷◌, ◌++◌, map, none, some, ◌||◌, ◌==◌, ltb,
  if◌then◌else◌, length, take, drop,
}
use imageglass_ithmb_plugin.Prelude.HashMap.{HashMap, get, insert, remove}
use imageglass_ithmb_plugin.World.{Block, Run, done, undefined}
use imageglass_ithmb_plugin.Env.{Env}

-- A block whose bytes nobody has written.
unfoldable pub uninitialised : ℕ → Block
uninitialised zero = []
uninitialised (suc n) = none ∷ uninitialised n

unfoldable pub pixel_buffer_alloc : Env → ℕ → Run ℕ
pixel_buffer_alloc env size w =
    let p = env.malloc w.heap size in
    if p == 0 then done 0 w else done p (record w { heap = insert p (uninitialised size) w.heap })

-- `free(NULL)` does nothing.
unfoldable pub pixel_buffer_free : ℕ → Run (Unit {0})
pixel_buffer_free p w = if p == 0 then done tt w else elim (get p w.heap) [
  | none ↦ undefined
  | some block ↦ done tt (record w { heap = remove p w.heap })
]

-- `std::ptr::copy_nonoverlapping(src, dst, n)` into a block of the table.
unfoldable pub copy_nonoverlapping : List ℕ → ℕ → ℕ → Run (Unit {0})
copy_nonoverlapping src dst n w = elim (get dst w.heap) [
  | none ↦ undefined
  | some block ↦
      if ltb (length src) n || ltb (length block) n
      then undefined
      else done tt (record w { heap = insert dst (map some (take n src) ++ drop n block) w.heap })
]

-- What is documented of `malloc`: a new block does not overlap a live one, and a size above
-- PTRDIFF_MAX is refused.
pub record IsAllocator (malloc : HashMap Block → ℕ → ℕ) : Type 0 where
  pub fresh :
      (heap : HashMap Block) (n : ℕ) → (malloc heap n ≡ 0) ⊎ (get (malloc heap n) heap ≡ none)
  pub bounded : (heap : HashMap Block) (n : ℕ) → 2 ^ 63 ≤ n → malloc heap n ≡ 0
