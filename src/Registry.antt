-- ===== src/Registry.antt =====
-- src/buffer_registry.rs: the registry of live pixel buffers. The `HashMap` is an association list
-- with one pair to a key, and the mutex is the flag that says whether it is poisoned. A method takes
-- the lock for its whole body, so it is one step from a registry to the next.
pub mod Laws
pub mod Spec
pub mod Client
use imageglass_ithmb_plugin.Prelude.{
  ℕ, [], none, some, Bool, true, false, ◌==◌, if◌then◌else◌, length,
}
use imageglass_ithmb_plugin.Prelude.HashMap.{HashMap, get, contains_key, insert, remove}
use imageglass_ithmb_plugin.Types.{IgStatus, Result}

pub record BufferEntry : Type 0 where
  pub ptr : ℕ
  pub size : ℕ
  pub freed : Bool

pub record BufferRegistry : Type 0 where
  pub poisoned : Bool
  pub entries : HashMap BufferEntry

-- `BufferRegistry::new`.
unfoldable pub new : BufferRegistry
new = record { poisoned = false; entries = [] }

-- `self.entries.lock().map_err(|_| IGStatus::Internal)?`.
abbrev pub lock : BufferRegistry → Result (HashMap BufferEntry)
lock r = if r.poisoned then Result.err IgStatus.internal else Result.ok r.entries

unfoldable pub register : BufferRegistry → ℕ → ℕ → Result (Unit {0}) × BufferRegistry
register r ptr size = elim (lock r) [
  | Result.err s ↦ (Result.err s, r)
  | Result.ok m ↦ if contains_key ptr m then (Result.err IgStatus.invalid_arg, r) else (
    Result.ok tt,
    record r { entries = insert ptr (record { ptr = ptr; size = size; freed = false }) m },
  )
]

unfoldable pub unregister : BufferRegistry → ℕ → Result BufferEntry × BufferRegistry
unregister r ptr = elim (lock r) [
  | Result.err s ↦ (Result.err s, r)
  | Result.ok m ↦ elim (get ptr m) [
    | none ↦ (Result.err IgStatus.invalid_arg, r)
    | some e ↦ (Result.ok e, record r { entries = remove ptr m })
  ]
]

-- The test methods read the map of a poisoned mutex too.
unfoldable pub contains : BufferRegistry → ℕ → Bool
contains r ptr = contains_key ptr r.entries

unfoldable pub len : BufferRegistry → ℕ
len r = length r.entries

unfoldable pub is_empty : BufferRegistry → Bool
is_empty r = len r == 0
