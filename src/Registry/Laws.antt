-- ===== src/Registry/Laws.antt =====
-- src/buffer_registry.rs: the registry's invariant, and how `register` and `unregister` interact.
use imageglass_ithmb_plugin.Prelude.{ℕ, ◌≡◌, some, Option, false, arith}
use imageglass_ithmb_plugin.Prelude.HashMap.{
  get, IsDistinct, get-insert, get-remove, insert-IsDistinct, remove-IsDistinct, contains_key-get,
  remove-insert,
}
use imageglass_ithmb_plugin.Types.{IgStatus, Result}
use imageglass_ithmb_plugin.Registry.{BufferEntry, BufferRegistry, new, register, unregister}

abbrev pub fresh_entry : ℕ → ℕ → BufferEntry
fresh_entry ptr size = record { ptr = ptr; size = size; freed = false }

-- The entry that a registry holds for an address.
abbrev pub tracked : BufferRegistry → ℕ → Option BufferEntry
tracked r a = get a r.entries

-- No key twice, and every entry is one that `register` wrote for its key.
pub record IsValid (r : BufferRegistry) : Type 0 where
  pub distinct : IsDistinct r.entries
  pub written : (a : ℕ) (e : BufferEntry) → tracked r a ≡ some e → (e.ptr ≡ a) × (e.freed ≡ false)

pub new-IsValid : IsValid new
unfolding new get
new-IsValid = record { distinct = tt; written = λ a e h. absurd (cc) }

-- `register` keeps a valid registry valid: its keys are distinct, and each entry names its key
-- and is not marked freed.
pub register-IsValid : (r : BufferRegistry) (p n : ℕ) → IsValid r → IsValid (register r p n).1
unfolding register
register-IsValid r p n v = record {
  distinct = ground (arith, v.distinct, insert-IsDistinct p (fresh_entry p n) r.entries);
  written = λ a e h. ground (
    arith,
    v.written a e,
    get-insert p a (fresh_entry p n) r.entries,
    contains_key-get p r.entries,
  );
}

pub unregister-IsValid : (r : BufferRegistry) (p : ℕ) → IsValid r → IsValid (unregister r p).1
unfolding unregister
unregister-IsValid r p v = record {
  distinct = ground (arith, v.distinct, remove-IsDistinct p r.entries);
  written = λ a e h. ground (arith, v.written a e, get-remove p a r.entries v.distinct);
}

-- When `register` has succeeded, `unregister` of the same address returns the entry with its
-- size, and the registry is as before the registration.
pub unregister-register :
    (r r' : BufferRegistry) (p n : ℕ)
    → register r p n ≡ (Result.ok tt, r')
    → unregister r' p ≡ (Result.ok (fresh_entry p n), r)
unfolding register unregister
unregister-register r r' p n h = ground (
  arith,
  contains_key-get p r.entries,
  get-insert p p (fresh_entry p n) r.entries,
  remove-insert p (fresh_entry p n) r.entries,
)

-- In a valid registry, when `unregister` has returned an entry, a second `unregister` of the
-- address is refused with `InvalidArg` and changes nothing.
pub unregister_twice :
    (r r' : BufferRegistry) (p : ℕ) (e : BufferEntry)
    → IsValid r
    → unregister r p ≡ (Result.ok e, r')
    → unregister r' p ≡ (Result.err IgStatus.invalid_arg, r')
unfolding unregister
unregister_twice r r' p e v h = ground (arith, get-remove p p r.entries v.distinct)
