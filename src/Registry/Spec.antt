-- ===== src/Registry/Spec.antt =====
-- What the registry of src/buffer_registry.rs promises, without its representation: a lock that may
-- be poisoned, and a size for each address that is registered. The order of the map is forgotten.
use imageglass_ithmb_plugin.Prelude.{
  ℕ, ◌≡◌, none, some, Option, Bool, arith, ◌==◌, if◌then◌else◌, inl, inr, Option-cases,
}
use imageglass_ithmb_plugin.Prelude.HashMap.{get-insert, get-remove, contains_key-get}
use imageglass_ithmb_plugin.Types.{IgStatus, Result}
use imageglass_ithmb_plugin.Registry.{BufferEntry, BufferRegistry, register, unregister}
use imageglass_ithmb_plugin.Registry.Laws.{fresh_entry, tracked, IsValid}

pub record Ledger : Type 0 where
  pub poisoned : Bool
  pub size_of : ℕ → Option ℕ

abbrev pub view : BufferRegistry → Ledger
view r = record {
  poisoned = r.poisoned;
  size_of = λ a. elim (tracked r a) [ none ↦ none | some e ↦ some e.size ];
}

-- The promise of `register`.
abbrev pub enter : Ledger → ℕ → ℕ → Result (Unit {0}) × Ledger
enter l p n = if l.poisoned then (Result.err IgStatus.internal, l) else elim (l.size_of p) [
  | some _ ↦ (Result.err IgStatus.invalid_arg, l)
  | none ↦ (Result.ok tt, record l { size_of = λ a. if p == a then some n else l.size_of a })
]

-- The promise of `unregister`.
abbrev pub leave : Ledger → ℕ → Result BufferEntry × Ledger
leave l p = if l.poisoned then (Result.err IgStatus.internal, l) else elim (l.size_of p) [
  | none ↦ (Result.err IgStatus.invalid_arg, l)
  | some n ↦ (
    Result.ok (fresh_entry p n),
    record l { size_of = λ a. if p == a then none else l.size_of a },
  )
]

Ledger-path :
    (l m : Ledger) → l.poisoned ≡ m.poisoned → ((a : ℕ) → l.size_of a ≡ m.size_of a) → l ≡ m
Ledger-path l m p h = λ i. record { poisoned = p i; size_of = λ a. h a i }

-- On every registry, `register` returns what `enter` returns on the abstract ledger of sizes,
-- and its registry is seen as the ledger that `enter` makes.
pub register-enter :
    (r : BufferRegistry) (p n : ℕ)
    → ((register r p n).0 ≡ (enter (view r) p n).0)
      × (view (register r p n).1 ≡ (enter (view r) p n).1)
unfolding register
register-enter r p n = (
  ground (arith, contains_key-get p r.entries),
  Ledger-path _ _ (ground (arith, contains_key-get p r.entries))
      λ a. ground (arith, contains_key-get p r.entries, get-insert p a (fresh_entry p n) r.entries),
)

-- On a valid registry, `unregister` returns what `leave` returns on the abstract ledger of
-- sizes, and its registry is seen as the ledger that `leave` makes.
pub unregister-leave :
    (r : BufferRegistry) (p : ℕ)
    → IsValid r
    → ((unregister r p).0 ≡ (leave (view r) p).0) × (view (unregister r p).1 ≡ (leave (view r) p).1)
unfolding unregister
unregister-leave r p v = (
  elim (Option-cases (tracked r p)) [
    | inl absent ↦ ground arith
    | inr (e, h) ↦ ground (arith, v.written p e h)
  ],
  Ledger-path _ _ (ground arith) λ a. ground (arith, get-remove p a r.entries v.distinct),
)
