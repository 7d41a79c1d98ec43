-- ===== src/Registry/Client.antt =====
-- src/buffer_registry.rs: what a client can observe of the registry over any sequence of calls.
use imageglass_ithmb_plugin.Prelude.{
  ℕ, ◌≡◌, refl, ap, List, [], ◌∷◌, none, some, Option, Bool, true, false, arith, Option-cases, inl,
  inr, ◌+◌,
}
use imageglass_ithmb_plugin.Prelude.HashMap.{contains_key-get, get, length-insert, length-remove}
use imageglass_ithmb_plugin.Types.{Result}
use imageglass_ithmb_plugin.Registry.{
  BufferEntry, BufferRegistry, new, register, unregister, contains, len,
}
use imageglass_ithmb_plugin.Registry.Laws.{
  fresh_entry, IsValid, new-IsValid, register-IsValid, unregister-IsValid,
}
use imageglass_ithmb_plugin.Registry.Spec.{
  Ledger, view, enter, leave, register-enter, unregister-leave,
}

-- A call of a method, or a panic of a thread that holds the lock.
pub data Call : Type 0 where
  registers : ℕ → ℕ → Call
  unregisters : ℕ → Call
  asks_contains : ℕ → Call
  poisons : Call

pub data Reply : Type 0 where
  registered : Result (Unit {0}) → Reply
  unregistered : Result BufferEntry → Reply
  contained : Bool → Reply
  poisoned : Reply

abbrev poison : BufferRegistry → BufferRegistry
poison r = record r { poisoned = true }

abbrev pub answer : Call → BufferRegistry → Reply × BufferRegistry
answer (registers p n) r = (registered (register r p n).0, (register r p n).1)
answer (unregisters p) r = (unregistered (unregister r p).0, (unregister r p).1)
answer (asks_contains p) r = (contained (contains r p), r)
answer poisons r = (poisoned, poison r)

-- The same call on the ledger.
abbrev is_known : Option ℕ → Bool
is_known none = false
is_known (some n) = true

abbrev pub promise : Call → Ledger → Reply × Ledger
promise (registers p n) l = (registered (enter l p n).0, (enter l p n).1)
promise (unregisters p) l = (unregistered (leave l p).0, (leave l p).1)
promise (asks_contains p) l = (contained (is_known (l.size_of p)), l)
promise poisons l = (poisoned, record l { poisoned = true })

unfoldable pub run : List Call → BufferRegistry → List Reply × BufferRegistry
run [] r = ([], r)
run (c ∷ calls) r = let rest = run calls (answer c r).1 in ((answer c r).0 ∷ rest.0, rest.1)

unfoldable pub replay : List Call → Ledger → List Reply × Ledger
replay [] l = ([], l)
replay (c ∷ calls) l = let rest = replay calls (promise c l).1 in ((promise c l).0 ∷ rest.0, rest.1)

answer-IsValid : (c : Call) (r : BufferRegistry) → IsValid r → IsValid (answer c r).1
answer-IsValid (registers p n) r v = register-IsValid r p n v
answer-IsValid (unregisters p) r v = unregister-IsValid r p v
answer-IsValid (asks_contains p) r v = v
answer-IsValid poisons r v = record { distinct = v.distinct; written = v.written }

contains-known : (r : BufferRegistry) (p : ℕ) → contains r p ≡ is_known ((view r).size_of p)
unfolding contains
contains-known r p = ground (arith, contains_key-get p r.entries)

-- Each call refines its promise.
answer-promise :
    (c : Call) (r : BufferRegistry)
    → IsValid r
    → ((answer c r).0 ≡ (promise c (view r)).0) × (view (answer c r).1 ≡ (promise c (view r)).1)
answer-promise (registers p n) r v =
    let (reply, after) = register-enter r p n in (ap registered reply, after)
answer-promise (unregisters p) r v =
    let (reply, after) = unregister-leave r p v in (ap unregistered reply, after)
answer-promise (asks_contains p) r v = (ap contained (contains-known r p), refl)
answer-promise poisons r v = (refl, refl)

run-IsValid :
    (calls : List Call) (r : BufferRegistry)
    → IsValid r
    → ((run calls r).0 ≡ (replay calls (view r)).0)
      × (view (run calls r).1 ≡ (replay calls (view r)).1)
      × IsValid (run calls r).1
unfolding run replay
run-IsValid [] r v = (refl, refl, v)
run-IsValid (c ∷ calls) r v =
    let (reply, after) = answer-promise c r v in
    let (replies, last, valid) = run-IsValid calls (answer c r).1 (answer-IsValid c r v) in
    let replies' : (run calls (answer c r).1).0 ≡ (replay calls (promise c (view r)).1).0 =
      rw after at replies in
    let last' : view (run calls (answer c r).1).1 ≡ (replay calls (promise c (view r)).1).1 =
      rw after at last in
    (λ i. reply i ∷ replies' i, last', valid)

abbrev pub empty_ledger : Ledger
empty_ledger = record { poisoned = false; size_of = λ a. none }

view-new : view new ≡ empty_ledger
unfolding new get
view-new = refl

-- Over any calls from a new registry, the replies are those of the replay of the calls on the
-- empty ledger of sizes, and the registry at the end is valid and is seen as the ledger at the
-- end of the replay.
pub run-new_refines :
    (calls : List Call)
    → ((run calls new).0 ≡ (replay calls empty_ledger).0)
      × (view (run calls new).1 ≡ (replay calls empty_ledger).1)
      × IsValid (run calls new).1
run-new_refines calls =
    let (replies, last, valid) = run-IsValid calls new new-IsValid in
    (rw view-new at replies, rw view-new at last, valid)

-- The registrations and the removals that have succeeded.
abbrev entry : Reply → ℕ
entry (registered (Result.ok u)) = 1
entry (registered (Result.err s)) = 0
entry (unregistered o) = 0
entry (contained b) = 0
entry poisoned = 0

abbrev removal : Reply → ℕ
removal (unregistered (Result.ok e)) = 1
removal (unregistered (Result.err s)) = 0
removal (registered o) = 0
removal (contained b) = 0
removal poisoned = 0

abbrev pub entered : List Reply → ℕ
entered [] = 0
entered (x ∷ replies) = entry x + entered replies

abbrev pub left : List Reply → ℕ
left [] = 0
left (x ∷ replies) = removal x + left replies

answer-len :
    (c : Call) (r : BufferRegistry)
    → len (answer c r).1 + removal (answer c r).0 ≡ len r + entry (answer c r).0
unfolding len register unregister
answer-len (registers p n) r =
    ground (arith, contains_key-get p r.entries, length-insert p (fresh_entry p n) r.entries)
answer-len (unregisters p) r = elim (Option-cases (get p r.entries)) [
  | inl absent ↦ ground (arith, absent)
  | inr (e, known) ↦ ground (arith, known, length-remove p e r.entries)
]
answer-len (asks_contains p) r = refl
answer-len poisons r = refl

-- Over any calls from any registry, the entries at the end and the successful removals together
-- are as many as the entries at the start and the successful registrations.
pub run-len :
    (calls : List Call) (r : BufferRegistry)
    → len (run calls r).1 + left (run calls r).0 ≡ len r + entered (run calls r).0
unfolding run
run-len [] r = omega arith
run-len (c ∷ calls) r = omega (arith, answer-len c r, run-len calls (answer c r).1)
