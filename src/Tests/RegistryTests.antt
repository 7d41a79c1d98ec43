-- ===== src/Tests/RegistryTests.antt =====
-- The registry at concrete inputs.
use mathlib.Core.Path.{subst}
use imageglass_ithmb_plugin.Prelude.{◌≡◌, refl, true, false, ◌∷◌, []}
use imageglass_ithmb_plugin.Prelude.HashMap.{insert, contains_key}
use imageglass_ithmb_plugin.Types.{Result}
use imageglass_ithmb_plugin.Registry.{BufferRegistry, new, register, unregister, contains, len}
use imageglass_ithmb_plugin.Registry.Laws.{
  fresh_entry, IsValid, new-IsValid, register-IsValid, unregister-register,
}
use imageglass_ithmb_plugin.Registry.Spec.{view}
use imageglass_ithmb_plugin.Registry.Client.{
  Call, registers, unregisters, asks_contains, poisons, run, replay, empty_ledger, entered, left,
  run-new_refines, run-len,
}
use imageglass_ithmb_plugin.Prelude.{List, ◌+◌}

abbrev one_buffer : BufferRegistry
one_buffer = record { poisoned = false; entries = (0x42, fresh_entry 0x42 128) ∷ [] }

one_registered : register new 0x42 128 ≡ (Result.ok tt, one_buffer)
unfolding register new contains_key insert
one_registered = refl

counted : (len one_buffer ≡ 1) × (contains one_buffer 0x42 ≡ true) × (contains one_buffer 7 ≡ false)
unfolding len contains contains_key
counted = (refl, refl, refl)

one_buffer-IsValid : IsValid one_buffer
one_buffer-IsValid =
    subst (λ (p : Result (Unit {0}) × BufferRegistry). IsValid p.1) one_registered
      (register-IsValid new 0x42 128 new-IsValid)

unregister-register_example : unregister one_buffer 0x42 ≡ (Result.ok (fresh_entry 0x42 128), new)
unregister-register_example = unregister-register new one_buffer 0x42 128 one_registered

-- An address registered twice and removed twice, and a panic under the lock.
abbrev calls : List Call
calls =
    registers 0x42 128
    ∷ registers 0x42 64
    ∷ asks_contains 0x42
    ∷ unregisters 0x42
    ∷ unregisters 0x42
    ∷ registers 7 16
    ∷ poisons
    ∷ unregisters 7
    ∷ []

run-new_refines_example :
    ((run calls new).0 ≡ (replay calls empty_ledger).0)
    × (view (run calls new).1 ≡ (replay calls empty_ledger).1)
    × IsValid (run calls new).1
run-new_refines_example = run-new_refines calls

run-len_example :
    len (run calls new).1 + left (run calls new).0 ≡ len new + entered (run calls new).0
run-len_example = run-len calls new
