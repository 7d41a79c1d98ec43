-- ===== src/UnitTests/Buffers.antt =====
-- src/buffer_registry.rs, `mod tests`. Each test has a registry of its own.
use imageglass_ithmb_plugin.Prelude.{◌≡◌, refl, not, ◌==◌}
use imageglass_ithmb_plugin.Prelude.HashMap.{get, insert, remove, contains_key}
use imageglass_ithmb_plugin.Types.{IgStatus}
use imageglass_ithmb_plugin.World.{World, Run, done, ◌>>=◌, ◌>>◌}
use imageglass_ithmb_plugin.Registry.{new, register, unregister, contains, len, is_empty}
use imageglass_ithmb_plugin.UnitTests.{assert, eqb_status, is_ok, is_error, unwrap_ok}

unfoldable register_and_contains : Run (Unit {0})
unfolding new register contains len contains_key insert
register_and_contains = do
  assert (not (contains new 0x42))
  let (registered, reg) = register new 0x42 128
  assert (is_ok registered)
  assert (contains reg 0x42)
  assert (len reg == 1)

unfoldable register_double_is_error : Run (Unit {0})
unfolding new register contains_key insert
register_double_is_error = do
  let (registered, reg) = register new 0x42 64
  assert (is_ok registered)
  let (again, reg') = register reg 0x42 64
  assert (is_error again IgStatus.invalid_arg)

unfoldable unregister_removes_entry : Run (Unit {0})
unfolding new register unregister contains is_empty len contains_key insert get remove
unregister_removes_entry = do
  let (registered, reg) = register new 0x42 256
  unwrap_ok registered
  let (unregistered, reg') = unregister reg 0x42
  entry ← unwrap_ok unregistered
  assert (entry.ptr == 0x42)
  assert (entry.size == 256)
  assert (not entry.freed)
  assert (not (contains reg' 0x42))
  assert (is_empty reg')

unfoldable unregister_unknown_is_error : Run (Unit {0})
unfolding new unregister get
unregister_unknown_is_error = assert (is_error (unregister new 0xDEAD).0 IgStatus.invalid_arg)

unfoldable empty_registry : Run (Unit {0})
unfolding new is_empty len
empty_registry = do assert (is_empty new); assert (len new == 0)

unfoldable multiple_entries : Run (Unit {0})
unfolding new register unregister contains len contains_key insert get remove
multiple_entries = do
  let (registered_a, reg_a) = register new 0x10 16
  unwrap_ok registered_a
  let (registered_b, reg_b) = register reg_a 0x20 32
  unwrap_ok registered_b
  let (registered_c, reg_c) = register reg_b 0x30 64
  unwrap_ok registered_c
  assert (len reg_c == 3)
  assert (contains reg_c 0x10)
  assert (contains reg_c 0x20)
  assert (contains reg_c 0x30)
  let (unregistered, reg) = unregister reg_c 0x20
  entry ← unwrap_ok unregistered
  assert (len reg == 2)
  assert (not (contains reg 0x20))
  assert (contains reg 0x10)
  assert (contains reg 0x30)

unfoldable null_pointer_is_valid_key : Run (Unit {0})
unfolding new register unregister contains len contains_key insert get remove
null_pointer_is_valid_key = do
  let (registered, reg) = register new 0 0
  assert (is_ok registered)
  assert (contains reg 0)
  assert (len reg == 1)
  let (unregistered, reg') = unregister reg 0
  entry ← unwrap_ok unregistered
  assert (entry.ptr == 0)
  assert (entry.size == 0)

-- All seven tests of the file, one after the other.
unfoldable registry_tests : Run (Unit {0})
unfolding register_and_contains register_double_is_error unregister_removes_entry
    unregister_unknown_is_error empty_registry multiple_entries null_pointer_is_valid_key
registry_tests = do
  register_and_contains
  register_double_is_error
  unregister_removes_entry
  unregister_unknown_is_error
  empty_registry
  multiple_entries
  null_pointer_is_valid_key

registry_tests_pass : (w : World) → registry_tests w ≡ done tt w
unfolding registry_tests eqb_status
registry_tests_pass w = refl
