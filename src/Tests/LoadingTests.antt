-- ===== src/Tests/LoadingTests.antt =====
-- Two threads that load the plugin at the same time, each with a host table of its own.
use imageglass_ithmb_plugin.Prelude.{ℕ, zero, suc, ◌≡◌, refl, List, [], ◌∷◌, ◌≤◌, none, some, codes}
use mathlib.Core.List.{foldl}
use imageglass_ithmb_plugin.Prelude.Int.{ℤ, pos}
use imageglass_ithmb_plugin.Types.{Ptr, null, ref, IgHostApi, IgPluginApi}
use imageglass_ithmb_plugin.AbiLayout.{size_of}
use imageglass_ithmb_plugin.World.{World, Outcome, done, panicked, undefined}
use imageglass_ithmb_plugin.State.{build_plugin_state}
use imageglass_ithmb_plugin.Loading.{Loader, returned, admits, step, System, Reach, here, next}
use imageglass_ithmb_plugin.Scheduler.{turns}
use imageglass_ithmb_plugin.Scheduler
use imageglass_ithmb_plugin.Loading.Schedule.{run-Loaded}
use imageglass_ithmb_plugin.Loading.Once.{start, Loaded, Reach-Loaded}
use imageglass_ithmb_plugin.Tests.Fixtures.{test_world, test_host}

abbrev unloaded : World
unloaded = record test_world { host_api = none; buffer_registry = none }

abbrev the_version : List ℕ
the_version = codes "1.6.2"

abbrev other_host : IgHostApi
other_host = record test_host { core = null }

-- Thread 0 comes with one table, thread 1 with another, and the others with none.
abbrev hosts : ℕ → Ptr IgHostApi
hosts zero = ref test_host
hosts (suc zero) = ref other_host
hosts (suc (suc i)) = null

abbrev versions : ℕ → ℤ
versions i = pos 1000000

abbrev entry : System
entry = start the_version versions hosts unloaded

record Course : Type 0 where
  pub last : System
  pub reach : Reach the_version entry last

taken :
    (s : Course) (i : ℕ) (o : Outcome Loader)
    → step the_version (s.last.threads i) s.last.world ≡ o
    → Course
taken s i (done t w) e = record { last = _; reach = next i t w s.reach e }
taken s i (panicked w) e = s
taken s i undefined e = s

turn : Course → ℕ → Course
unfolding taken
turn s i = taken s i (step the_version (s.last.threads i) s.last.world) refl

-- Thread 1 stores its table first, and thread 0 is the first to return.
abbrev race : List ℕ
race = 0 ∷ 1 ∷ 1 ∷ 0 ∷ 0 ∷ 1 ∷ 1 ∷ 0 ∷ 0 ∷ 1 ∷ 2 ∷ 0 ∷ 0 ∷ []

abbrev raced : Course
unfolding turn
raced = foldl turn (record { last = entry; reach = here }) race

abbrev the_table : IgPluginApi
unfolding build_plugin_state
the_table = (build_plugin_state the_version).plugin_api

thread_0_returns : raced.last.threads 0 ≡ returned (ref the_table)
unfolding step admits build_plugin_state size_of raced
thread_0_returns = refl

Reach-Loaded_example : Loaded the_version versions hosts unloaded 0 (ref the_table) raced.last
Reach-Loaded_example =
    Reach-Loaded the_version versions hosts unloaded raced.last 0 (ref the_table) raced.reach
      thread_0_returns

run-Loaded_example :
    (u : System) × (Scheduler.run (λ _. step the_version) race entry ≡ some u)
    × ((i : ℕ)
        → 7 ≤ turns i race
        → (answer : Ptr IgPluginApi) × (u.threads i ≡ returned answer)
          × Loaded the_version versions hosts unloaded i answer u)
run-Loaded_example = run-Loaded the_version versions hosts unloaded race
