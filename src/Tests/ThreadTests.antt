-- ===== src/Tests/ThreadTests.antt =====
-- Two threads at one buffer: both release it at the same time.
use imageglass_ithmb_plugin.Prelude.{ℕ, zero, suc, ◌≡◌, refl, List, [], ◌∷◌, arith}
use mathlib.Core.List.{foldl}
use imageglass_ithmb_plugin.Prelude.HashMap.{get, remove}
use imageglass_ithmb_plugin.World.{World, Outcome, done, panicked, undefined}
use imageglass_ithmb_plugin.Registry.{unregister}
use imageglass_ithmb_plugin.Allocator.{pixel_buffer_free}
use imageglass_ithmb_plugin.Decode.{unregister_buffer}
use imageglass_ithmb_plugin.Decode.Contract.{IsSound}
use imageglass_ithmb_plugin.Threads.{Thread, resting, unregisters, releases, step}
use imageglass_ithmb_plugin.Threads.System.{System, Rests, advances, begins_free, Reach, here, next}
use imageglass_ithmb_plugin.Threads.Safety.{step-progress, quiet-IsSound}
use imageglass_ithmb_plugin.Scheduler.{turns}
use imageglass_ithmb_plugin.Scheduler
use imageglass_ithmb_plugin.Threads.Schedule.{run-IsSound}
use imageglass_ithmb_plugin.Threads.Holding.{Held, Reach-Held}
use imageglass_ithmb_plugin.Registry.{BufferRegistry}
use imageglass_ithmb_plugin.Prelude.{some, ◌≤◌}
use imageglass_ithmb_plugin.Threads.Rank.{rank}
use imageglass_ithmb_plugin.Tests.Fixtures.{test_env, test_env-IsSane}
use imageglass_ithmb_plugin.Tests.DecodeTests.{decoded_world, copied_world, copied_world-IsSound}

-- All threads rest, and the structs at 5 and 6 hold the address of one block.
abbrev quiet : System
quiet = record { world = copied_world; threads = λ i. resting }

record Course : Type 0 where
  pub last : System
  pub reach : Reach quiet last

taken :
    (s : Course) (i : ℕ) (o : Outcome Thread)
    → step test_env (s.last.threads i) s.last.world ≡ o
    → Course
taken s i (done t w) e = record {
  last = _;
  reach = next s.reach (advances test_env i t w test_env-IsSane e);
}
taken s i (panicked w) e = s
taken s i undefined e = s

turn : Course → ℕ → Course
unfolding taken
turn s i = taken s i (step test_env (s.last.threads i) s.last.world) refl

-- Threads 0 and 1 have begun to release the structs at 5 and 6.
abbrev begun : Course
begun = record { last = _; reach = next (next here (begins_free 0 5 tt)) (begins_free 1 6 tt) }

run : List ℕ → Course
unfolding turn
run = foldl turn begun

-- Both have read the address and cleared their structs; thread 0 has removed it from the registry.
abbrev contended : Course
contended = run (0 ∷ 1 ∷ 1 ∷ 0 ∷ 0 ∷ [])

thread_0_releases :
    (contended.last.threads 0 ≡ releases 1) × (contended.last.threads 1 ≡ unregisters 1)
unfolding run step copied_world decoded_world unregister_buffer unregister get remove
thread_0_releases = (refl, refl)

step-progress_example :
    (t : Thread) × (w : World) × (step test_env (contended.last.threads 1) contended.last.world
      ≡ done t w)
step-progress_example =
    step-progress quiet contended.last copied_world-IsSound (λ i. tt) contended.reach test_env 1
      test_env-IsSane

Reach-Held_example :
    (r : BufferRegistry) × (contended.last.world.buffer_registry ≡ some r) × Held contended.last r 1
Reach-Held_example =
    Reach-Held quiet contended.last copied_world-IsSound (λ i. tt) contended.reach 1

-- Each thread gets four turns.
abbrev turn_list : List ℕ
turn_list = 0 ∷ 1 ∷ 1 ∷ 0 ∷ 0 ∷ 1 ∷ 0 ∷ 1 ∷ []

begun_fair : (i : ℕ) → rank (begun.last.threads i) ≤ turns i turn_list
begun_fair zero = omega arith
begun_fair (suc zero) = omega arith
begun_fair (suc (suc i)) = ground arith

run-IsSound_example :
    (v : System) × (Scheduler.run (λ i. step test_env) turn_list begun.last ≡ some v)
    × ((i : ℕ) → Rests (v.threads i))
    × IsSound v.world
run-IsSound_example =
    run-IsSound quiet copied_world-IsSound (λ i. tt) (λ i. test_env) (λ i. test_env-IsSane)
      begun.last turn_list begun.reach begun_fair

-- Both threads are through.
abbrev finished : Course
finished = run (0 ∷ 1 ∷ 1 ∷ 0 ∷ 0 ∷ 1 ∷ 0 ∷ [])

finished-Rests : (i : ℕ) → Rests (finished.last.threads i)
unfolding run step copied_world decoded_world unregister_buffer unregister get remove
    pixel_buffer_free
finished-Rests zero = tt
finished-Rests (suc zero) = tt
finished-Rests (suc (suc i)) = ground arith

quiet-IsSound_example : IsSound finished.last.world
quiet-IsSound_example =
    quiet-IsSound quiet finished.last copied_world-IsSound (λ i. tt) finished.reach finished-Rests
