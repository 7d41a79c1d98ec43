-- ===== src/Tests/LockTests.antt =====
-- Two threads at one buffer, of which one waits for the registry's lock.
use imageglass_ithmb_plugin.Prelude.{ℕ, Option, ◌≡◌, ◌≢◌, refl, [], ◌∷◌, none, some, arith}
use mathlib.Core.List.{foldl}
use imageglass_ithmb_plugin.Threads.{resting, step}
use imageglass_ithmb_plugin.Threads.System.{System, begins_free}
use imageglass_ithmb_plugin.Threads.Locking.{
  Phase, Locking, Turn, moves, waits, faults, needs_lock, turn, Course, here, takes, beside,
}
use imageglass_ithmb_plugin.Threads.Waiting.{unlocked, Proceeds, Course-Proceeds}
use imageglass_ithmb_plugin.Tests.Fixtures.{test_env, test_env-IsSane}
use imageglass_ithmb_plugin.Tests.DecodeTests.{decoded_world, copied_world, copied_world-IsSound}

-- All threads rest, and the structs at 5 and 6 hold the address of one block.
abbrev idle : System
idle = record { world = copied_world; threads = λ i. resting }

record Walk : Type 0 where
  pub last : Locking
  pub course : Course (unlocked idle) last

stride : (s : Walk) (i : ℕ) (o : Turn) → turn test_env i s.last ≡ o → Walk
stride s i (moves v) e = record { last = v; course = takes test_env i v s.course test_env-IsSane e }
stride s i (waits j) e = s
stride s i faults e = s

walk_on : Walk → ℕ → Walk
unfolding stride
walk_on s i = stride s i (turn test_env i s.last) refl

free_lock : (i : ℕ) (p : Phase) → ◌≢◌ {A = Option (ℕ × Phase)} none (some (i, p))
free_lock i p e = ground (arith, e)

-- Threads 0 and 1 have begun to release the structs at 5 and 6.
abbrev setting_out : Walk
setting_out = record {
  last = _;
  course =
      beside (begins_free 1 6 tt) (beside (begins_free 0 5 tt) here (free_lock 0)) (free_lock 1);
}

-- Both have read the address and cleared their structs; thread 0 has taken the lock.
abbrev crowded : Walk
unfolding walk_on
crowded = foldl walk_on setting_out (0 ∷ 1 ∷ 1 ∷ 0 ∷ 0 ∷ [])

thread_1_waits : turn test_env 1 crowded.last ≡ waits 0
unfolding crowded turn step copied_world decoded_world needs_lock
thread_1_waits = refl

Course-Proceeds_example : Proceeds (λ j. test_env) 1 crowded.last
Course-Proceeds_example =
    Course-Proceeds idle copied_world-IsSound (λ i. tt) crowded.last (λ j. test_env) 1
      crowded.course (λ j. test_env-IsSane)
