-- ===== src/Threads/Schedule.antt =====
-- src/decode.rs: the threads under a scheduler that gives each one its turns.
use imageglass_ithmb_plugin.Prelude.{ℕ, ◌≤◌, ◌≡◌, List, some, arith}
use imageglass_ithmb_plugin.Scheduler.{turns, run, Progresses, run-Ends}
use imageglass_ithmb_plugin.Env.{Env}
use imageglass_ithmb_plugin.Decode.Contract.{IsSound, IsSane}
use imageglass_ithmb_plugin.Threads.{step}
use imageglass_ithmb_plugin.Threads.System.{System, Rests, advances, Reach, next}
use imageglass_ithmb_plugin.Threads.Safety.{step-progress, quiet-IsSound}
use imageglass_ithmb_plugin.Threads.Rank.{rank, rank_falls, rank_zero-Rests}

module _ (s : System) (sound : IsSound s.world) (rest : (i : ℕ) → Rests (s.threads i))
    (envs : ℕ → Env) (sane : (i : ℕ) → IsSane (envs i)) where
  progress : (u : System) (i : ℕ) → Reach s u → Progresses (λ j. step (envs j)) rank (Reach s) u i
  progress u i r =
      let (t, w, e) = step-progress s u sound rest r (envs i) i (sane i) in
      record {
        thread = t;
        world = w;
        taken = e;
        falls = rank_falls (envs i) (u.threads i) t u.world w e;
        reaches = next r (advances (envs i) i t w (sane i) e);
      }

  -- From a sound state in which all threads rest, in any state that they reach: a schedule, in
  -- sane environments, that gives each thread as many turns as its rank (the steps that its call
  -- has left, four at most) runs to its end, where all threads rest and the state is sound.
  pub run-IsSound :
      (u : System) (schedule : List ℕ)
      → Reach s u
      → ((i : ℕ) → rank (u.threads i) ≤ turns i schedule)
      → (v : System) × (run (λ i. step (envs i)) schedule u ≡ some v)
        × ((i : ℕ) → Rests (v.threads i))
        × IsSound v.world
  run-IsSound u schedule r fair =
      let ends = run-Ends (λ i. step (envs i)) rank (Reach s) progress schedule u r in
      let rests =
        λ (i : ℕ). rank_zero-Rests (ends.final.threads i) (omega (arith, ends.ranks i, fair i)) in
      (ends.final, ends.runs, rests, quiet-IsSound s ends.final sound rest ends.reached rests)
