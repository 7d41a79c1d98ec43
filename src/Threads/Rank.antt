-- ===== src/Threads/Rank.antt =====
-- src/decode.rs: how many steps a thread is from the end of its call.
use native.Mathlib.Decide.{ℕ_discrete}
use imageglass_ithmb_plugin.Prelude.{ℕ, ◌<◌, ◌≤◌, ◌-◌, ◌≡◌, ◌⊎◌, inl, inr, arith}
use imageglass_ithmb_plugin.World.{World, done}
use imageglass_ithmb_plugin.Env.{Env}
use imageglass_ithmb_plugin.Threads.{
  Thread, resting, allocates, copies, registers, discards, publishes, returns, reads, clears,
  unregisters, releases, step,
}
use imageglass_ithmb_plugin.Threads.System.{Rests}

-- The steps left, at most.
abbrev pub rank : Thread → ℕ
rank resting = 0
rank (returns status) = 0
rank (allocates buffer img l) = 4
rank (copies buffer img l p) = 3
rank (registers buffer l p) = 2
rank (discards p) = 1
rank (publishes buffer l p) = 1
rank (reads buffer) = 4
rank (clears buffer p) = 3
rank (unregisters p) = 2
rank (releases p) = 1

-- Each step brings a thread nearer to the end of its call.
pub rank_falls :
    (env : Env) (t t' : Thread) (w w' : World) → step env t w ≡ done t' w' → rank t' ≤ rank t - 1
unfolding step
rank_falls env resting t' w w' e = ground arith
rank_falls env (returns status) t' w w' e = ground arith
rank_falls env (allocates buffer img l) t' w w' e = ground arith
rank_falls env (copies buffer img l p) t' w w' e = ground arith
rank_falls env (registers buffer l p) t' w w' e = ground arith
rank_falls env (discards p) t' w w' e = ground arith
rank_falls env (publishes buffer l p) t' w w' e = ground arith
rank_falls env (reads buffer) t' w w' e = ground arith
rank_falls env (clears buffer p) t' w w' e = ground arith
rank_falls env (unregisters p) t' w w' e = ground arith
rank_falls env (releases p) t' w w' e = ground arith

pub rank_zero-Rests : (t : Thread) → rank t ≡ 0 → Rests t
rank_zero-Rests resting e = tt
rank_zero-Rests (returns status) e = tt
rank_zero-Rests (allocates buffer img l) e = absurd (omega (arith, e))
rank_zero-Rests (copies buffer img l p) e = absurd (omega (arith, e))
rank_zero-Rests (registers buffer l p) e = absurd (omega (arith, e))
rank_zero-Rests (discards p) e = absurd (omega (arith, e))
rank_zero-Rests (publishes buffer l p) e = absurd (omega (arith, e))
rank_zero-Rests (reads buffer) e = absurd (omega (arith, e))
rank_zero-Rests (clears buffer p) e = absurd (omega (arith, e))
rank_zero-Rests (unregisters p) e = absurd (omega (arith, e))
rank_zero-Rests (releases p) e = absurd (omega (arith, e))

-- When a thread takes a step, it rests already or is then nearer to the end of its call,
-- whatever the other threads have done to the shared state before it.
pub rank-step :
    (env : Env) (t t' : Thread) (w w' : World)
    → step env t w ≡ done t' w'
    → Rests t ⊎ (rank t' < rank t)
rank-step env t t' w w' e = elim (ℕ_discrete (rank t) 0) [
  | yes zero_left ↦ inl (rank_zero-Rests t zero_left)
  | no some_left ↦ inr (omega (arith, some_left, rank_falls env t t' w w' e))
]
