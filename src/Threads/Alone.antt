-- ===== src/Threads/Alone.antt =====
-- src/decode.rs: a thread that is left alone, beside the sequential functions.
use imageglass_ithmb_plugin.Prelude.{ℕ, ◌≡◌, ◌≢◌, arith}
use imageglass_ithmb_plugin.World.{World, pure, ◌>>=◌}
use imageglass_ithmb_plugin.Env.{Env, DecodedImage}
use imageglass_ithmb_plugin.Decode.{FrameLayout, hand_over, free_body}
use imageglass_ithmb_plugin.Threads.{allocates, returns, reads, resting, steps}

module _ (env : Env) (buffer : ℕ) (img : DecodedImage) (l : FrameLayout) where
  -- Four steps of a thread from the allocation on are the sequential `hand_over` with its
  -- status, in every state.
  pub steps-hand_over :
      (w : World)
      → steps 4 env (allocates buffer img l) w
        ≡ (hand_over env buffer img l >>= λ s. pure (returns s)) w
  unfolding steps hand_over
  steps-hand_over w = ground arith

-- Four steps of a thread on a non-null struct are the sequential `free_body`, in every state.
pub steps-free_body :
    (env : Env) (buffer : ℕ) (w : World)
    → buffer ≢ 0
    → steps 4 env (reads buffer) w ≡ (free_body buffer >>= λ _. pure resting) w
unfolding steps free_body
steps-free_body env buffer w h = ground arith
