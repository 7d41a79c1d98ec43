-- ===== src/Threads.antt =====
-- src/decode.rs with several host threads in it. A step of a thread is one operation on what the
-- threads share: the allocator's blocks, the registry, the host's structs. A call of
-- the registry is one step; Threads.Locking has its mutex, with threads that wait for it.
pub mod Guards
pub mod Local
pub mod Hands
pub mod Filling
pub mod Releasing
pub mod Slots
pub mod Moves
pub mod System
pub mod Resting
pub mod Safety
pub mod Alone
pub mod Rank
pub mod Schedule
pub mod Holding
pub mod Locking
pub mod Waiting
use imageglass_ithmb_plugin.Prelude.{ℕ, zero, suc, ◌==◌, if◌then◌else◌, Option, none, some}
use imageglass_ithmb_plugin.Types.{IgStatus, Result}
use imageglass_ithmb_plugin.World.{World, Run, pure, ◌>>=◌, ◌>>◌, ask, modify, update}
use imageglass_ithmb_plugin.Env.{Env, DecodedImage}
use imageglass_ithmb_plugin.Allocator.{pixel_buffer_alloc, pixel_buffer_free, copy_nonoverlapping}
use imageglass_ithmb_plugin.Decode.{
  FrameLayout, filled_buffer, cleared_buffer, register_buffer, unregister_buffer,
}

-- Where a thread stands in `codec_decode_static_raster`, behind the decoder's call, or in
-- `codec_free_pixel_buffer`, behind the null check, with the variables that are live there.
pub data Thread : Type 0 where
  resting : Thread
  allocates : ℕ → DecodedImage → FrameLayout → Thread
  copies : ℕ → DecodedImage → FrameLayout → ℕ → Thread
  registers : ℕ → FrameLayout → ℕ → Thread
  discards : ℕ → Thread
  publishes : ℕ → FrameLayout → ℕ → Thread
  returns : IgStatus → Thread
  reads : ℕ → Thread
  clears : ℕ → ℕ → Thread
  unregisters : ℕ → Thread
  releases : ℕ → Thread

-- The next step of a thread, and where it stands then. A thread that is through stays where it is.
unfoldable pub step : Env → Thread → Run Thread
unfolding filled_buffer cleared_buffer
step env resting = pure resting
step env (allocates buffer img l) = do
  p ← pixel_buffer_alloc env l.buf_size
  pure (if p == 0 then returns IgStatus.out_of_memory else copies buffer img l p)
step env (copies buffer img l p) = do
  copy_nonoverlapping img.pixels p l.buf_size
  pure (registers buffer l p)
step env (registers buffer l p) = do
  registered ← register_buffer p l.buf_size
  elim registered [ Result.err _ ↦ pure (discards p) | Result.ok _ ↦ pure (publishes buffer l p) ]
step env (discards p) = do pixel_buffer_free p; pure (returns IgStatus.internal)
step env (publishes buffer l p) = do
  modify (λ w. record w { pixel_buffers = update w.pixel_buffers buffer (filled_buffer l p) })
  pure (returns IgStatus.ok)
step env (returns status) = pure (returns status)
step env (reads buffer) = do
  p ← ask (λ w. (w.pixel_buffers buffer).data_ptr)
  pure (clears buffer p)
step env (clears buffer p) = do
  modify (λ w. record w {
    pixel_buffers = update w.pixel_buffers buffer (cleared_buffer (w.pixel_buffers buffer));
  })
  pure (if p == 0 then resting else unregisters p)
step env (unregisters p) = do
  unregistered ← unregister_buffer p
  elim unregistered [ Result.err _ ↦ pure resting | Result.ok _ ↦ pure (releases p) ]
step env (releases p) = do pixel_buffer_free p; pure resting

-- A number of steps of one thread, with no other in between.
unfoldable pub steps : ℕ → Env → Thread → Run Thread
unfolding step
steps zero env t = pure t
steps (suc n) env t = do t' ← step env t; steps n env t'
