-- ===== src/Threads/System.antt =====
-- src/decode.rs: a system of threads, and its moves.
use imageglass_ithmb_plugin.Prelude.{ℕ, ◌≡◌, List, some, true, false}
use imageglass_ithmb_plugin.Types.{IgPixelBuffer}
use imageglass_ithmb_plugin.World.{World, done, update}
use imageglass_ithmb_plugin.Scheduler.{Threaded}
use imageglass_ithmb_plugin.Registry.{BufferRegistry}
use imageglass_ithmb_plugin.Env.{Env, DecodedImage, decoded}
use imageglass_ithmb_plugin.Decode.{FrameLayout, frame_layout}
use imageglass_ithmb_plugin.Decode.Contract.{IsSane}
use imageglass_ithmb_plugin.Threads.{Thread, resting, allocates, returns, reads, step}

abbrev pub System : Type 0
System = Threaded Thread

-- A thread that is not inside a call.
abbrev pub Rests : Thread → Type 0
Rests resting = Unit {0}
Rests (returns status) = Unit {0}
Rests _ = ⊥

-- One step of the system: a thread goes on, or begins a call, or the host writes a struct, or a
-- thread panics while it holds the registry's lock.
pub data Move (s : System) : System → Type 0 where
  advances :
      (env : Env) (i : ℕ) (t : Thread) (w : World)
      → IsSane env
      → step env (s.threads i) s.world ≡ done t w
      → Move s (record { world = w; threads = update s.threads i t })
  begins_decode :
      (env : Env) (i buffer : ℕ) (bytes : List ℕ) (img : DecodedImage) (l : FrameLayout)
      → IsSane env
      → Rests (s.threads i)
      → env.decode_ithmb bytes false ≡ decoded img
      → frame_layout img ≡ some l
      → Move s (record { world = s.world; threads = update s.threads i (allocates buffer img l) })
  begins_free :
      (i buffer : ℕ)
      → Rests (s.threads i)
      → Move s (record { world = s.world; threads = update s.threads i (reads buffer) })
  writes :
      (slot : ℕ) (b : IgPixelBuffer)
      → Move s (record {
        world = record (s.world) { pixel_buffers = update (s.world.pixel_buffers) slot b };
        threads = s.threads;
      })
  poisons :
      (r : BufferRegistry)
      → s.world.buffer_registry ≡ some r
      → Move s (record {
        world = record (s.world) { buffer_registry = some (record r { poisoned = true }) };
        threads = s.threads;
      })

pub data Reach (s : System) : System → Type 0 where
  here : Reach s s
  next : {t u : System} → Reach s t → Move t u → Reach s u
