-- ===== src/Threads/Locking.antt =====
-- src/buffer_registry.rs with the threads of src/decode.rs: the registry's mutex. A thread takes the
-- lock, runs the body of `register` or `unregister` and gives the lock back when the guard goes out of
-- scope, and another that comes to the lock meanwhile waits.
use imageglass_ithmb_plugin.Prelude.{
  ℕ, zero, suc, ◌≡◌, ◌≢◌, Option, none, some, Bool, true, false, ◌==◌, if◌then◌else◌,
}
use imageglass_ithmb_plugin.World.{done, update}
use imageglass_ithmb_plugin.Env.{Env}
use imageglass_ithmb_plugin.Decode.Contract.{IsSane}
use imageglass_ithmb_plugin.Threads.{Thread, registers, unregisters, step}
use imageglass_ithmb_plugin.Threads.System.{
  System, Move, advances, begins_decode, begins_free, writes, poisons,
}

-- The holder of the lock stands before or behind the body of the call.
pub data Phase : Type 0 where
  entered leaving : Phase

pub record Locking : Type 0 where
  pub system : System
  pub holder : Option (ℕ × Phase)

-- The next step of the thread is a call of the registry.
unfoldable pub needs_lock : Thread → Bool
needs_lock (registers buffer l p) = true
needs_lock (unregisters p) = true
needs_lock _ = false

-- How a turn of a thread ends: with a new state, at the lock that another thread holds, or in a
-- panic or undefined behaviour.
pub data Turn : Type 0 where
  moves : Locking → Turn
  waits : ℕ → Turn
  faults : Turn

unfoldable pub advance : Env → ℕ → Option (ℕ × Phase) → System → Turn
unfolding step
advance env i holder s = elim (step env (s.threads i) s.world) [
  | done t w ↦
      moves
        (record { system = record { world = w; threads = update s.threads i t }; holder = holder })
  | _ ↦ faults
]

-- A turn of thread `i`, with the lock as it stands.
unfoldable pub turn_at : Env → ℕ → System → Option (ℕ × Phase) → Turn
unfolding advance needs_lock
turn_at env i s none =
    if needs_lock (s.threads i)
    then moves (record { system = s; holder = some (i, entered) })
    else advance env i none s
turn_at env i s (some (j, entered)) =
    if j == i
    then advance env i (some (i, leaving)) s
    else if needs_lock (s.threads i)
    then waits j
    else advance env i (some (j, entered)) s
turn_at env i s (some (j, leaving)) =
    if j == i
    then moves (record { system = s; holder = none })
    else if needs_lock (s.threads i)
    then waits j
    else advance env i (some (j, leaving)) s

unfoldable pub turn : Env → ℕ → Locking → Turn
unfolding turn_at
turn env i u = turn_at env i u.system u.holder

-- A number of turns of one thread.
unfoldable pub turns_of : ℕ → Env → ℕ → Locking → Turn
unfolding turn
turns_of zero env i u = moves u
turns_of (suc n) env i u = elim (turn env i u) [
  | moves v ↦ turns_of n env i v
  | waits j ↦ waits j
  | faults ↦ faults
]

-- What is no step of a thread: a thread that is outside the lock begins a call, the host writes a
-- struct, or the lock is poisoned by a thread that takes it and panics.
abbrev pub IsBeside : Option (ℕ × Phase) → {s t : System} → Move s t → Type 0
IsBeside holder (advances env i t w sane e) = ⊥
IsBeside holder (begins_decode env i buffer bytes img l sane rest d e) =
    (p : Phase) → holder ≢ some (i, p)
IsBeside holder (begins_free i buffer rest) = (p : Phase) → holder ≢ some (i, p)
IsBeside holder (writes slot b) = Unit {0}
IsBeside holder (poisons r e) = holder ≡ none

pub data Course (s : Locking) : Locking → Type 0 where
  here : Course s s
  takes :
      {u : Locking} (env : Env) (i : ℕ) (v : Locking)
      → Course s u
      → IsSane env
      → turn env i u ≡ moves v
      → Course s v
  beside :
      {u : Locking} {t : System} (m : Move u.system t)
      → Course s u
      → IsBeside u.holder m
      → Course s (record { system = t; holder = u.holder })
