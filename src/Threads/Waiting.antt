-- ===== src/Threads/Waiting.antt =====
-- src/buffer_registry.rs: threads that come to the registry's lock, and how long they wait.
use mathlib.Core.Path.{subst}
use native.Mathlib.Decide.{ℕ_discrete}
use imageglass_ithmb_plugin.Prelude.{
  ℕ, suc, ◌≤◌, ◌≡◌, ◌≢◌, inl, inr, refl, sym, ap, ◌∙◌, Option, none, some, true, arith, Bool-cases,
  ==-true, ==-false,
}
use imageglass_ithmb_plugin.World.{World, done, update}
use imageglass_ithmb_plugin.Env.{Env}
use imageglass_ithmb_plugin.Decode.Contract.{IsSound, IsSane}
use imageglass_ithmb_plugin.Threads.{Thread, step}
use imageglass_ithmb_plugin.Threads.System.{System, Rests, advances, Reach, here, next}
use imageglass_ithmb_plugin.Threads.Safety.{step-progress}
use imageglass_ithmb_plugin.Threads.Locking.{
  Phase, entered, leaving, Locking, needs_lock, Turn, moves, waits, faults, advance, turn_at, turn,
  turns_of, Course, takes, beside,
}
use imageglass_ithmb_plugin.Threads.Locking

abbrev pub stepped : System → ℕ → Thread → World → System
stepped s i t w = record { world = w; threads = update s.threads i t }

-- How a turn of thread `i` ends where its next step is `done t w`.
data Ends (s : System) (i : ℕ) (t : Thread) (w : World) (held : Option (ℕ × Phase)) (o : Turn)
    : Type 0 where
  stays :
      (h : Option (ℕ × Phase)) → o ≡ moves (record { system = s; holder = h }) → Ends s i t w held o
  goes_on :
      (h : Option (ℕ × Phase))
      → o ≡ moves (record { system = stepped s i t w; holder = h })
      → Ends s i t w held o
  blocked :
      (j : ℕ) (p : Phase)
      → held ≡ some (j, p)
      → j ≢ i
      → needs_lock (s.threads i) ≡ true
      → o ≡ waits j
      → Ends s i t w held o

module _ (env : Env) (i : ℕ) (s : System) (t : Thread) (w : World)
    (e : step env (s.threads i) s.world ≡ done t w) where
  advance-done :
      (h : Option (ℕ × Phase))
      → advance env i h s ≡ moves (record { system = stepped s i t w; holder = h })
  unfolding advance
  advance-done h = rw (advance, e) refl

  turn_at-Ends : (h : Option (ℕ × Phase)) → Ends s i t w h (turn_at env i s h)
  unfolding turn_at
  turn_at-Ends none = elim (Bool-cases (needs_lock (s.threads i))) [
    | inl q ↦ stays (some (i, entered)) (rw (turn_at, q) refl)
    | inr q ↦ goes_on none (rw (turn_at, q) (advance-done none))
  ]
  turn_at-Ends (some (j, entered)) = elim (ℕ_discrete j i) [
    | yes same ↦
        goes_on (some (i, leaving))
          (rw (turn_at, ==-true j i same) (advance-done (some (i, leaving))))
    | no other ↦ elim (Bool-cases (needs_lock (s.threads i))) [
      | inl q ↦ blocked j entered refl other q (rw (turn_at, ==-false j i other, q) refl)
      | inr q ↦
          goes_on (some (j, entered))
            (rw (turn_at, ==-false j i other, q) (advance-done (some (j, entered))))
    ]
  ]
  turn_at-Ends (some (j, leaving)) = elim (ℕ_discrete j i) [
    | yes same ↦ stays none (rw (turn_at, ==-true j i same) refl)
    | no other ↦ elim (Bool-cases (needs_lock (s.threads i))) [
      | inl q ↦ blocked j leaving refl other q (rw (turn_at, ==-false j i other, q) refl)
      | inr q ↦
          goes_on (some (j, leaving))
            (rw (turn_at, ==-false j i other, q) (advance-done (some (j, leaving))))
    ]
  ]

  -- The holder's turn before and behind the body of the call.
  own_entered :
      turn env i (record { system = s; holder = some (i, entered) })
      ≡ moves (record { system = stepped s i t w; holder = some (i, leaving) })
  unfolding turn turn_at
  own_entered = rw (turn, turn_at, ==-true i i refl) (advance-done (some (i, leaving)))

own_leaving :
    (env : Env) (i : ℕ) (s : System)
    → turn env i (record { system = s; holder = some (i, leaving) })
      ≡ moves (record { system = s; holder = none })
unfolding turn turn_at
own_leaving env i s = rw (turn, turn_at, ==-true i i refl) refl

turns_of-turn :
    (env : Env) (i n : ℕ) (u v : Locking)
    → turn env i u ≡ moves v
    → turns_of (suc n) env i u ≡ turns_of n env i v
unfolding turns_of
turns_of-turn env i n u v e = rw (turns_of, e) refl

abbrev system_of : Turn → System → System
system_of (moves u) s = u.system
system_of (waits j) s = s
system_of faults s = s

-- The lock is free.
abbrev pub unlocked : System → Locking
unlocked s = record { system = s; holder = none }

-- What a thread that comes to its turn can count on.
pub data Proceeds (envs : ℕ → Env) (i : ℕ) (u : Locking) : Type 0 where
  moves_on : (v : Locking) → turn (envs i) i u ≡ moves v → Proceeds envs i u
  waits_for :
      (j n : ℕ) (x y : Locking)
      → j ≢ i
      → turn (envs i) i u ≡ waits j
      → n ≤ 2
      → turns_of n (envs j) j u ≡ moves x
      → x.holder ≡ none
      → turn (envs i) i x ≡ moves y
      → y.holder ≡ some (i, entered)
      → Proceeds envs i u

module _ (s : System) (sound : IsSound s.world) (rest : (i : ℕ) → Rests (s.threads i)) where
  turn-Reach :
      (env : Env) (i : ℕ) (u v : Locking)
      → IsSane env
      → turn env i u ≡ moves v
      → Reach s u.system
      → Reach s v.system
  unfolding turn
  turn-Reach env i u v sane m r =
      let (t, w, e) = step-progress s u.system sound rest r env i sane in
      elim (turn_at-Ends env i u.system t w e u.holder) [
        | stays h q ↦ subst (Reach s) (ap (λ o. system_of o s) (sym q ∙ m)) r
        | goes_on h q ↦
            subst (Reach s) (ap (λ o. system_of o s) (sym q ∙ m))
              (next r (advances env i t w sane e))
        | blocked j p held other need q ↦ absurd (ground (arith, q, m))
      ]

  pub Course-Reach : (u : Locking) → Course (unlocked s) u → Reach s u.system
  Course-Reach _ Locking.here = here
  Course-Reach _ (takes {u} env i v c sane m) = turn-Reach env i u v sane m (Course-Reach u c)
  Course-Reach _ (beside {u} m c b) = next (Course-Reach u c) m

  module _ (envs : ℕ → Env) (i : ℕ) where
    -- The lock is free, and the thread needs it.
    waiter_takes :
        (v : System)
        → needs_lock (v.threads i) ≡ true
        → turn (envs i) i (record { system = v; holder = none })
          ≡ moves (record { system = v; holder = some (i, entered) })
    unfolding turn turn_at
    waiter_takes v q = rw (turn, turn_at, q) refl

    leaving-Proceeds :
        (v : System) (j : ℕ)
        → j ≢ i
        → needs_lock (v.threads i) ≡ true
        → Proceeds envs i (record { system = v; holder = some (j, leaving) })
    unfolding turn turn_at turns_of
    leaving-Proceeds v j other q =
        waits_for j 1 (record { system = v; holder = none })
          (record { system = v; holder = some (i, entered) }) other
          (rw (turn, turn_at, ==-false j i other, q) refl) (omega arith)
          (turns_of-turn (envs j) j 0 (record { system = v; holder = some (j, leaving) })
            (record { system = v; holder = none }) (own_leaving (envs j) j v))
          refl (waiter_takes v q) refl

    entered-Proceeds :
        (v : System) (j : ℕ) (t : Thread) (w : World)
        → j ≢ i
        → needs_lock (v.threads i) ≡ true
        → step (envs j) (v.threads j) v.world ≡ done t w
        → Proceeds envs i (record { system = v; holder = some (j, entered) })
    unfolding turn turn_at turns_of
    entered-Proceeds v j t w other q e =
        let after = stepped v j t w in
        waits_for j 2 (record { system = after; holder = none })
          (record { system = after; holder = some (i, entered) }) other
          (rw (turn, turn_at, ==-false j i other, q) refl) (omega arith)
          (turns_of-turn (envs j) j 1 (record { system = v; holder = some (j, entered) })
              (record { system = after; holder = some (j, leaving) })
              (own_entered (envs j) j v t w e)
            ∙ turns_of-turn (envs j) j 0 (record { system = after; holder = some (j, leaving) })
                (record { system = after; holder = none }) (own_leaving (envs j) j after))
          refl (waiter_takes after (rw (==-false j i other) q)) refl

    -- The holder of the lock is another thread.
    contended-Proceeds :
        (v : System) (j : ℕ) (p : Phase)
        → j ≢ i
        → needs_lock (v.threads i) ≡ true
        → IsSane (envs j)
        → Reach s v
        → Proceeds envs i (record { system = v; holder = some (j, p) })
    contended-Proceeds v j leaving other q sane r = leaving-Proceeds v j other q
    contended-Proceeds v j entered other q sane r =
        let (t, w, e) = step-progress s v sound rest r (envs j) j sane in
        entered-Proceeds v j t w other q e

  -- From a sound state of rest with the lock free, in every state that the threads reach, in
  -- sane environments: a thread's turn moves it, or it waits for another thread. At most two
  -- turns of that thread give the lock back, and then the waiter's turn takes it.
  pub Course-Proceeds :
      (u : Locking) (envs : ℕ → Env) (i : ℕ)
      → Course (unlocked s) u
      → ((j : ℕ) → IsSane (envs j))
      → Proceeds envs i u
  unfolding turn
  Course-Proceeds u envs i c sane =
      let r = Course-Reach u c in
      let (t, w, e) = step-progress s u.system sound rest r (envs i) i (sane i) in
      elim (turn_at-Ends (envs i) i u.system t w e u.holder) [
        | stays h q ↦ moves_on (record { system = u.system; holder = h }) q
        | goes_on h q ↦ moves_on (record { system = stepped u.system i t w; holder = h }) q
        | blocked j p held other need q ↦
            subst (λ h. Proceeds envs i (record { system = u.system; holder = h })) (sym held)
              (contended-Proceeds envs i u.system j p other need (sane j) r)
      ]
