-- ===== src/Threads/Safety.antt =====
-- src/decode.rs: what holds however the steps of several threads interleave.
use mathlib.Core.Path.{subst}
use imageglass_ithmb_plugin.Prelude.{ℕ, ◌≡◌, refl, ap, none, some, true}
use imageglass_ithmb_plugin.Prelude.HashMap.{HashMap}
use imageglass_ithmb_plugin.World.{World, Block, done, update}
use imageglass_ithmb_plugin.Registry.{BufferRegistry}
use imageglass_ithmb_plugin.Env.{Env}
use imageglass_ithmb_plugin.Decode.Layout.{frame_layout_bound}
use imageglass_ithmb_plugin.Decode.Contract.{IsSound, IsSane}
use imageglass_ithmb_plugin.Threads.{Thread, allocates, reads, step}
use imageglass_ithmb_plugin.Threads.Guards.{owner, Relies, Relies-away, ChangesAt-Guards}
use imageglass_ithmb_plugin.Threads.Moves.{progress}
use imageglass_ithmb_plugin.Threads.Local.{local}
use imageglass_ithmb_plugin.Threads.System.{
  System, Rests, Move, advances, begins_decode, begins_free, writes, poisons, Reach, here, next,
}
use imageglass_ithmb_plugin.Threads.Resting.{
  IsGuarded, Rests-owner, resting-IsGuarded, guarded-IsSound,
}

-- A thread that rests begins a call.
begin-IsGuarded :
    (s : System) (i : ℕ) (t : Thread)
    → Rests (s.threads i)
    → owner t ≡ none
    → ((r : BufferRegistry) (h : HashMap Block) → Relies r h t)
    → IsGuarded s
    → IsGuarded (record { world = s.world; threads = update s.threads i t })
begin-IsGuarded s i t rest o k g =
    let r = g.registry in
    let h = s.world.heap in
    record {
      registry = r;
      initialised = g.initialised;
      hosted = g.hosted;
      guards = ChangesAt-Guards r r h h s.threads i t 0 g.guards (
          local r h s.threads g.guards i (s.threads i) t refl (Rests-owner (s.threads i) rest) o
            (k r h));
    }

-- The step of a thread that the relation names is the one that `progress` computes.
advance-IsGuarded :
    (s : System) (env : Env) (i : ℕ) (t : Thread) (w : World)
    → IsSane env
    → step env (s.threads i) s.world ≡ done t w
    → IsGuarded s
    → IsGuarded (record { world = w; threads = update s.threads i t })
advance-IsGuarded s env i t w sane e g =
    let p =
      progress env g.registry s.world s.threads i sane.allocator g.initialised g.guards
        (s.threads i) refl in
    let same_thread : p.next ≡ t = cc (p.runs, e) in
    let same_world : p.after ≡ w = cc (p.runs, e) in
    subst (λ (v : World). IsGuarded (record { world = v; threads = update s.threads i t }))
      same_world
      (subst
        (λ (u : Thread). IsGuarded (record { world = p.after; threads = update s.threads i u }))
        same_thread
        (record {
          registry = p.registry;
          initialised = p.initialised;
          hosted = rw p.same_host g.hosted;
          guards =
              ChangesAt-Guards g.registry p.registry s.world.heap p.after.heap s.threads i p.next
                p.address g.guards p.changes;
        }))

Move-IsGuarded : (s u : System) → Move s u → IsGuarded s → IsGuarded u
Move-IsGuarded s _ (advances env i t w sane e) g = advance-IsGuarded s env i t w sane e g
Move-IsGuarded s _ (begins_decode env i buffer bytes img l sane rest d e) g =
    begin-IsGuarded s i (allocates buffer img l) rest refl
      (λ r h. frame_layout_bound img l (sane.frames bytes img d) e) g
Move-IsGuarded s _ (begins_free i buffer rest) g =
    begin-IsGuarded s i (reads buffer) rest refl (λ r h. tt) g
Move-IsGuarded s _ (writes slot b) g = record {
  registry = g.registry;
  initialised = g.initialised;
  hosted = g.hosted;
  guards = g.guards;
}
Move-IsGuarded s _ (poisons r e) g = record {
  registry = record (g.registry) { poisoned = true };
  initialised =
      let same : r ≡ g.registry = cc (e, g.initialised) in
      ap (λ (q : BufferRegistry). some (record q { poisoned = true })) same;
  hosted = g.hosted;
  guards = record {
    valid = record { distinct = g.guards.valid.distinct; written = g.guards.valid.written };
    distinct = g.guards.distinct;
    no_null = g.guards.no_null;
    backed = g.guards.backed;
    relies = λ i.
        Relies-away g.registry (record (g.registry) { poisoned = true }) s.world.heap s.world.heap
          (s.threads i) (λ a o. (refl, refl)) (g.guards.relies i);
    alone = g.guards.alone;
    no_leak = g.guards.no_leak;
  };
}

Reach-IsGuarded : (s u : System) → IsGuarded s → Reach s u → IsGuarded u
Reach-IsGuarded s _ g here = g
Reach-IsGuarded s _ g (next {t} {u} r m) = Move-IsGuarded t u m (Reach-IsGuarded s t g r)

module _ (s u : System) (sound : IsSound s.world) (rest : (i : ℕ) → Rests (s.threads i))
    (r : Reach s u) where
  pub reached : IsGuarded u
  reached = Reach-IsGuarded s u (resting-IsGuarded s sound rest) r

  -- From a sound state in which all threads rest, however the threads interleave, every thread
  -- can take its next step in a sane environment: it neither panics nor has undefined behaviour.
  pub step-progress :
      (env : Env) (i : ℕ)
      → IsSane env
      → (t : Thread) × (w : World) × (step env (u.threads i) u.world ≡ done t w)
  step-progress env i sane =
      let p =
        progress env reached.registry u.world u.threads i sane.allocator reached.initialised
          reached.guards (u.threads i) refl in
      (p.next, p.after, p.runs)

  -- From a sound state in which all threads rest, however the threads interleave, two threads
  -- never hold one block outside the registry.
  pub owner_unique :
      (i j a : ℕ) → owner (u.threads i) ≡ some a → owner (u.threads j) ≡ some a → i ≡ j
  owner_unique = reached.guards.alone

  -- From a sound state in which all threads rest, however the threads interleave, the state is
  -- sound when all threads rest again: the registry tracks exactly the live blocks.
  pub quiet-IsSound : ((i : ℕ) → Rests (u.threads i)) → IsSound u.world
  quiet-IsSound again = guarded-IsSound u reached again
