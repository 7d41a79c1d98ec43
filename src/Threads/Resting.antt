-- ===== src/Threads/Resting.antt =====
-- src/decode.rs: where all threads rest, a sound state is one that the threads agree on.
use imageglass_ithmb_plugin.Prelude.{ℕ, ◌≡◌, refl, Option, none, some}
use imageglass_ithmb_plugin.Prelude.HashMap.{HashMap}
use imageglass_ithmb_plugin.World.{Block}
use imageglass_ithmb_plugin.Registry.{BufferEntry, BufferRegistry}
use imageglass_ithmb_plugin.Logging.Effect.{IsHosted}
use imageglass_ithmb_plugin.Decode.Memory.{Tracks}
use imageglass_ithmb_plugin.Decode.Contract.{IsSound}
use imageglass_ithmb_plugin.Threads.{
  Thread, resting, allocates, copies, registers, discards, publishes, returns, reads, clears,
  unregisters, releases,
}
use imageglass_ithmb_plugin.Threads.Guards.{owner, Relies, Backed, Guards}
use imageglass_ithmb_plugin.Threads.System.{System, Rests}

-- The agreement of Threads.Guards in a whole system.
pub record IsGuarded (s : System) : Type 0 where
  pub registry : BufferRegistry
  pub initialised : s.world.buffer_registry ≡ some registry
  pub hosted : IsHosted s.world
  pub guards : Guards registry s.world.heap s.threads

pub Rests-owner : (t : Thread) → Rests t → owner t ≡ none
Rests-owner resting h = refl
Rests-owner (returns status) h = refl
Rests-owner (allocates buffer img l) h = absurd h
Rests-owner (copies buffer img l p) h = absurd h
Rests-owner (registers buffer l p) h = absurd h
Rests-owner (discards p) h = absurd h
Rests-owner (publishes buffer l p) h = absurd h
Rests-owner (reads buffer) h = absurd h
Rests-owner (clears buffer p) h = absurd h
Rests-owner (unregisters p) h = absurd h
Rests-owner (releases p) h = absurd h

pub Rests-Relies : (r : BufferRegistry) (h : HashMap Block) (t : Thread) → Rests t → Relies r h t
Rests-Relies r h resting k = tt
Rests-Relies r h (returns status) k = tt
Rests-Relies r h (allocates buffer img l) k = absurd k
Rests-Relies r h (copies buffer img l p) k = absurd k
Rests-Relies r h (registers buffer l p) k = absurd k
Rests-Relies r h (discards p) k = absurd k
Rests-Relies r h (publishes buffer l p) k = absurd k
Rests-Relies r h (reads buffer) k = absurd k
Rests-Relies r h (clears buffer p) k = absurd k
Rests-Relies r h (unregisters p) k = absurd k
Rests-Relies r h (releases p) k = absurd k

Tracks-Backed : (e : Option BufferEntry) (b : Option Block) → Tracks e b → Backed e b
Tracks-Backed none b k = tt
Tracks-Backed (some e) none k = k
Tracks-Backed (some e) (some b) k = k

-- Where all threads rest, a sound state is a guarded one.
pub resting-IsGuarded :
    (s : System) → IsSound s.world → ((i : ℕ) → Rests (s.threads i)) → IsGuarded s
resting-IsGuarded s sound rest = record {
  registry = sound.registry;
  initialised = sound.consistent.initialised;
  hosted = sound.hosted;
  guards = record {
    valid = sound.consistent.valid;
    distinct = sound.consistent.distinct;
    no_null = sound.consistent.no_null;
    backed = λ a. Tracks-Backed _ _ (sound.consistent.same a);
    relies = λ i. Rests-Relies sound.registry s.world.heap (s.threads i) (rest i);
    alone = λ i j a o q. absurd (cc (Rests-owner (s.threads i) (rest i), o));
    no_leak = λ a b live q. absurd (rw (live, q) at (sound.consistent.same a));
  };
}

-- And back: no block is lost, and no entry dangles.
Backed-Tracks :
    (e : Option BufferEntry) (b : Option Block)
    → Backed e b
    → ((x : Block) → b ≡ some x → e ≡ none → ⊥)
    → Tracks e b
Backed-Tracks none none k no_leak = tt
Backed-Tracks none (some b) k no_leak = no_leak b refl refl
Backed-Tracks (some e) none k no_leak = k
Backed-Tracks (some e) (some b) k no_leak = k

pub guarded-IsSound : (s : System) → IsGuarded s → ((i : ℕ) → Rests (s.threads i)) → IsSound s.world
guarded-IsSound s g rest = record {
  registry = g.registry;
  consistent = record {
    initialised = g.initialised;
    valid = g.guards.valid;
    distinct = g.guards.distinct;
    same = λ a. Backed-Tracks _ _ (g.guards.backed a) λ b live q.
        let (i, o) = g.guards.no_leak a b live q in cc (Rests-owner (s.threads i) (rest i), o);
    no_null = g.guards.no_null;
  };
  hosted = g.hosted;
}
