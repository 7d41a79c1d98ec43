-- ===== src/Threads/Holding.antt =====
-- src/decode.rs: who holds which block while threads are inside calls.
use imageglass_ithmb_plugin.Prelude.{ℕ, ◌≡◌, ◌≢◌, inl, inr, none, some, length, Option-cases, arith}
use imageglass_ithmb_plugin.Prelude.HashMap.{get}
use imageglass_ithmb_plugin.World.{Block}
use imageglass_ithmb_plugin.Registry.{BufferEntry, BufferRegistry}
use imageglass_ithmb_plugin.Registry.Laws.{tracked}
use imageglass_ithmb_plugin.Decode.Contract.{IsSound}
use imageglass_ithmb_plugin.Threads.Guards.{owner}
use imageglass_ithmb_plugin.Threads.Local.{none_holds_dead, none_holds_tracked}
use imageglass_ithmb_plugin.Threads.System.{System, Rests, Reach}
use imageglass_ithmb_plugin.Threads.Resting.{IsGuarded}
use imageglass_ithmb_plugin.Threads.Safety.{reached}

-- The thread is not the one that frees or registers the block at `a`.
abbrev pub IsFree : System → ℕ → Type 0
IsFree s a = (i : ℕ) → owner (s.threads i) ≢ some a

-- The three ways in which an address can stand.
pub data Held (s : System) (r : BufferRegistry) (a : ℕ) : Type 0 where
  dead : get a s.world.heap ≡ none → tracked r a ≡ none → IsFree s a → Held s r a
  registered :
      (e : BufferEntry) (b : Block)
      → get a s.world.heap ≡ some b
      → tracked r a ≡ some e
      → e.size ≡ length b
      → IsFree s a
      → Held s r a
  owned :
      (i : ℕ) (b : Block)
      → get a s.world.heap ≡ some b
      → tracked r a ≡ none
      → owner (s.threads i) ≡ some a
      → ((j : ℕ) → owner (s.threads j) ≡ some a → j ≡ i)
      → Held s r a

module _ (s : System) (g : IsGuarded s) (a : ℕ) where
  registered-Held : (e : BufferEntry) → tracked g.registry a ≡ some e → Held s g.registry a
  registered-Held e q = elim (Option-cases (get a s.world.heap)) [
    | inl gone ↦ absurd (ground (arith, g.guards.backed a))
    | inr (b, live) ↦
        registered e b live q (ground (arith, g.guards.backed a))
          λ i. none_holds_tracked g.registry s.world.heap s.threads g.guards a i e q
  ]

  untracked-Held : tracked g.registry a ≡ none → Held s g.registry a
  untracked-Held q = elim (Option-cases (get a s.world.heap)) [
    | inl gone ↦
        dead gone q λ i. none_holds_dead g.registry s.world.heap s.threads g.guards a i gone
    | inr (b, live) ↦
        let (i, o) = g.guards.no_leak a b live q in
        owned i b live q o λ j p. g.guards.alone j i a p o
  ]

  guarded-Held : Held s g.registry a
  guarded-Held = elim (Option-cases (tracked g.registry a)) [
    | inl q ↦ untracked-Held q
    | inr (e, q) ↦ registered-Held e q
  ]

-- From a sound state in which all threads rest, however the threads interleave, each address is
-- in one of three states: dead, not in the registry and in no thread's hands; live, in the
-- registry with the block's size and in no thread's hands; or live, not in the registry and in
-- the hands of exactly one thread.
pub Reach-Held :
    (s u : System)
    → IsSound s.world
    → ((i : ℕ) → Rests (s.threads i))
    → Reach s u
    → (a : ℕ) → (r : BufferRegistry) × (u.world.buffer_registry ≡ some r) × Held u r a
Reach-Held s u sound rest r a =
    let g = reached s u sound rest r in (g.registry, g.initialised, guarded-Held u g a)
