-- ===== src/Threads/Local.antt =====
-- src/decode.rs: what a thread knows of the addresses in its hands and in no hands.
use mathlib.Core.Path.{subst}
use imageglass_ithmb_plugin.Prelude.{
  ℕ, ◌≡◌, ◌≢◌, inl, inr, refl, ap, Option, none, some, Option-cases,
}
use imageglass_ithmb_plugin.Prelude.HashMap.{HashMap, get}
use imageglass_ithmb_plugin.World.{World, Block, done}
use imageglass_ithmb_plugin.Registry.{BufferEntry, BufferRegistry}
use imageglass_ithmb_plugin.Registry.Laws.{tracked}
use imageglass_ithmb_plugin.Env.{Env}
use imageglass_ithmb_plugin.Threads.{
  Thread, resting, allocates, copies, registers, discards, publishes, returns, reads, clears,
  unregisters, releases, step,
}
use imageglass_ithmb_plugin.Threads.Guards.{owner, IsLoose, Relies, Backed, Guards, ChangesAt}

-- What a thread holds is loose.
pub owner-IsLoose :
    (r : BufferRegistry) (h : HashMap Block) (t : Thread) (a : ℕ)
    → Relies r h t
    → owner t ≡ some a
    → IsLoose r h a
owner-IsLoose r h (copies buffer img l p) a k o = subst (IsLoose r h) (cc o) k.0
owner-IsLoose r h (registers buffer l p) a k o = subst (IsLoose r h) (cc o) k.0
owner-IsLoose r h (discards p) a k o = subst (IsLoose r h) (cc o) k
owner-IsLoose r h (releases p) a k o = subst (IsLoose r h) (cc o) k
owner-IsLoose r h resting a k o = cc o
owner-IsLoose r h (allocates buffer img l) a k o = cc o
owner-IsLoose r h (publishes buffer l p) a k o = cc o
owner-IsLoose r h (returns status) a k o = cc o
owner-IsLoose r h (reads buffer) a k o = cc o
owner-IsLoose r h (clears buffer p) a k o = cc o
owner-IsLoose r h (unregisters p) a k o = cc o

module _ (r : BufferRegistry) (h : HashMap Block) (ts : ℕ → Thread) (g : Guards r h ts) where
  -- No thread holds an address that is not live, or that is tracked.
  pub none_holds_dead : (p j : ℕ) → get p h ≡ none → owner (ts j) ≢ some p
  none_holds_dead p j dead o =
      let l = owner-IsLoose r h (ts j) p (g.relies j) o in cc (l.live, dead)

  pub none_holds_tracked :
      (p j : ℕ) (e : BufferEntry) → tracked r p ≡ some e → owner (ts j) ≢ some p
  none_holds_tracked p j e q o =
      let l = owner-IsLoose r h (ts j) p (g.relies j) o in cc (l.untracked, q)

  -- A step that changes neither the registry nor the blocks.
  pub local :
      (i : ℕ) (t t' : Thread)
      → ts i ≡ t
      → owner t ≡ none
      → owner t' ≡ none
      → Relies r h t'
      → ChangesAt r r h h ts i t' 0
  local i t t' at o o' k = record {
    valid = g.valid;
    distinct = g.distinct;
    no_null = g.no_null;
    entries = λ a ne. refl;
    blocks = λ a ne. refl;
    mine = λ j e. absurd (none_holds_dead 0 j g.no_null e);
    held = λ a e. absurd (cc (ap owner at, o, e));
    holds = λ a e. absurd (cc (o', e));
    backed = g.backed 0;
    relies = k;
    no_leak = λ b live q. absurd (cc (live, g.no_null));
  }

  pub no_entry : (p : ℕ) → get p h ≡ none → tracked r p ≡ none
  no_entry p dead = elim (Option-cases (tracked r p)) [
    | inl q ↦ q
    | inr (e, q) ↦ absurd (rw (q, dead) at (g.backed p))
  ]

  pub untracked-Backed : (p : ℕ) (o : Option Block) → tracked r p ≡ none → Backed (tracked r p) o
  untracked-Backed p o q = rw q tt

  pub entry_live :
      (p : ℕ) (e : BufferEntry) → tracked r p ≡ some e → (b : Block) × (get p h ≡ some b)
  entry_live p e q = elim (Option-cases (get p h)) [
    | inl dead ↦ absurd (rw (q, dead) at (g.backed p))
    | inr (b, live) ↦ (b, live)
  ]

-- A step of thread `i`, which stands at `t`, and what it changes.
pub record Progress (env : Env) (r : BufferRegistry) (w : World) (ts : ℕ → Thread) (i : ℕ)
    (t : Thread) : Type 0 where
  pub next : Thread
  pub after : World
  pub registry : BufferRegistry
  pub address : ℕ
  pub runs : step env t w ≡ done next after
  pub initialised : after.buffer_registry ≡ some registry
  pub same_host : after.host_api ≡ w.host_api
  pub changes : ChangesAt r registry w.heap after.heap ts i next address
