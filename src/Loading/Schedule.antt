-- ===== src/Loading/Schedule.antt =====
-- src/lib.rs and src/state.rs: the loading threads under a scheduler. A `OnceLock` that another thread
-- is setting keeps a thread waiting only within one `get_or_init`, which is one step here.
use imageglass_ithmb_plugin.Prelude.{ℕ, ◌-◌, ◌≤◌, ◌≡◌, refl, List, Option, none, some, arith}
use imageglass_ithmb_plugin.Prelude.Int.{ℤ}
use imageglass_ithmb_plugin.Types.{Ptr, IgHostApi, IgPluginApi}
use imageglass_ithmb_plugin.World.{World, done}
use imageglass_ithmb_plugin.Strings.{Str}
use imageglass_ithmb_plugin.Scheduler.{turns, run, Progresses, run-Ends}
use imageglass_ithmb_plugin.Loading.{
  extensions, plugin_state, capability, registry, Loader, enters, stores, initializes, answers,
  returned, admits, judged, step, System, Reach, here, next,
}
use imageglass_ithmb_plugin.Loading.Once.{start, Loaded, Reach-Loaded}

-- The steps that a thread has left.
abbrev pub rank : Loader → ℕ
rank (enters v h) = 7
rank (stores api) = 6
rank (initializes extensions) = 5
rank (initializes plugin_state) = 4
rank (initializes capability) = 3
rank (initializes registry) = 2
rank answers = 1
rank (returned answer) = 0

rank_zero : (t : Loader) → rank t ≤ 0 → (answer : Ptr IgPluginApi) × (t ≡ returned answer)
rank_zero (enters v h) le = absurd (omega (arith, le))
rank_zero (stores api) le = absurd (omega (arith, le))
rank_zero (initializes extensions) le = absurd (omega (arith, le))
rank_zero (initializes plugin_state) le = absurd (omega (arith, le))
rank_zero (initializes capability) le = absurd (omega (arith, le))
rank_zero (initializes registry) le = absurd (omega (arith, le))
rank_zero answers le = absurd (omega (arith, le))
rank_zero (returned answer) le = (answer, refl)

rank-judged : (o : Option IgHostApi) → rank (judged o) ≤ 6
rank-judged none = omega arith
rank-judged (some api) = omega arith

module _ (version : Str) where
  -- A thread's next step, which it can take in every state.
  record Steps (t : Loader) (w : World) : Type 0 where
    pub thread : Loader
    pub world : World
    pub taken : step version t w ≡ done thread world
    pub falls : rank thread ≤ rank t - 1

  can_step : (t : Loader) (w : World) → Steps t w
  unfolding step
  can_step (enters v h) w = record {
    thread = _;
    world = _;
    taken = refl;
    falls = rank-judged (admits v h);
  }
  can_step (stores api) w = record { thread = _; world = _; taken = refl; falls = omega arith }
  can_step (initializes extensions) w = record {
    thread = _;
    world = _;
    taken = refl;
    falls = omega arith;
  }
  can_step (initializes plugin_state) w = record {
    thread = _;
    world = _;
    taken = refl;
    falls = omega arith;
  }
  can_step (initializes capability) w = record {
    thread = _;
    world = _;
    taken = refl;
    falls = omega arith;
  }
  can_step (initializes registry) w = record {
    thread = _;
    world = _;
    taken = refl;
    falls = omega arith;
  }
  can_step answers w = record { thread = _; world = _; taken = refl; falls = omega arith }
  can_step (returned answer) w = record { thread = _; world = _; taken = refl; falls = omega arith }

  progress :
      (s u : System) (i : ℕ)
      → Reach version s u
      → Progresses (λ _. step version) rank (Reach version s) u i
  progress s u i r =
      let k = can_step (u.threads i) u.world in
      record {
        thread = k.thread;
        world = k.world;
        taken = k.taken;
        falls = k.falls;
        reaches = next i k.thread k.world r k.taken;
      }

-- Threads enter with any versions and host tables, in any state. Every schedule of their steps
-- runs to its end, and each thread that it gives seven turns or more has returned by then, with
-- null if the guards turn it away, and else with the table in the state that a single call of
-- the entry point, by one of the threads that are let through, would have made.
pub run-Loaded :
    (version : Str) (v : ℕ → ℤ) (h : ℕ → Ptr IgHostApi) (w : World) (schedule : List ℕ)
    → (u : System) × (run (λ _. step version) schedule (start version v h w) ≡ some u)
      × ((i : ℕ)
          → 7 ≤ turns i schedule
          → (answer : Ptr IgPluginApi) × (u.threads i ≡ returned answer)
            × Loaded version v h w i answer u)
run-Loaded version v h w schedule =
    let s = start version v h w in
    let ends =
      run-Ends (λ _. step version) rank (Reach version s) (progress version s) schedule s here in
    (
      ends.final,
      ends.runs,
      λ i many.
          let (answer, e) = rank_zero (ends.final.threads i) (omega (arith, ends.ranks i, many)) in
          (answer, e, Reach-Loaded version v h w ends.final i answer ends.reached e),
    )
