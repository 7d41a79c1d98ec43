-- ===== src/Scheduler.antt =====
-- Threads of any kind that share the state: each one's steps are atomic, and a schedule says whose turn
-- it is.
use imageglass_ithmb_plugin.Prelude.{
  ℕ, ◌+◌, ◌-◌, ◌≤◌, ◌≡◌, refl, List, [], ◌∷◌, Option, none, some, ◌==◌, if◌then◌else◌, arith,
}
use imageglass_ithmb_plugin.World.{World, Run, done, update}

-- The shared state, and where each thread stands.
pub record Threaded (T : Type 0) : Type 0 where
  pub world : World
  pub threads : ℕ → T

abbrev pub turns : ℕ → List ℕ → ℕ
turns i [] = 0
turns i (j ∷ schedule) = (if j == i then 1 else 0) + turns i schedule

module _ {T : Type 0} (step : ℕ → T → Run T) where
  -- Thread `i` takes a step; none where it has no defined outcome.
  unfoldable pub turn : ℕ → Threaded T → Option (Threaded T)
  turn i s = elim (step i (s.threads i) s.world) [
    | done t w ↦ some (record { world = w; threads = update s.threads i t })
    | _ ↦ none
  ]

  -- The threads take steps in the order of the list.
  unfoldable pub run : List ℕ → Threaded T → Option (Threaded T)
  unfolding turn
  run [] s = some s
  run (i ∷ schedule) s = elim (turn i s) [ none ↦ none | some t ↦ run schedule t ]

  turn-done :
      (i : ℕ) (s : Threaded T) (t : T) (w : World)
      → step i (s.threads i) s.world ≡ done t w
      → turn i s ≡ some (record { world = w; threads = update s.threads i t })
  unfolding turn
  turn-done i s t w e = rw (turn, e) refl

  run-turn :
      (i : ℕ) (schedule : List ℕ) (s t u : Threaded T)
      → turn i s ≡ some t
      → run schedule t ≡ some u
      → run (i ∷ schedule) s ≡ some u
  unfolding run
  run-turn i schedule s t u e f = rw (run, e) f

  -- `rank` counts the steps that a thread has left, and `Reach` holds of the states that arise.
  module _ (rank : T → ℕ) (Reach : Threaded T → Type 0) where
    rank_left :
        (i j n m : ℕ) (t : T) (ts : ℕ → T)
        → rank t ≤ rank (ts i) - 1
        → n ≤ rank (update ts i t j) - m
        → n ≤ rank (ts j) - ((if i == j then 1 else 0) + m)
    rank_left i j n m t ts falls h = ground arith

    -- A thread can take its next step, and has fewer left then.
    pub record Progresses (u : Threaded T) (i : ℕ) : Type 0 where
      pub thread : T
      pub world : World
      pub taken : step i (u.threads i) u.world ≡ done thread world
      pub falls : rank thread ≤ rank (u.threads i) - 1
      pub reaches : Reach (record { world = world; threads = update u.threads i thread })

    -- How a run from `u` ends.
    pub record Ends (schedule : List ℕ) (u : Threaded T) : Type 0 where
      pub final : Threaded T
      pub runs : run schedule u ≡ some final
      pub reached : Reach final
      pub ranks : (j : ℕ) → rank (final.threads j) ≤ rank (u.threads j) - turns j schedule

    pub run-Ends :
        ((u : Threaded T) (i : ℕ) → Reach u → Progresses u i)
        → (schedule : List ℕ) (u : Threaded T) → Reach u
        → Ends schedule u
    unfolding run
    run-Ends progress [] u r = record {
      final = u;
      runs = refl;
      reached = r;
      ranks = λ j. omega arith;
    }
    run-Ends progress (i ∷ schedule) u r =
        let p = progress u i r in
        let after : Threaded T = record {
          world = p.world;
          threads = update u.threads i p.thread;
        } in
        let later = run-Ends progress schedule after p.reaches in
        record {
          final = later.final;
          runs =
              run-turn i schedule u after later.final (turn-done i u p.thread p.world p.taken)
                later.runs;
          reached = later.reached;
          ranks = λ j.
              rank_left i j (rank (later.final.threads j)) (turns j schedule) p.thread u.threads
                p.falls (later.ranks j);
        }
