-- ===== src/Loading/Once.antt =====
-- src/lib.rs and src/state.rs: the states that the loading threads reach, and what each one finds.
use mathlib.Core.Path.{subst}
use imageglass_ithmb_plugin.Prelude.{
  ℕ, ◌≤◌, ◌≡◌, refl, ap, sym, ◌∙◌, none, some, arith, ==-true, ==-false,
}
use native.Mathlib.Decide.{ℕ_discrete}
use imageglass_ithmb_plugin.Prelude.Int.{ℤ}
use imageglass_ithmb_plugin.Types.{Ptr, null, ref, IgHostApi, IgPluginApi}
use imageglass_ithmb_plugin.World.{World, done, update}
use imageglass_ithmb_plugin.Strings.{Str}
use imageglass_ithmb_plugin.Plugin.{stored_api}
use imageglass_ithmb_plugin.Plugin.Entry.{entered}
use imageglass_ithmb_plugin.Loading.{
  Loader, enters, returned, admits, step, System, Reach, here, next,
}
use imageglass_ithmb_plugin.Loading.Stages.{stage, host_stored}
use imageglass_ithmb_plugin.Loading.Outside.{
  Follows, IsOutside, Outside, waits, comes_in, step-Outside,
}
use imageglass_ithmb_plugin.Loading.Inside.{
  Within, outside-Within, Within-later, Inside, step-Inside, full_stage,
}

-- What holds of all threads holds after a step of one, if it holds of that one.
update_each :
    (P : ℕ → Loader → Type 0) (ts : ℕ → Loader) (i : ℕ) (t : Loader)
    → ((j : ℕ) → P j (ts j))
    → P i t
    → (j : ℕ) → P j (update ts i t j)
update_each P ts i t each mine j = elim (ℕ_discrete i j) [
  | yes same ↦ rw (==-true i j same) (subst (λ k. P k t) same mine)
  | no other ↦ rw (==-false i j other) (each j)
]

-- The threads enter with the versions `v` and the host tables `h`.
module _ (version : Str) (v : ℕ → ℤ) (h : ℕ → Ptr IgHostApi) (w : World) where
  abbrev pub start : System
  start = record { world = w; threads = λ i. enters (v i) (h i) }

  -- No thread has stored a host table, or the first that did was admitted with `api`.
  data Progress (u : System) : Type 0 where
    untouched : u.world ≡ w → ((i : ℕ) → IsOutside (u.threads i)) → Progress u
    begun :
        (api : IgHostApi) (i n : ℕ)
        → admits (v i) (h i) ≡ some api
        → n ≤ 4
        → u.world ≡ stage version api w n
        → ((j : ℕ) → Within version api w n (u.threads j))
        → Progress u

  record IsLoading (u : System) : Type 0 where
    pub follow : (i : ℕ) → Follows (v i) (h i) (u.threads i)
    pub progress : Progress u

  started : IsLoading start
  started = record { follow = λ i. (refl, refl); progress = untouched refl (λ i. tt) }

  module _ (u : System) (k : IsLoading u) (i : ℕ) (t : Loader) (w' : World)
      (e : step version (u.threads i) u.world ≡ done t w') where
    abbrev after : System
    after = record { world = w'; threads = update u.threads i t }

    followed : Follows (v i) (h i) t → (j : ℕ) → Follows (v j) (h j) (after.threads j)
    followed = update_each (λ j. Follows (v j) (h j)) u.threads i t k.follow

    from_Outside :
        u.world ≡ w
        → ((j : ℕ) → IsOutside (u.threads j))
        → Outside version (v i) (h i) u.world t w'
        → IsLoading after
    from_Outside same out (waits stays o f) = record {
      follow = followed f;
      progress = untouched (stays ∙ same) (update_each (λ j. IsOutside) u.threads i t out o);
    }
    from_Outside same out (comes_in api admitted stored thread) = record {
      follow = followed (subst (Follows (v i) (h i)) (sym thread) (api, admitted));
      progress = begun api i 0 admitted (omega arith) (stored ∙ ap (host_stored api) same) (
          update_each (λ j. Within version api w 0) u.threads i t
            (λ j. outside-Within version api w 0 (u.threads j) (out j))
            (subst (Within version api w 0) (sym thread) (omega arith)));
    }

    from_Inside :
        (api : IgHostApi) (j n : ℕ)
        → admits (v j) (h j) ≡ some api
        → ((q : ℕ) → Within version api w n (u.threads q))
        → Inside version api w (v i) (h i) n t w'
        → IsLoading after
    from_Inside api j n admitted within s = record {
      follow = followed s.follows;
      progress = begun api j s.level admitted s.bounded s.staged (
          update_each (λ q. Within version api w s.level) u.threads i t
            (λ q. Within-later version api w n s.level (u.threads q) s.grows (within q)) s.within);
    }

    step-IsLoading : Progress u → IsLoading after
    step-IsLoading (untouched same out) =
        from_Outside same out
          (step-Outside version (v i) (h i) (u.threads i) t u.world w' (out i) (k.follow i) e)
    step-IsLoading (begun api j n admitted bound staged within) =
        from_Inside api j n admitted within (
          step-Inside version api w (v i) (h i) n (u.threads i) t w' bound (within i) (k.follow i)
            (ap (step version (u.threads i)) (sym staged) ∙ e))

  Reach-IsLoading : (u : System) → Reach version start u → IsLoading u
  Reach-IsLoading _ here = started
  Reach-IsLoading _ (next {u} i t w' r e) =
      let k = Reach-IsLoading u r in step-IsLoading u k i t w' e k.progress

  -- What a thread finds that has returned.
  pub data Loaded (i : ℕ) (answer : Ptr IgPluginApi) (u : System) : Type 0 where
    turned_away : admits (v i) (h i) ≡ none → answer ≡ null → Loaded i answer u
    served :
        (own first : IgHostApi) (j : ℕ)
        → admits (v i) (h i) ≡ some own
        → admits (v j) (h j) ≡ some first
        → u.world ≡ entered version first w
        → answer ≡ stored_api u.world
        → Loaded i answer u

  returned-Loaded :
      (u : System) (i : ℕ) (answer : Ptr IgPluginApi)
      → IsLoading u
      → Progress u
      → u.threads i ≡ returned answer
      → Loaded i answer u
  returned-Loaded u i null k progress e =
      turned_away (subst (Follows (v i) (h i)) e (k.follow i)) refl
  returned-Loaded u i (ref p) k (untouched same out) e = absurd (subst IsOutside e (out i))
  returned-Loaded u i (ref p) k (begun first j n admitted bound staged within) e =
      let (own, mine) = subst (Follows (v i) (h i)) e (k.follow i) in
      let (full, found) = subst (Within version first w n) e (within i) in
      let loaded = staged ∙ full_stage version first w n full in
      served own first j mine admitted loaded (sym (ap stored_api loaded ∙ found))

  -- However the threads interleave, one that has returned has null if the entry point's guards
  -- turn it away. Otherwise the state is the one that a single call of the entry point, by one
  -- of the threads that are let through, would have made, and the answer is the table in it.
  pub Reach-Loaded :
      (u : System) (i : ℕ) (answer : Ptr IgPluginApi)
      → Reach version start u
      → u.threads i ≡ returned answer
      → Loaded i answer u
  Reach-Loaded u i answer r e =
      let k = Reach-IsLoading u r in returned-Loaded u i answer k k.progress e
