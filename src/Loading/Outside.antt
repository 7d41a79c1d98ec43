-- ===== src/Loading/Outside.antt =====
-- src/lib.rs: the step of a thread that loads the plugin and has not stored a host table.
use mathlib.Core.Path.{subst}
use imageglass_ithmb_plugin.Prelude.{◌≡◌, refl, Option, none, some}
use imageglass_ithmb_plugin.Prelude.Int.{ℤ}
use imageglass_ithmb_plugin.Types.{Ptr, null, ref, IgHostApi}
use imageglass_ithmb_plugin.World.{World, done}
use imageglass_ithmb_plugin.Strings.{Str}
use imageglass_ithmb_plugin.Loading.{
  extensions, Loader, enters, stores, initializes, answers, returned, admits, judged, step,
}
use imageglass_ithmb_plugin.Loading.Stages.{host_stored}

-- What a thread that has begun with the version `v` and the host table `h` knows.
abbrev pub Follows : ℤ → Ptr IgHostApi → Loader → Type 0
Follows v h (enters v' h') = (v' ≡ v) × (h' ≡ h)
Follows v h (stores api) = admits v h ≡ some api
Follows v h (initializes x) = (api : IgHostApi) × (admits v h ≡ some api)
Follows v h answers = (api : IgHostApi) × (admits v h ≡ some api)
Follows v h (returned null) = admits v h ≡ none
Follows v h (returned (ref p)) = (api : IgHostApi) × (admits v h ≡ some api)

-- A thread that has not stored a host table yet, or has been turned away.
abbrev pub IsOutside : Loader → Type 0
IsOutside (enters v h) = Unit {0}
IsOutside (stores api) = Unit {0}
IsOutside (initializes x) = ⊥
IsOutside answers = ⊥
IsOutside (returned null) = Unit {0}
IsOutside (returned (ref p)) = ⊥

module _ (version : Str) where
  -- The step of a thread outside.
  pub data Outside (v : ℤ) (h : Ptr IgHostApi) (w : World) (t' : Loader) (w' : World) : Type 0 where
    waits : w' ≡ w → IsOutside t' → Follows v h t' → Outside v h w t' w'
    comes_in :
        (api : IgHostApi)
        → admits v h ≡ some api
        → w' ≡ host_stored api w
        → t' ≡ initializes extensions
        → Outside v h w t' w'

  judged-Outside :
      (v : ℤ) (h : Ptr IgHostApi) (w : World) (o : Option IgHostApi)
      → admits v h ≡ o
      → Outside v h w (judged o) w
  judged-Outside v h w none e = waits refl tt e
  judged-Outside v h w (some api) e = waits refl tt e

  pub step-Outside :
      (v : ℤ) (h : Ptr IgHostApi) (t t' : Loader) (w w' : World)
      → IsOutside t
      → Follows v h t
      → step version t w ≡ done t' w'
      → Outside v h w t' w'
  unfolding step
  step-Outside v h (enters v' h') t' w w' o (ev, eh) e =
      let same_world : w ≡ w' = cc e in
      let same_thread : judged (admits v' h') ≡ t' = cc e in
      subst (λ (x : World). Outside v h w t' x) same_world
        (subst (λ (x : Loader). Outside v h w x w) same_thread
          (judged-Outside v h w (admits v' h') (cc (ev, eh))))
  step-Outside v h (stores api) t' w w' o f e = comes_in api f (cc e) (cc e)
  step-Outside v h (initializes x) t' w w' o f e = absurd o
  step-Outside v h answers t' w w' o f e = absurd o
  step-Outside v h (returned null) t' w w' o f e =
      let same_thread : returned null ≡ t' = cc e in
      waits (cc e) (subst IsOutside same_thread tt) (subst (Follows v h) same_thread f)
  step-Outside v h (returned (ref p)) t' w w' o f e = absurd o
