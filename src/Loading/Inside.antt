-- ===== src/Loading/Inside.antt =====
-- src/lib.rs and src/state.rs: the step of a thread that loads the plugin, once a host table is stored.
use mathlib.Core.Path.{subst}
use native.Mathlib.Decide.{ℕ_discrete}
use imageglass_ithmb_plugin.Prelude.{ℕ, zero, suc, ◌≤◌, ◌<◌, ◌≡◌, refl, ap, sym, ◌∙◌, some, arith}
use imageglass_ithmb_plugin.Prelude.Int.{ℤ}
use imageglass_ithmb_plugin.Types.{Ptr, null, ref, IgHostApi, IgPluginApi}
use imageglass_ithmb_plugin.World.{World, done}
use imageglass_ithmb_plugin.Strings.{Str}
use imageglass_ithmb_plugin.State.Init.{initialized-IsInitialized}
use imageglass_ithmb_plugin.Plugin.{stored_api}
use imageglass_ithmb_plugin.Plugin.Entry.{entered, stored_api-some}
use imageglass_ithmb_plugin.Loading.{
  Static, extensions, plugin_state, capability, registry, Loader, enters, stores, initializes,
  answers, returned, admits, step,
}
use imageglass_ithmb_plugin.Loading.Stages.{
  host_stored, set_static, before, stage, last_stage, host_found, static_found, static_set,
}
use imageglass_ithmb_plugin.Loading.Outside.{
  Follows, IsOutside, Outside, waits, comes_in, step-Outside,
}

abbrev onward : Static → Loader
onward extensions = initializes plugin_state
onward plugin_state = initializes capability
onward capability = initializes registry
onward registry = answers

module _ (version : Str) where
  step_static :
      (x : Static) (w : World)
      → step version (initializes x) w ≡ done (onward x) (set_static version x w)
  unfolding step
  step_static extensions w = refl
  step_static plugin_state w = refl
  step_static capability w = refl
  step_static registry w = refl

  module _ (api : IgHostApi) (w : World) where
    -- A thread is not ahead of the state that all share.
    abbrev pub Within : ℕ → Loader → Type 0
    Within n (enters v h) = Unit {0}
    Within n (stores b) = Unit {0}
    Within n (initializes x) = before x ≤ n
    Within n answers = 4 ≤ n
    Within n (returned null) = Unit {0}
    Within n (returned (ref p)) = (4 ≤ n) × (stored_api (entered version api w) ≡ ref p)

    pub outside-Within : (n : ℕ) (t : Loader) → IsOutside t → Within n t
    outside-Within n (enters v h) o = tt
    outside-Within n (stores b) o = tt
    outside-Within n (initializes x) o = absurd o
    outside-Within n answers o = absurd o
    outside-Within n (returned null) o = tt
    outside-Within n (returned (ref p)) o = absurd o

    pub Within-later : (n m : ℕ) (t : Loader) → n ≤ m → Within n t → Within m t
    Within-later n m (enters v h) le k = tt
    Within-later n m (stores b) le k = tt
    Within-later n m (initializes x) le k = omega (arith, le, k)
    Within-later n m answers le k = omega (arith, le, k)
    Within-later n m (returned null) le k = tt
    Within-later n m (returned (ref p)) le (k, e) = (omega (arith, le, k), e)

    -- The step of a thread where a host table is stored.
    pub record Inside (v : ℤ) (h : Ptr IgHostApi) (n : ℕ) (t' : Loader) (w' : World) : Type 0 where
      pub level : ℕ
      pub grows : n ≤ level
      pub bounded : level ≤ 4
      pub staged : w' ≡ stage version api w level
      pub within : Within level t'
      pub follows : Follows v h t'

    stays-Inside :
        (v : ℤ) (h : Ptr IgHostApi) (n : ℕ) (t' : Loader)
        → n ≤ 4
        → Within n t'
        → Follows v h t'
        → Inside v h n t' (stage version api w n)
    stays-Inside v h n t' bound k f = record {
      level = n;
      grows = omega arith;
      bounded = bound;
      staged = refl;
      within = k;
      follows = f;
    }

    onward-Within : (x : Static) (n : ℕ) → before x < n → Within n (onward x)
    onward-Within extensions n h = omega (arith, h)
    onward-Within plugin_state n h = omega (arith, h)
    onward-Within capability n h = omega (arith, h)
    onward-Within registry n h = omega (arith, h)

    onward-Follows :
        (v : ℤ) (h : Ptr IgHostApi) (x : Static)
        → (b : IgHostApi) × (admits v h ≡ some b)
        → Follows v h (onward x)
    onward-Follows v h extensions f = f
    onward-Follows v h plugin_state f = f
    onward-Follows v h capability f = f
    onward-Follows v h registry f = f

    before_bound : (x : Static) → before x ≤ 3
    before_bound extensions = omega arith
    before_bound plugin_state = omega arith
    before_bound capability = omega arith
    before_bound registry = omega arith

    static-Inside :
        (v : ℤ) (h : Ptr IgHostApi) (x : Static) (n : ℕ)
        → n ≤ 4
        → before x ≤ n
        → (b : IgHostApi) × (admits v h ≡ some b)
        → Inside v h n (onward x) (set_static version x (stage version api w n))
    static-Inside v h x n bound k f = elim (ℕ_discrete (before x) n) [
      | yes first ↦ record {
        level = suc n;
        grows = omega arith;
        bounded = omega (arith, first, before_bound x);
        staged =
            ap (λ m. set_static version x (stage version api w m)) (sym first)
            ∙ static_set version api w x
            ∙ ap (λ m. stage version api w (suc m)) first;
        within = onward-Within x (suc n) (omega (arith, first));
        follows = onward-Follows v h x f;
      }
      | no later ↦
          let passed : before x < n = omega (arith, k, later) in
          let same = static_found version api w x n passed in
          subst (Inside v h n (onward x)) (sym same) (
            stays-Inside v h n (onward x) bound (onward-Within x n passed) (onward-Follows v h x f))
    ]

    -- The table that the answer gives.
    table : (p : IgPluginApi) × (stored_api (entered version api w) ≡ ref p)
    table =
        let i = initialized-IsInitialized version (host_stored api w) in
        (i.state.plugin_api, stored_api-some (entered version api w) i.state i.has_state)

    pub full_stage : (n : ℕ) → 4 ≤ n → stage version api w n ≡ entered version api w
    full_stage zero h = absurd (omega (arith, h))
    full_stage (suc zero) h = absurd (omega (arith, h))
    full_stage (suc (suc zero)) h = absurd (omega (arith, h))
    full_stage (suc (suc (suc zero))) h = absurd (omega (arith, h))
    full_stage (suc (suc (suc (suc n)))) h = last_stage version api w

    Inside-along :
        (v : ℤ) (h : Ptr IgHostApi) (n : ℕ) (t t' : Loader) (u w' : World)
        → t ≡ t'
        → u ≡ w'
        → Inside v h n t u
        → Inside v h n t' w'
    Inside-along v h n t t' u w' same_thread same_world k =
        subst (λ (y : World). Inside v h n t' y) same_world
          (subst (λ (y : Loader). Inside v h n y u) same_thread k)

    Outside-Inside :
        (v : ℤ) (h : Ptr IgHostApi) (n : ℕ) (t' : Loader) (w' : World)
        → n ≤ 4
        → Outside version v h (stage version api w n) t' w'
        → Inside v h n t' w'
    Outside-Inside v h n t' w' bound (waits same_world o f) =
        Inside-along v h n t' t' (stage version api w n) w' refl (sym same_world)
          (stays-Inside v h n t' bound (outside-Within n t' o) f)
    Outside-Inside v h n t' w' bound (comes_in b admitted same_world same_thread) =
        Inside-along v h n (initializes extensions) t' (stage version api w n) w' (sym same_thread)
          (sym (same_world ∙ host_found version api w b n))
          (stays-Inside v h n (initializes extensions) bound (omega arith) (b, admitted))

    pub step-Inside :
        (v : ℤ) (h : Ptr IgHostApi) (n : ℕ) (t t' : Loader) (w' : World)
        → n ≤ 4
        → Within n t
        → Follows v h t
        → step version t (stage version api w n) ≡ done t' w'
        → Inside v h n t' w'
    unfolding step
    step-Inside v h n (enters v' h') t' w' bound k f e =
        Outside-Inside v h n t' w' bound (step-Outside version v h (enters v' h') t' _ w' tt f e)
    step-Inside v h n (stores b) t' w' bound k f e =
        Outside-Inside v h n t' w' bound (step-Outside version v h (stores b) t' _ w' tt f e)
    step-Inside v h n (initializes x) t' w' bound k f e =
        let now = stage version api w n in
        let run = step_static x now in
        Inside-along v h n (onward x) t' (set_static version x now) w' (cc (run, e)) (cc (run, e))
          (static-Inside v h x n bound k f)
    step-Inside v h n answers t' w' bound k f e =
        let now = stage version api w n in
        let (p, found) = table in
        let here_found : stored_api now ≡ ref p = ap stored_api (full_stage n k) ∙ found in
        Inside-along v h n (returned (ref p)) t' now w' (cc (ap returned here_found, e)) (cc e)
          (stays-Inside v h n (returned (ref p)) bound (k, found) f)
    step-Inside v h n (returned null) t' w' bound k f e =
        Outside-Inside v h n t' w' bound (step-Outside version v h (returned null) t' _ w' tt f e)
    step-Inside v h n (returned (ref p)) t' w' bound k f e =
        Inside-along v h n (returned (ref p)) t' (stage version api w n) w' (cc e) (cc e)
          (stays-Inside v h n (returned (ref p)) bound k f)
