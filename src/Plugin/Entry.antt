-- ===== src/Plugin/Entry.antt =====
-- src/lib.rs: what the entry point answers.
use imageglass_ithmb_plugin.Prelude.{
  ℕ, zero, suc, ◌≤◌, ◌<◌, ◌≡◌, ◌/◌, refl, ap, ◌∙◌, inl, inr, some, Bool, true, false, arith,
  Bool-cases,
}
use imageglass_ithmb_plugin.Prelude.Int.{ℤ, pos, negsuc, eqb_ℤ, ltb_ℤ}
use imageglass_ithmb_plugin.Types.{Ptr, null, ref, IgHostApi, IgPluginApi}
use imageglass_ithmb_plugin.World.{World, PluginState, Outcome, done}
use imageglass_ithmb_plugin.Strings.{Str}
use imageglass_ithmb_plugin.State.{
  ig_plugin_abi_version, get_or_init, initialized, ensure_initialized,
}
use imageglass_ithmb_plugin.AbiLayout.{size_of, ig_host_api_fields}
use imageglass_ithmb_plugin.Prelude.Machine.{as_i32}
use imageglass_ithmb_plugin.State.Init.{initialized-IsInitialized}
use imageglass_ithmb_plugin.Plugin.{negated, div_trunc, stored_api, ig_plugin_get_api}

-- What the entry point asks of the host: major version 1, and a host API of at least the size known
-- here.
pub record IsCompatible (version : ℤ) (h : Ptr IgHostApi) (api : IgHostApi) : Type 0 where
  pub number : ℕ
  pub size : ℕ
  pub numbered : version ≡ pos number
  pub at_least : 1000000 ≤ number
  pub below : number < 2000000
  pub present : h ≡ ref api
  pub sized : api.struct_size ≡ pos size
  pub large : 16 ≤ size

-- The comparison of major versions that the entry point makes.
abbrev same_major : ℤ → Bool
same_major v = eqb_ℤ (div_trunc v 1000000) (div_trunc ig_plugin_abi_version 1000000)

negated-not_one : (m : ℕ) → eqb_ℤ (negated m) (pos 1) ≡ false
negated-not_one zero = refl
negated-not_one (suc m) = ground arith

major-one : (v : ℤ) → same_major v ≡ true → (n : ℕ) × (v ≡ pos n) × (1000000 ≤ n) × (n < 2000000)
unfolding div_trunc
major-one (pos n) e = (n, refl, ground arith, ground arith)
major-one (negsuc n) e = absurd (ground (arith, negated-not_one (suc n / 1000000)))

one-major : (n : ℕ) → 1000000 ≤ n → n < 2000000 → same_major (pos n) ≡ true
unfolding div_trunc
one-major n h k = ground arith

host_api_size : as_i32 (pos (size_of ig_host_api_fields)) ≡ pos 16
unfolding size_of
host_api_size = refl

-- The state after the entry point has stored the host's API and initialized the plugin.
abbrev pub entered : Str → IgHostApi → World → World
entered version api w =
    initialized version (record w { host_api = get_or_init w.host_api (ref api) })

-- The answer to a compatible host.
pub record Accepts (version : Str) (api : IgHostApi) (w : World) (o : Outcome (Ptr IgPluginApi))
    : Type 0 where
  pub state : PluginState
  pub has_state : (entered version api w).plugin_state ≡ some state
  pub answers : o ≡ done (ref state.plugin_api) (entered version api w)

run_accepted :
    (version : Str) (v : ℤ) (api : IgHostApi) (w : World)
    → same_major v ≡ true
    → ltb_ℤ api.struct_size (pos 16) ≡ false
    → ig_plugin_get_api version v (ref api) w
      ≡ done (stored_api (entered version api w)) (entered version api w)
unfolding ig_plugin_get_api ensure_initialized
run_accepted version v api w major large = rw (ig_plugin_get_api, host_api_size, large, major) refl

run_other_major :
    (version : Str) (v : ℤ) (h : Ptr IgHostApi) (w : World)
    → same_major v ≡ false
    → ig_plugin_get_api version v h w ≡ done null w
unfolding ig_plugin_get_api
run_other_major version v h w major = rw (ig_plugin_get_api, major) refl

run_null :
    (version : Str) (v : ℤ) (w : World)
    → same_major v ≡ true
    → ig_plugin_get_api version v null w ≡ done null w
unfolding ig_plugin_get_api
run_null version v w major = rw (ig_plugin_get_api, major) refl

run_small :
    (version : Str) (v : ℤ) (api : IgHostApi) (w : World)
    → same_major v ≡ true
    → ltb_ℤ api.struct_size (pos 16) ≡ true
    → ig_plugin_get_api version v (ref api) w ≡ done null w
unfolding ig_plugin_get_api
run_small version v api w major small = rw (ig_plugin_get_api, host_api_size, small, major) refl

-- The two answers: the plugin's table to a compatible host, null to any other.
pub data Answers (version : Str) (v : ℤ) (h : Ptr IgHostApi) (w : World)
    (o : Outcome (Ptr IgPluginApi)) : Type 0 where
  accepted :
      (api : IgHostApi) → IsCompatible v h api → Accepts version api w o → Answers version v h w o
  refused : ((api : IgHostApi) → ¬ IsCompatible v h api) → o ≡ done null w → Answers version v h w o

pub stored_api-some :
    (w : World) (s : PluginState) → w.plugin_state ≡ some s → stored_api w ≡ ref s.plugin_api
stored_api-some w s e = rw e refl

accepts :
    (version : Str) (api : IgHostApi) (w : World) (o : Outcome (Ptr IgPluginApi))
    → o ≡ done (stored_api (entered version api w)) (entered version api w)
    → Accepts version api w o
accepts version api w o e =
    let h =
      initialized-IsInitialized version
        (record w { host_api = get_or_init w.host_api (ref api) }) in
    record {
      state = h.state;
      has_state = h.has_state;
      answers =
          e
          ∙ ap (λ (p : Ptr IgPluginApi). done p (entered version api w))
              (stored_api-some (entered version api w) h.state h.has_state);
    }

size_large : (s : ℤ) → ltb_ℤ s (pos 16) ≡ false → (n : ℕ) × (s ≡ pos n) × (16 ≤ n)
size_large (pos n) e = (n, refl, ground arith)
size_large (negsuc n) e = absurd (ground arith)

compatible_major :
    (v : ℤ) (h : Ptr IgHostApi) (api : IgHostApi) → IsCompatible v h api → same_major v ≡ true
compatible_major v h api c = rw c.numbered (one-major c.number c.at_least c.below)

compatible_large :
    (v : ℤ) (a api : IgHostApi) → IsCompatible v (ref a) api → ltb_ℤ a.struct_size (pos 16) ≡ false
compatible_large v a api c =
    let same : a ≡ api = cc c.present in rw (same, c.sized) (ground (arith, c.large))

-- For every version that the host passes and every host pointer: when the version is in
-- 1000000..1999999 and the host table is present with at least 16 bytes, the answer is the
-- plugin's table, with the host table stored unless one was stored before and everything
-- initialized; in every other case the answer is null and nothing has changed.
pub ig_plugin_get_api-Answers :
    (version : Str) (v : ℤ) (h : Ptr IgHostApi) (w : World)
    → Answers version v h w (ig_plugin_get_api version v h w)
ig_plugin_get_api-Answers version v h w = elim (Bool-cases (same_major v)) [
  | inl major ↦ host_case h major
  | inr other ↦
      refused (λ api c. absurd (cc (compatible_major v h api c, other)))
        (run_other_major version v h w other)
]
  where
    host_case :
        (h : Ptr IgHostApi)
        → same_major v ≡ true
        → Answers version v h w (ig_plugin_get_api version v h w)
    host_case null major = refused (λ api c. absurd (cc c.present)) (run_null version v w major)
    host_case (ref api) major = elim (Bool-cases (ltb_ℤ api.struct_size (pos 16))) [
      | inl small ↦
          refused (λ b c. absurd (cc (compatible_large v api b c, small)))
            (run_small version v api w major small)
      | inr large ↦
          let (n, e, lo, hi) = major-one v major in
          let (size, es, big) = size_large api.struct_size large in
          accepted api
            (record {
              number = n;
              size = size;
              numbered = e;
              at_least = lo;
              below = hi;
              present = refl;
              sized = es;
              large = big;
            })
            (accepts version api w _ (run_accepted version v api w major large))
    ]
