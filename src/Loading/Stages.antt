-- ===== src/Loading/Stages.antt =====
-- src/state.rs: the states that the threads pass through together while they load the plugin.
use imageglass_ithmb_plugin.Prelude.{
  ℕ, zero, suc, ◌<◌, ◌≡◌, refl, ap, sym, ◌∙◌, Option, none, some, List, arith,
}
use imageglass_ithmb_plugin.Types.{Ptr, ref, IgHostApi, IgCodecCapability, IgStringRef}
use imageglass_ithmb_plugin.World.{World, PluginState}
use imageglass_ithmb_plugin.Registry.{BufferRegistry, new}
use imageglass_ithmb_plugin.Strings.{Str}
use imageglass_ithmb_plugin.State.{
  get_or_init, extensions_array, build_plugin_state, build_capability, init_extensions,
  init_plugin_state, init_capability, init_registry, initialized,
}
use imageglass_ithmb_plugin.Plugin.Entry.{entered}
use imageglass_ithmb_plugin.Loading.{Static, extensions, plugin_state, capability, registry}

-- What the second thread finds.
again {ℓ} :
    {A : Type ℓ} (o : Option A) (a b : A) → get_or_init (get_or_init o a) b ≡ get_or_init o a
again none a b = refl
again (some c) a b = refl

abbrev pub host_stored : IgHostApi → World → World
host_stored api w = record w { host_api = get_or_init w.host_api (ref api) }

abbrev pub set_static : Str → Static → World → World
set_static version extensions w = init_extensions w
set_static version plugin_state w = init_plugin_state version w
set_static version capability w = init_capability w
set_static version registry w = init_registry w

-- Where a static is set, setting it changes nothing.
module _ (w : World) where
  host_again :
      (o : Option (Ptr IgHostApi)) (a : Ptr IgHostApi) (api : IgHostApi)
      → w.host_api ≡ get_or_init o a
      → host_stored api w ≡ w
  host_again o a api e =
      ap (λ (h : Option (Ptr IgHostApi)). record w { host_api = h })
        (ap (λ h. get_or_init h (ref api)) e ∙ again o a (ref api) ∙ sym e)

  extensions_again :
      (o : Option (List IgStringRef)) (a : List IgStringRef)
      → w.plugin_extensions ≡ get_or_init o a
      → init_extensions w ≡ w
  unfolding init_extensions
  extensions_again o a e =
      ap (λ (h : Option (List IgStringRef)). record w { plugin_extensions = h })
        (ap (λ h. get_or_init h extensions_array) e ∙ again o a extensions_array ∙ sym e)

  plugin_state_again :
      (version : Str) (o : Option PluginState) (a : PluginState)
      → w.plugin_state ≡ get_or_init o a
      → init_plugin_state version w ≡ w
  unfolding init_plugin_state
  plugin_state_again version o a e =
      ap (λ (h : Option PluginState). record w { plugin_state = h })
        (ap (λ h. get_or_init h (build_plugin_state version)) e
          ∙ again o a (build_plugin_state version)
          ∙ sym e)

  capability_again :
      (o : Option IgCodecCapability) (a : IgCodecCapability)
      → w.capability ≡ get_or_init o a
      → init_capability w ≡ w
  unfolding init_capability
  capability_again o a e =
      ap (λ (h : Option IgCodecCapability). record w { capability = h })
        (ap (λ h. get_or_init h (build_capability w)) e ∙ again o a (build_capability w) ∙ sym e)

  registry_again :
      (o : Option BufferRegistry) (a : BufferRegistry)
      → w.buffer_registry ≡ get_or_init o a
      → init_registry w ≡ w
  unfolding init_registry
  registry_again o a e =
      ap (λ (h : Option BufferRegistry). record w { buffer_registry = h })
        (ap (λ h. get_or_init h new) e ∙ again o a new ∙ sym e)

-- How many statics are set when a thread comes to this one.
abbrev pub before : Static → ℕ
before extensions = 0
before plugin_state = 1
before capability = 2
before registry = 3

module _ (version : Str) (api : IgHostApi) (w : World) where
  abbrev hosted : World
  hosted = host_stored api w

  abbrev extended : World
  extended = init_extensions hosted

  abbrev stated : World
  stated = init_plugin_state version extended

  abbrev capable : World
  capable = init_capability stated

  abbrev loaded : World
  loaded = init_registry capable

  -- The state in which the host's table and `n` statics are set.
  abbrev pub stage : ℕ → World
  stage zero = hosted
  stage (suc zero) = extended
  stage (suc (suc zero)) = stated
  stage (suc (suc (suc zero))) = capable
  stage (suc (suc (suc (suc n)))) = loaded

  pub last_stage : loaded ≡ entered version api w
  unfolding initialized
  last_stage = refl

  -- A static that is set already is found as it is.
  pub host_found : (b : IgHostApi) (n : ℕ) → host_stored b (stage n) ≡ stage n
  unfolding init_extensions init_plugin_state init_capability init_registry
  host_found b zero = host_again hosted w.host_api (ref api) b refl
  host_found b (suc zero) = host_again extended w.host_api (ref api) b refl
  host_found b (suc (suc zero)) = host_again stated w.host_api (ref api) b refl
  host_found b (suc (suc (suc zero))) = host_again capable w.host_api (ref api) b refl
  host_found b (suc (suc (suc (suc n)))) = host_again loaded w.host_api (ref api) b refl

  pub static_found : (x : Static) (n : ℕ) → before x < n → set_static version x (stage n) ≡ stage n
  unfolding init_extensions init_plugin_state init_capability init_registry
  static_found extensions zero h = absurd (omega (arith, h))
  static_found extensions (suc zero) h =
      extensions_again extended w.plugin_extensions extensions_array refl
  static_found extensions (suc (suc zero)) h =
      extensions_again stated w.plugin_extensions extensions_array refl
  static_found extensions (suc (suc (suc zero))) h =
      extensions_again capable w.plugin_extensions extensions_array refl
  static_found extensions (suc (suc (suc (suc n)))) h =
      extensions_again loaded w.plugin_extensions extensions_array refl
  static_found plugin_state zero h = absurd (omega (arith, h))
  static_found plugin_state (suc zero) h = absurd (omega (arith, h))
  static_found plugin_state (suc (suc zero)) h =
      plugin_state_again stated version w.plugin_state (build_plugin_state version) refl
  static_found plugin_state (suc (suc (suc zero))) h =
      plugin_state_again capable version w.plugin_state (build_plugin_state version) refl
  static_found plugin_state (suc (suc (suc (suc n)))) h =
      plugin_state_again loaded version w.plugin_state (build_plugin_state version) refl
  static_found capability zero h = absurd (omega (arith, h))
  static_found capability (suc zero) h = absurd (omega (arith, h))
  static_found capability (suc (suc zero)) h = absurd (omega (arith, h))
  static_found capability (suc (suc (suc zero))) h =
      capability_again capable w.capability (build_capability stated) refl
  static_found capability (suc (suc (suc (suc n)))) h =
      capability_again loaded w.capability (build_capability stated) refl
  static_found registry zero h = absurd (omega (arith, h))
  static_found registry (suc zero) h = absurd (omega (arith, h))
  static_found registry (suc (suc zero)) h = absurd (omega (arith, h))
  static_found registry (suc (suc (suc zero))) h = absurd (omega (arith, h))
  static_found registry (suc (suc (suc (suc n)))) h =
      registry_again loaded w.buffer_registry new refl

  -- The first thread that comes to a static takes all to the next stage.
  pub static_set : (x : Static) → set_static version x (stage (before x)) ≡ stage (suc (before x))
  static_set extensions = refl
  static_set plugin_state = refl
  static_set capability = refl
  static_set registry = refl
