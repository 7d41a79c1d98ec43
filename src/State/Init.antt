-- ===== src/State/Init.antt =====
-- src/state.rs: what initialization leaves behind, and that it happens once.
use imageglass_ithmb_plugin.Prelude.{◌≡◌, refl, none, some, Option, [], List}
use imageglass_ithmb_plugin.Prelude.HashMap.{get}
use imageglass_ithmb_plugin.Types.{IgCodecCapability, IgStringRef}
use imageglass_ithmb_plugin.World.{World, PluginState}
use imageglass_ithmb_plugin.Registry.{BufferRegistry, new}
use imageglass_ithmb_plugin.Registry.Laws.{new-IsValid}
use imageglass_ithmb_plugin.Strings.{Str}
use imageglass_ithmb_plugin.Logging.Effect.{IsHosted}
use imageglass_ithmb_plugin.Decode.Memory.{IsConsistent}
use imageglass_ithmb_plugin.Decode.Contract.{IsSound, same_memory-IsSound}
use imageglass_ithmb_plugin.State.{
  get_or_init, extensions_array, build_plugin_state, build_capability, initialized, init_extensions,
  init_plugin_state,
}

-- Every static is set.
pub record IsInitialized (w : World) : Type 0 where
  pub extensions : List IgStringRef
  pub state : PluginState
  pub capability : IgCodecCapability
  pub registry : BufferRegistry
  pub has_extensions : w.plugin_extensions ≡ some extensions
  pub has_state : w.plugin_state ≡ some state
  pub has_capability : w.capability ≡ some capability
  pub has_registry : w.buffer_registry ≡ some registry

get_or_init-some {ℓ} : {A : Type ℓ} (o : Option A) (a : A) → (b : A) × (get_or_init o a ≡ some b)
get_or_init-some none a = (a, refl)
get_or_init-some (some b) a = (b, refl)

pub initialized-IsInitialized : (version : Str) (w : World) → IsInitialized (initialized version w)
unfolding initialized
initialized-IsInitialized version w =
    let w1 = init_extensions w in
    let w2 = init_plugin_state version w1 in
    let (extensions, e1) = get_or_init-some w.plugin_extensions extensions_array in
    let (state, e2) = get_or_init-some w.plugin_state (build_plugin_state version) in
    let (capability, e3) = get_or_init-some w.capability (build_capability w2) in
    let (registry, e4) = get_or_init-some w.buffer_registry new in
    record {
      extensions = extensions;
      state = state;
      capability = capability;
      registry = registry;
      has_extensions = e1;
      has_state = e2;
      has_capability = e3;
      has_registry = e4;
    }

get_or_init-stays {ℓ} : {A : Type ℓ} (o : Option A) (a b : A) → o ≡ some a → get_or_init o b ≡ o
get_or_init-stays none a b e = absurd (cc e)
get_or_init-stays (some c) a b e = refl

-- Where every static is set, initialization changes nothing, whatever version it is given.
pub initialized_again : (version : Str) (w : World) → IsInitialized w → initialized version w ≡ w
unfolding initialized
initialized_again version w h =
    let extensions =
      get_or_init-stays w.plugin_extensions h.extensions extensions_array h.has_extensions in
    let state = get_or_init-stays w.plugin_state h.state (build_plugin_state version) h.has_state in
    let capability =
      get_or_init-stays w.capability h.capability
        (build_capability (init_plugin_state version (init_extensions w))) h.has_capability in
    let registry = get_or_init-stays w.buffer_registry h.registry new h.has_registry in
    λ i. record w {
      plugin_extensions = extensions i;
      plugin_state = state i;
      capability = capability i;
      buffer_registry = registry i;
    }

-- A registry with nothing in it is in step with an allocator with no live block.
empty-IsConsistent : (w : World) → w.buffer_registry ≡ some new → w.heap ≡ [] → IsConsistent new w
unfolding new get
empty-IsConsistent w e h = record {
  initialised = e;
  valid = new-IsValid;
  distinct = rw h tt;
  same = λ a. rw h tt;
  no_null = rw h refl;
}

-- In a process whose registry is not yet made and in which no block of the plugin is live, with no
-- null host API, the first initialization makes the state sound.
pub first_initialized-IsSound :
    (version : Str) (w : World)
    → w.buffer_registry ≡ none
    → w.heap ≡ []
    → IsHosted w
    → IsSound (initialized version w)
unfolding initialized
first_initialized-IsSound version w unset no_block hosted = record {
  registry = new;
  consistent = empty-IsConsistent (initialized version w) (rw unset) no_block;
  hosted = hosted;
}

-- Initialization keeps a sound state sound.
pub initialized-IsSound : (version : Str) (w : World) → IsSound w → IsSound (initialized version w)
unfolding initialized
initialized-IsSound version w s =
    same_memory-IsSound w (initialized version w)
      (get_or_init-stays w.buffer_registry s.registry new s.consistent.initialised) refl refl s
