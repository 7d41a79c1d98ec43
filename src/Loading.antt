-- ===== src/Loading.antt =====
-- src/lib.rs and src/state.rs with several threads that load the plugin at once. A `OnceLock` is set
-- by the first thread that comes to it, and others find its value, so that each `get_or_init` is one
-- step.
pub mod Alone
pub mod Stages
pub mod Outside
pub mod Inside
pub mod Once
pub mod Schedule
use imageglass_ithmb_plugin.Prelude.{
  ℕ, zero, suc, ◌≡◌, Option, none, some, Bool, not, if◌then◌else◌,
}
use imageglass_ithmb_plugin.Prelude.Int.{ℤ, pos, eqb_ℤ, ltb_ℤ}
use imageglass_ithmb_plugin.Prelude.Machine.{as_i32}
use imageglass_ithmb_plugin.Types.{Ptr, null, ref, IgHostApi, IgPluginApi}
use imageglass_ithmb_plugin.AbiLayout.{size_of, ig_host_api_fields}
use imageglass_ithmb_plugin.World.{World, Run, pure, ◌>>=◌, ◌>>◌, ask, modify, done, update}
use imageglass_ithmb_plugin.Scheduler.{Threaded}
use imageglass_ithmb_plugin.Strings.{Str}
use imageglass_ithmb_plugin.State.{
  ig_plugin_abi_version, get_or_init, init_extensions, init_plugin_state, init_capability,
  init_registry,
}
use imageglass_ithmb_plugin.Plugin.{div_trunc, stored_api}

-- The statics, in the order in which a call sets them.
pub data Static : Type 0 where
  extensions plugin_state capability registry : Static

-- Where a thread stands in `ig_plugin_get_api`.
pub data Loader : Type 0 where
  enters : ℤ → Ptr IgHostApi → Loader
  stores : IgHostApi → Loader
  initializes : Static → Loader
  answers : Loader
  returned : Ptr IgPluginApi → Loader

-- The guards of the entry point: the host's table, where they let it through.
unfoldable pub admits : ℤ → Ptr IgHostApi → Option IgHostApi
unfolding div_trunc
admits host_abi_version host_api =
    if not (eqb_ℤ (div_trunc host_abi_version 1000000) (div_trunc ig_plugin_abi_version 1000000))
    then none
    else elim host_api [
      | null ↦ none
      | ref api ↦
          if ltb_ℤ api.struct_size (as_i32 (pos (size_of ig_host_api_fields)))
          then none
          else some api
    ]

abbrev pub judged : Option IgHostApi → Loader
judged none = returned null
judged (some api) = stores api

-- The next step of a thread. A thread that has returned stays where it is.
unfoldable pub step : Str → Loader → Run Loader
unfolding admits init_extensions init_plugin_state init_capability init_registry
step version (enters host_abi_version host_api) = pure (judged (admits host_abi_version host_api))
step version (stores api) = do
  modify (λ w. record w { host_api = get_or_init w.host_api (ref api) })
  pure (initializes extensions)
step version (initializes extensions) = do modify init_extensions; pure (initializes plugin_state)
step version (initializes plugin_state) = do
  modify (init_plugin_state version)
  pure (initializes capability)
step version (initializes capability) = do modify init_capability; pure (initializes registry)
step version (initializes registry) = do modify init_registry; pure answers
step version answers = do api ← ask stored_api; pure (returned api)
step version (returned api) = pure (returned api)

unfoldable pub steps : ℕ → Str → Loader → Run Loader
unfolding step
steps zero version t = pure t
steps (suc n) version t = do t' ← step version t; steps n version t'

abbrev pub System : Type 0
System = Threaded Loader

-- What the threads can reach: one of them after the other takes a step.
pub data Reach (version : Str) (s : System) : System → Type 0 where
  here : Reach version s s
  next :
      {u : System} (i : ℕ) (t : Loader) (w : World)
      → Reach version s u
      → step version (u.threads i) u.world ≡ done t w
      → Reach version s (record { world = w; threads = update u.threads i t })
