-- ===== src/Plugin/Loaded.antt =====
-- src/lib.rs and src/decode.rs: a whole life of the plugin, from its entry point on.
use imageglass_ithmb_plugin.Prelude.{◌≡◌, ◌≢◌, none, some, []}
use imageglass_ithmb_plugin.Prelude.Int.{ℤ}
use imageglass_ithmb_plugin.Types.{Ptr, null, ref, IgHostApi, IgPluginApi}
use imageglass_ithmb_plugin.World.{World, done}
use imageglass_ithmb_plugin.Strings.{Str}
use imageglass_ithmb_plugin.State.{get_or_init}
use imageglass_ithmb_plugin.State.Init.{first_initialized-IsSound}
use imageglass_ithmb_plugin.Plugin.{ig_plugin_get_api}
use imageglass_ithmb_plugin.Plugin.Entry.{
  Answers, accepted, refused, entered, ig_plugin_get_api-Answers,
}
use imageglass_ithmb_plugin.Decode.Contract.{IsSound}
use imageglass_ithmb_plugin.Session.{Reach-IsSound}
use imageglass_ithmb_plugin.Session.Steps.{Reach}

-- A process in which the plugin has just been loaded: no registry, no host API, no block.
pub record IsFresh (w : World) : Type 0 where
  pub no_registry : w.buffer_registry ≡ none
  pub no_host : w.host_api ≡ none
  pub no_block : w.heap ≡ []

entered-IsSound :
    (version : Str) (api : IgHostApi) (w : World) → IsFresh w → IsSound (entered version api w)
entered-IsSound version api w f =
    first_initialized-IsSound version (record w { host_api = get_or_init w.host_api (ref api) })
      f.no_registry f.no_block stored
  where
    stored : get_or_init w.host_api (ref api) ≢ some null
    stored e = absurd (cc (rw f.no_host at e))

-- In a fresh process, when the entry point has returned a table, whatever decodes, releases,
-- metadata loads, queries of extensions, capability and codec, entry calls, shutdowns, host
-- writes and lock poisonings follow (as a session of calls allows them), the state is sound: the
-- registry tracks exactly the live blocks.
pub loaded-IsSound :
    (version : Str) (v : ℤ) (h : Ptr IgHostApi) (w w1 w2 : World) (table : IgPluginApi)
    → IsFresh w
    → ig_plugin_get_api version v h w ≡ done (ref table) w1
    → Reach w1 w2
    → IsSound w2
loaded-IsSound version v h w w1 w2 table fresh entry session =
    loaded_case (ig_plugin_get_api-Answers version v h w)
  where
    loaded_case : Answers version v h w (ig_plugin_get_api version v h w) → IsSound w2
    loaded_case (accepted api c a) =
        let same : entered version api w ≡ w1 = cc (a.answers, entry) in
        Reach-IsSound w1 w2 (rw same at (entered-IsSound version api w fresh)) session
    loaded_case (refused none_fits e) = absurd (cc (e, entry))
