-- ===== src/Plugin.antt =====
-- src/lib.rs: the entry point and the plugin's function table.
pub mod Codecs
pub mod History
pub mod Entry
pub mod Loaded
use imageglass_ithmb_plugin.Prelude.{ℕ, zero, suc, ◌/◌, none, some, not, ◌==◌, if◌then◌else◌, codes}
use imageglass_ithmb_plugin.Prelude.Int.{ℤ, pos, negsuc, eqb_ℤ, ltb_ℤ}
use imageglass_ithmb_plugin.Prelude.Machine.{as_i32}
use imageglass_ithmb_plugin.Types.{IgStatus, Ptr, null, ref, IgHostApi, IgPluginApi}
use imageglass_ithmb_plugin.World.{
  World, Run, pure, ◌>>=◌, ◌>>◌, ask, modify, update, catch_unwind_or,
}
use imageglass_ithmb_plugin.Strings.{Str}
use imageglass_ithmb_plugin.Logging.{with_core}
use imageglass_ithmb_plugin.Logging.Methods
use imageglass_ithmb_plugin.AbiLayout.{size_of, ig_host_api_fields}
use imageglass_ithmb_plugin.State.{ig_plugin_abi_version, get_or_init, ensure_initialized}

abbrev pub negated : ℕ → ℤ
negated zero = pos 0
negated (suc n) = negsuc n

-- `/` on `i32` rounds towards zero.
unfoldable pub div_trunc : ℤ → ℕ → ℤ
div_trunc (pos n) d = pos (n / d)
div_trunc (negsuc n) d = negated (suc n / d)

-- The slot is the host's `IGCodecApi*` variable at `codec`.
unfoldable pub plugin_get_codec : ℤ → ℕ → Run IgStatus
plugin_get_codec index codec = catch_unwind_or IgStatus.internal (
    if codec == 0
    then pure IgStatus.invalid_arg
    else if not (eqb_ℤ index (pos 0))
    then (do
      modify (λ w. record w { codec_slots = update w.codec_slots codec null })
      pure IgStatus.ok)
    else do
      stored ← ask (λ w. w.plugin_state)
      elim stored [
        | none ↦ pure IgStatus.internal
        | some state ↦ do
          modify (λ w. record w { codec_slots = update w.codec_slots codec (ref state.codec_api) })
          pure IgStatus.ok
      ])

unfoldable pub plugin_initialize : Run IgStatus
plugin_initialize = pure IgStatus.ok

unfoldable pub plugin_shutdown : Run (Unit {0})
plugin_shutdown =
    catch_unwind_or tt
      (with_core (λ core. Methods.info (Methods.new core) (codes "ithmb-codec: shutdown")))

unfoldable pub plugin_self_test : Run IgStatus
plugin_self_test = pure IgStatus.ok

-- The table that `PLUGIN_STATE` holds, or null.
abbrev pub stored_api : World → Ptr IgPluginApi
stored_api w = elim w.plugin_state [ none ↦ null | some s ↦ ref s.plugin_api ]

unfoldable pub ig_plugin_get_api : Str → ℤ → Ptr IgHostApi → Run (Ptr IgPluginApi)
unfolding div_trunc
ig_plugin_get_api version host_abi_version host_api =
    if not (eqb_ℤ (div_trunc host_abi_version 1000000) (div_trunc ig_plugin_abi_version 1000000))
    then pure null
    else elim host_api [
      | null ↦ pure null
      | ref api ↦
          if ltb_ℤ api.struct_size (as_i32 (pos (size_of ig_host_api_fields)))
          then pure null
          else do
            modify (λ w. record w { host_api = get_or_init w.host_api (ref api) })
            catch_unwind_or null (do ensure_initialized version; ask stored_api)
    ]
