-- ===== src/Loading/Alone.antt =====
-- src/lib.rs: a thread that loads the plugin alone, beside the entry point.
use imageglass_ithmb_plugin.Prelude.{◌≡◌, arith}
use imageglass_ithmb_plugin.Prelude.Int.{ℤ}
use imageglass_ithmb_plugin.Types.{Ptr, null, ref, IgHostApi}
use imageglass_ithmb_plugin.World.{World, pure, ◌>>=◌}
use imageglass_ithmb_plugin.Strings.{Str}
use imageglass_ithmb_plugin.State.{ensure_initialized}
use imageglass_ithmb_plugin.Plugin.{ig_plugin_get_api}
use imageglass_ithmb_plugin.Loading.{enters, returned, step, steps}

-- Seven steps of a thread that enters are the entry point with its answer, in every state.
pub steps-ig_plugin_get_api :
    (version : Str) (v : ℤ) (h : Ptr IgHostApi) (w : World)
    → steps 7 version (enters v h) w
      ≡ (ig_plugin_get_api version v h >>= λ api. pure (returned api)) w
unfolding steps step ig_plugin_get_api ensure_initialized
steps-ig_plugin_get_api version v null w = ground arith
steps-ig_plugin_get_api version v (ref api) w = ground arith
