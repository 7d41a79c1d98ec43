-- ===== src/Tests/PluginTests.antt =====
-- Initialization, the entry point and extension matching at concrete inputs.
use imageglass_ithmb_plugin.Prelude.{ℕ, List, ◌≡◌, refl, none, some, [], ◌∷◌, arith, codes}
use imageglass_ithmb_plugin.Prelude.Int.{pos}
use imageglass_ithmb_plugin.Types.{ref, IgStringRef, IgPluginApi}
use imageglass_ithmb_plugin.World.{World, done, undefined}
use imageglass_ithmb_plugin.State.{
  build_plugin_state, ensure_initialized, codec_api, initialized, extensions_array,
}
use imageglass_ithmb_plugin.AbiLayout.{size_of}
use imageglass_ithmb_plugin.Plugin.{ig_plugin_get_api, plugin_get_codec}
use imageglass_ithmb_plugin.Plugin.Codecs.{Offers, loaded-Offers}
use imageglass_ithmb_plugin.Plugin.Entry.{Answers, entered, ig_plugin_get_api-Answers}
use imageglass_ithmb_plugin.Plugin.Loaded.{IsFresh, loaded-IsSound}
use imageglass_ithmb_plugin.Codec.{codec_can_handle_extension}
use imageglass_ithmb_plugin.Codec.LogText.{HasUnits}
use imageglass_ithmb_plugin.Codec.Matching.{Decides, codec_can_handle_extension-Decides}
use imageglass_ithmb_plugin.Codec.Unchecked.{codec_can_handle_extension-undefined}
use imageglass_ithmb_plugin.Decode.Contract.{IsSound}
use imageglass_ithmb_plugin.Session.Steps.{here}
use imageglass_ithmb_plugin.Tests.Fixtures.{test_world, test_host, test_core, test_world-IsSound}

abbrev fresh_world : World
fresh_world = record test_world { host_api = none; buffer_registry = none }

fresh_world-IsFresh : IsFresh fresh_world
fresh_world-IsFresh = record { no_registry = refl; no_host = refl; no_block = refl }

abbrev test_version : List ℕ
test_version = codes "1.6.2"

abbrev loaded_world : World
loaded_world = entered test_version test_host fresh_world

abbrev test_table : IgPluginApi
unfolding build_plugin_state
test_table = (build_plugin_state test_version).plugin_api

entry_run :
    ig_plugin_get_api test_version (pos 1000000) (ref test_host) fresh_world
    ≡ done (ref test_table) loaded_world
unfolding ig_plugin_get_api initialized build_plugin_state size_of ensure_initialized
entry_run = refl

loaded-IsSound_example : IsSound loaded_world
loaded-IsSound_example =
    loaded-IsSound test_version (pos 1000000) (ref test_host) fresh_world loaded_world loaded_world
      test_table fresh_world-IsFresh entry_run here

ig_plugin_get_api-Answers_example :
    Answers test_version
      (pos 1000042)
      (ref test_host)
      fresh_world
      (ig_plugin_get_api test_version (pos 1000042) (ref test_host) fresh_world)
ig_plugin_get_api-Answers_example =
    ig_plugin_get_api-Answers test_version (pos 1000042) (ref test_host) fresh_world

abbrev upper_ipm : List ℕ
upper_ipm = codes ".IPM"

abbrev upper_ipm_ref : IgStringRef
upper_ipm_ref = record { data_ptr = ref upper_ipm; length = pos 4 }

abbrev ready_world : World
ready_world = record test_world { plugin_extensions = some extensions_array }

upper_ipm-HasUnits : HasUnits upper_ipm_ref upper_ipm
upper_ipm-HasUnits = record {
  units = upper_ipm;
  n = 4;
  located = refl;
  counted = refl;
  positive = omega arith;
  small = omega arith;
  readable = omega arith;
  shown = refl;
}

codec_can_handle_extension-Decides_example :
    Decides upper_ipm ready_world (codec_can_handle_extension upper_ipm_ref ready_world)
codec_can_handle_extension-Decides_example =
    codec_can_handle_extension-Decides upper_ipm_ref upper_ipm ready_world upper_ipm-HasUnits
      (ground arith) test_world-IsSound.hosted refl

abbrev latin_ref : IgStringRef
latin_ref = record { data_ptr = ref (b'.' ∷ 0xe9 ∷ []); length = pos 2 }

latin-HasUnits : HasUnits latin_ref (b'.' ∷ 0xe9 ∷ [])
latin-HasUnits = record {
  units = b'.' ∷ 0xe9 ∷ [];
  n = 2;
  located = refl;
  counted = refl;
  positive = omega arith;
  small = omega arith;
  readable = omega arith;
  shown = refl;
}

codec_can_handle_extension-undefined_example :
    codec_can_handle_extension latin_ref ready_world ≡ undefined
codec_can_handle_extension-undefined_example =
    codec_can_handle_extension-undefined latin_ref (b'.' ∷ []) 0xe9 ready_world test_host test_core
      latin-HasUnits (ground arith) (omega arith) (omega arith) (omega arith) refl refl

loaded-Offers_example :
    (test_table.info.codec_count ≡ pos 1)
    × Offers loaded_world codec_api (pos 0) 7 (plugin_get_codec (pos 0) 7 loaded_world)
loaded-Offers_example =
    loaded-Offers test_version (pos 1000000) (ref test_host) fresh_world loaded_world test_table
      refl entry_run (pos 0) 7
