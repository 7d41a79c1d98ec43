-- ===== src/Tests/SessionTests.antt =====
-- Tests of the sessions: a decode, a copy of the struct, a release and the shutdown.
use imageglass_ithmb_plugin.Prelude.{◌≡◌, ◌↔◌, refl, [], ◌∷◌, arith}
use imageglass_ithmb_plugin.Prelude.Int.{pos}
use imageglass_ithmb_plugin.Types.{IgStatus}
use imageglass_ithmb_plugin.World.{World, done}
use imageglass_ithmb_plugin.Logging.{with_core, log}
use imageglass_ithmb_plugin.Logging.History.{Sent}
use imageglass_ithmb_plugin.Decode.{codec_free_pixel_buffer, codec_decode_static_raster}
use imageglass_ithmb_plugin.Decode.Verdict.{DecodeStatus}
use imageglass_ithmb_plugin.Decode.Status.{DecodeStatus-iff}
use imageglass_ithmb_plugin.Plugin.{plugin_shutdown}
use imageglass_ithmb_plugin.Session.Steps.{Reach, next, frees, queries, shuts_down}
use imageglass_ithmb_plugin.Session.Messages.{Reach-Sent}
use imageglass_ithmb_plugin.Session.Ledger.{Runs, querying, releasing, writing, decoding}
use imageglass_ithmb_plugin.Session.View.{ledger}
use imageglass_ithmb_plugin.Session.Owners.{Reach-Runs}
use imageglass_ithmb_plugin.Tests.Fixtures.{
  test_env, test_env-IsSane, test_world, test_host, test_world-IsSound, test_path,
}
use imageglass_ithmb_plugin.Tests.DecodeTests.{
  decoded_world, copied_world, session, freed_world, free_run,
}

unfoldable abbrev shut_world : World
unfolding freed_world copied_world decoded_world codec_free_pixel_buffer plugin_shutdown with_core
    log
shut_world = elim (plugin_shutdown freed_world) [ done u w ↦ w | _ ↦ test_world ]

shutdown_run : plugin_shutdown freed_world ≡ done tt shut_world
unfolding shut_world freed_world copied_world decoded_world codec_free_pixel_buffer plugin_shutdown
    with_core log
shutdown_run = refl

unfoldable whole_session : Reach test_world shut_world
whole_session = next (next session (frees 5 free_run)) (queries (shuts_down shutdown_run))

Reach-Sent_example : Sent test_world shut_world
Reach-Sent_example = Reach-Sent test_host test_world shut_world refl whole_session

Reach-Runs_example :
    Runs
      (querying
        ∷ releasing 5
        ∷ writing 6 (decoded_world.pixel_buffers 5).data_ptr
        ∷ decoding 5 IgStatus.ok
        ∷ [])
      (ledger test_world)
      (ledger shut_world)
unfolding whole_session session
Reach-Runs_example = Reach-Runs test_world shut_world test_world-IsSound whole_session

DecodeStatus-iff_example :
    ((w' : World) × (codec_decode_static_raster test_env test_path (pos 0) 5 test_world
        ≡ done IgStatus.ok w'))
    ↔ DecodeStatus test_env test_path (pos 0) 5 test_world IgStatus.ok
DecodeStatus-iff_example =
    DecodeStatus-iff test_env test_path (pos 0) 5 test_world test_env-IsSane (omega arith)
      test_world-IsSound IgStatus.ok
