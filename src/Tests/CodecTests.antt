-- ===== src/Tests/CodecTests.antt =====
-- Metadata and dimensions at concrete inputs.
use imageglass_ithmb_plugin.Prelude.{◌↔◌, ◌≡◌, refl, some, arith, codes}
use imageglass_ithmb_plugin.Codec.{codec_load_metadata, codec_get_capability}
use imageglass_ithmb_plugin.Codec.Dimensions.{parse_dimensions}
use imageglass_ithmb_plugin.Codec.Grammar.{IsDescription, parse_dimensions_iff}
use imageglass_ithmb_plugin.Codec.Metadata.{LoadEnds, codec_load_metadata-LoadEnds}
use imageglass_ithmb_plugin.State.{initialized}
use imageglass_ithmb_plugin.Codec.Advertised.{Advertises, codec_get_capability-Advertises}
use imageglass_ithmb_plugin.Tests.Fixtures.{test_world-IsSound, test_env, test_world, test_path}

parse_dimensions_iff_example :
    (parse_dimensions (codes " 320 ×240 RGB565") ≡ some (320, 240))
    ↔ IsDescription (codes " 320 ×240 RGB565") 320 240
parse_dimensions_iff_example = parse_dimensions_iff (codes " 320 ×240 RGB565") 320 240

codec_load_metadata-LoadEnds_example :
    LoadEnds test_env test_path 9 test_world (codec_load_metadata test_env test_path 9 test_world)
codec_load_metadata-LoadEnds_example =
    codec_load_metadata-LoadEnds test_env test_path 9 test_world (omega arith)

codec_get_capability-Advertises_example :
    Advertises
      (initialized (codes "1.6.2") test_world)
      8
      (codec_get_capability 8 (initialized (codes "1.6.2") test_world))
codec_get_capability-Advertises_example =
    codec_get_capability-Advertises (codes "1.6.2") test_world 8 (omega arith)
      test_world-IsSound.hosted refl refl
