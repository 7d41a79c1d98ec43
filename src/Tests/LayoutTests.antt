-- ===== src/Tests/LayoutTests.antt =====
-- The offsets of `IGCodecCapability`.
use imageglass_ithmb_plugin.Prelude.{◌≡◌, refl, [], ◌∷◌}
use imageglass_ithmb_plugin.AbiLayout.{offsets, struct, ig_codec_capability_fields}

capability_offsets :
    offsets 0 ig_codec_capability_fields
    ≡ 0 ∷ 8 ∷ 24 ∷ 40 ∷ 44 ∷ 48 ∷ 52 ∷ 56 ∷ 60 ∷ 64 ∷ 72 ∷ 80 ∷ 84 ∷ 88 ∷ 92 ∷ 96 ∷ []
unfolding offsets struct
capability_offsets = refl
