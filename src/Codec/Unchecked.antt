-- ===== src/Codec/Unchecked.antt =====
-- src/codec.rs: where the log block of `codec_can_handle_extension` makes a `str` of bytes that are
-- not UTF-8.
use imageglass_ithmb_plugin.Prelude.{
  ℕ, zero, suc, ◌≤◌, ◌<◌, ◌≡◌, refl, [], ◌∷◌, ◌++◌, List, map, take, length, none, some, arith, All,
  lt→ltb,
}
use imageglass_ithmb_plugin.Types.{ref, IgStringRef, IgHostApi, IgHostCoreApi}
use imageglass_ithmb_plugin.World.{World, undefined, ◌>>=◌, ◌>>◌}
use imageglass_ithmb_plugin.Logging.{with_core, get_host_api, if_core}
use imageglass_ithmb_plugin.Codec.{
  log_byte, utf8_lead, scan_utf8, from_utf8_unchecked, extension_text, log_extension,
  codec_can_handle_extension,
}
use imageglass_ithmb_plugin.Codec.LogText.{HasUnits, unfold_present}

-- A byte beyond ASCII at the end of the input is no UTF-8: it continues nothing, or nothing continues
-- it.
lone_byte : (u : ℕ) → 0x80 ≤ u → scan_utf8 0 0 0 0 (u ∷ []) ≡ none
unfolding scan_utf8 utf8_lead
lone_byte u h = ground arith

last_byte :
    (a : List ℕ) (u : ℕ) → All (λ b. b < 0x80) a → 0x80 ≤ u → scan_utf8 0 0 0 0 (a ++ u ∷ []) ≡ none
unfolding scan_utf8
last_byte [] u h large = lone_byte u large
last_byte (b ∷ a) u h large = rw (last_byte a u h.1 large, lt→ltb b 0x80 h.0) refl

shown_bytes :
    (a : List ℕ) (u k : ℕ)
    → All (λ b. b < 0x80) a
    → u < 0x100
    → length (a ++ u ∷ []) ≤ k
    → map log_byte (take k (a ++ u ∷ [])) ≡ a ++ u ∷ []
shown_bytes [] u zero h small le = absurd (omega (arith, le))
shown_bytes [] u (suc zero) h small le = rw (lt→ltb u 256 small) refl
shown_bytes [] u (suc (suc k)) h small le = rw (lt→ltb u 256 small) refl
shown_bytes (b ∷ a) u zero h small le = absurd (omega (arith, le))
shown_bytes (b ∷ a) u (suc k) h small le =
    rw (shown_bytes a u k h.1 small (omega (arith, le)), lt→ltb b 256 (omega (arith, h.0))) refl

text_undefined :
    (ext : IgStringRef) (a : List ℕ) (u : ℕ) (w : World)
    → HasUnits ext (a ++ u ∷ [])
    → All (λ b. b < 0x80) a
    → 0x80 ≤ u
    → u < 0x100
    → length (a ++ u ∷ []) ≤ 32
    → extension_text ext w ≡ undefined
unfolding extension_text from_utf8_unchecked
text_undefined ext a u w h ascii large small short =
    let (present, read) = unfold_present ext (a ++ u ∷ []) w h in
    rw
      (
        extension_text,
        present,
        ◌>>=◌,
        read,
        from_utf8_unchecked,
        shown_bytes a u 32 ascii small short,
        last_byte a u ascii large,
      )
      refl

-- When the host has a core table, and an extension of at most 32 units is ASCII but for its last
-- unit, which lies in 0x80..0xff, the call has undefined behaviour.
pub codec_can_handle_extension-undefined :
    (ext : IgStringRef) (a : List ℕ) (u : ℕ) (w : World) (api : IgHostApi) (core : IgHostCoreApi)
    → HasUnits ext (a ++ u ∷ [])
    → All (λ b. b < 0x80) a
    → 0x80 ≤ u
    → u < 0x100
    → length (a ++ u ∷ []) ≤ 32
    → w.host_api ≡ some (ref api)
    → api.core ≡ ref core
    → codec_can_handle_extension ext w ≡ undefined
unfolding codec_can_handle_extension log_extension with_core
codec_can_handle_extension-undefined ext a u w api core h ascii large small short hosted has_core =
    rw
      (
        codec_can_handle_extension,
        log_extension,
        with_core,
        ◌>>◌,
        ◌>>=◌,
        get_host_api,
        hosted,
        if_core,
        has_core,
        text_undefined ext a u (record w { host_api = some (ref (record api { core = ref core })) })
            h ascii large small short,
      )
      refl
