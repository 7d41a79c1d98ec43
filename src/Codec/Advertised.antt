-- ===== src/Codec/Advertised.antt =====
-- src/codec.rs and src/state.rs: the capability that the host gets, and the extensions in it.
use imageglass_ithmb_plugin.Prelude.{
  ℕ, ◌≡◌, ◌≢◌, refl, inl, inr, [], ◌∷◌, List, none, some, length, take, arith, All, ==-false, ◌<◌,
}
use imageglass_ithmb_plugin.Prelude.Int.{pos}
use imageglass_ithmb_plugin.Types.{IgStatus, IgStringRef, IgCodecCapability, ref}
use imageglass_ithmb_plugin.World.{World, LogCall, Outcome, done, update}
use imageglass_ithmb_plugin.Strings.{Str}
use imageglass_ithmb_plugin.Logging.Effect.{IsHosted}
use imageglass_ithmb_plugin.State.{
  string_ref_of, ext_ithmb_data, ext_ipm_data, extensions_array, build_capability, init_extensions,
  init_plugin_state, initialized,
}
use imageglass_ithmb_plugin.Codec.{codec_get_capability, codec_can_handle_extension}
use imageglass_ithmb_plugin.Codec.LogText.{HasUnits, IsLoggable}
use imageglass_ithmb_plugin.Codec.Matching.{
  IsKnown, Decides, handled, unhandled, codec_can_handle_extension-Decides,
}

-- The plugin answers 1 for the extension.
abbrev pub Handles : World → IgStringRef → Type 0
Handles w ext =
    (calls : List LogCall) × (codec_can_handle_extension ext w
      ≡ done (pos 1) (record w { log_calls = calls }))

-- The answer to the capability query: a capability whose extensions are counted and are all handled.
pub record Advertises (w : World) (slot : ℕ) (o : Outcome IgStatus) : Type 0 where
  pub capability : IgCodecCapability
  pub extensions : List IgStringRef
  pub ends :
      o
      ≡ done IgStatus.ok
          (record w { capability_slots = update w.capability_slots slot (ref capability) })
  pub listed : capability.decode_extensions ≡ ref extensions
  pub counted : capability.decode_extension_count ≡ pos (length extensions)
  pub each : All (Handles w) extensions

own_extension :
    (d : List ℕ) (w : World)
    → HasUnits (string_ref_of d) d
    → All (λ (u : ℕ). u < 0x80) (take 32 d)
    → IsKnown d
    → IsHosted w
    → w.plugin_extensions ≡ some extensions_array
    → Handles w (string_ref_of d)
own_extension d w h ascii known hosted exts = decided (
    codec_can_handle_extension-Decides (string_ref_of d) d w h (loggable (take 32 d) ascii) hosted
      exts)
  where
    loggable : (s : List ℕ) → All (λ (u : ℕ). u < 0x80) s → All IsLoggable s
    loggable [] k = tt
    loggable (u ∷ s) k = (inl k.0, loggable s k.1)

    decided :
        Decides d w (codec_can_handle_extension (string_ref_of d) w) → Handles w (string_ref_of d)
    decided (handled k calls e) = (calls, e)
    decided (unhandled k calls e) = absurd (k known)

ithmb-HasUnits : HasUnits (string_ref_of ext_ithmb_data) ext_ithmb_data
ithmb-HasUnits = record {
  units = ext_ithmb_data;
  n = 6;
  located = refl;
  counted = refl;
  positive = omega arith;
  small = omega arith;
  readable = omega arith;
  shown = refl;
}

ipm-HasUnits : HasUnits (string_ref_of ext_ipm_data) ext_ipm_data
ipm-HasUnits = record {
  units = ext_ipm_data;
  n = 4;
  located = refl;
  counted = refl;
  positive = omega arith;
  small = omega arith;
  readable = omega arith;
  shown = refl;
}

query_ends :
    (w : World) (slot : ℕ) (c : IgCodecCapability)
    → slot ≢ 0
    → w.capability ≡ some c
    → codec_get_capability slot w
      ≡ done IgStatus.ok (record w { capability_slots = update w.capability_slots slot (ref c) })
unfolding codec_get_capability
query_ends w slot c h e = rw (codec_get_capability, ==-false _ _ h, e) refl

-- In a process whose extension list and capability are not yet made, with no null host table, after
-- initialization: the capability query with a writable slot returns `Ok` and a capability that counts
-- its extensions, and the plugin handles each of them.
pub codec_get_capability-Advertises :
    (version : Str) (w : World) (slot : ℕ)
    → slot ≢ 0
    → IsHosted w
    → w.plugin_extensions ≡ none
    → w.capability ≡ none
    → Advertises (initialized version w) slot (codec_get_capability slot (initialized version w))
unfolding initialized build_capability
codec_get_capability-Advertises version w slot h hosted unset unbuilt =
    let w' = initialized version w in
    let c = build_capability (init_plugin_state version (init_extensions w)) in
    let exts : w'.plugin_extensions ≡ some extensions_array = rw unset refl in
    record {
      capability = c;
      extensions = extensions_array;
      ends = query_ends w' slot c h (rw unbuilt refl);
      listed = rw unset refl;
      counted = refl;
      each = (
        own_extension ext_ithmb_data w' ithmb-HasUnits (omega arith) (inl refl) hosted exts,
        (own_extension ext_ipm_data w' ipm-HasUnits (omega arith) (inr refl) hosted exts, tt),
      );
    }
