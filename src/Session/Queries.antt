-- ===== src/Session/Queries.antt =====
-- The queries of a session: each writes one slot of the host at most, or the log, and leaves blocks,
-- structs and registry alone.
use mathlib.Core.Path.{subst}
use imageglass_ithmb_plugin.Prelude.{ℕ, inl, inr, Bool-cases, Option-cases, ◌≡◌, refl, ◌==◌}
use imageglass_ithmb_plugin.Prelude.{codes}
use imageglass_ithmb_plugin.Prelude.Int.{ℤ, pos, eqb_ℤ}
use imageglass_ithmb_plugin.Logging.Methods
use imageglass_ithmb_plugin.Logging.{LogLevel}
use imageglass_ithmb_plugin.Logging.Effect.{OnlyLogs, IsHosted, log-OnlyLogs, with_core-OnlyLogs}
use imageglass_ithmb_plugin.Types.{IgStatus, IgCodecApi, IgCodecCapability, Ptr, null, ref}
use imageglass_ithmb_plugin.World.{World, Outcome, catch_unwind_or, ◌>>=◌, ◌>>◌, done, update}
use imageglass_ithmb_plugin.Plugin.{plugin_get_codec, plugin_shutdown}
use imageglass_ithmb_plugin.Plugin.Entry.{ig_plugin_get_api-Answers}
use imageglass_ithmb_plugin.Codec.{codec_get_capability}
use imageglass_ithmb_plugin.Codec.Matching.{codec_can_handle_extension-Decides}
use imageglass_ithmb_plugin.Codec.Metadata.{codec_load_metadata-LoadEnds}
use imageglass_ithmb_plugin.Decode.Contract.{IsSound}
use imageglass_ithmb_plugin.Session.Steps.{
  Query, loads, matches, enters, asks_capability, asks_codec, shuts_down,
}
use imageglass_ithmb_plugin.Session.Kept.{
  Untouched, Untouched-same, metadata-Untouched, matched-Untouched, answered-Untouched,
  logged-Untouched,
}

-- How a query ends: at most one slot of the host is written.
pub data FillsSlot (w : World) (o : Outcome IgStatus) : Type 0 where
  answers : (status : IgStatus) → o ≡ done status w → FillsSlot w o
  fills_capability :
      (slots : ℕ → Ptr IgCodecCapability)
      → o ≡ done IgStatus.ok (record w { capability_slots = slots })
      → FillsSlot w o
  fills_codec :
      (slots : ℕ → Ptr IgCodecApi)
      → o ≡ done IgStatus.ok (record w { codec_slots = slots })
      → FillsSlot w o

pub slot_filled-Untouched :
    (w w' : World) (o : Outcome IgStatus) (status : IgStatus)
    → FillsSlot w o
    → o ≡ done status w'
    → IsSound w
    → Untouched w w'
slot_filled-Untouched w w' o status (answers st q) e s =
    let same : w ≡ w' = cc (q, e) in subst (Untouched w) same (Untouched-same w s)
slot_filled-Untouched w w' o status (fills_capability slots q) e s =
    let same : record w { capability_slots = slots } ≡ w' = cc (q, e) in
    subst (Untouched w) same
      (record { registry = refl; heap = refl; structs = refl; hosted = s.hosted })
slot_filled-Untouched w w' o status (fills_codec slots q) e s =
    let same : record w { codec_slots = slots } ≡ w' = cc (q, e) in
    subst (Untouched w) same
      (record { registry = refl; heap = refl; structs = refl; hosted = s.hosted })

pub codec_get_capability-FillsSlot :
    (slot : ℕ) (w : World) → FillsSlot w (codec_get_capability slot w)
unfolding codec_get_capability
codec_get_capability-FillsSlot slot w = elim (Bool-cases (slot == 0)) [
  | inl z ↦ answers IgStatus.invalid_arg (rw (catch_unwind_or, z) refl)
  | inr nz ↦ elim (Option-cases w.capability) [
    | inl e ↦ answers IgStatus.internal (rw (catch_unwind_or, nz, ◌>>=◌, e) refl)
    | inr (c, e) ↦
        fills_capability (update w.capability_slots slot (ref c))
          (rw (catch_unwind_or, nz, ◌>>=◌, e) refl)
  ]
]

pub plugin_get_codec-FillsSlot :
    (index : ℤ) (slot : ℕ) (w : World) → FillsSlot w (plugin_get_codec index slot w)
unfolding plugin_get_codec
plugin_get_codec-FillsSlot index slot w = elim (Bool-cases (slot == 0)) [
  | inl z ↦ answers IgStatus.invalid_arg (rw (catch_unwind_or, z) refl)
  | inr nz ↦ elim (Bool-cases (eqb_ℤ index (pos 0))) [
    | inr other ↦
        fills_codec (update w.codec_slots slot null)
          (rw (catch_unwind_or, nz, other, ◌>>◌, ◌>>=◌) refl)
    | inl first ↦ elim (Option-cases w.plugin_state) [
      | inl e ↦ answers IgStatus.internal (rw (catch_unwind_or, nz, first, ◌>>=◌, e) refl)
      | inr (state, e) ↦
          fills_codec (update w.codec_slots slot (ref state.codec_api))
            (rw (catch_unwind_or, nz, first, ◌>>=◌, e) refl)
    ]
  ]
]

plugin_shutdown-OnlyLogs : (w : World) → IsHosted w → OnlyLogs w (plugin_shutdown w)
unfolding plugin_shutdown
plugin_shutdown-OnlyLogs w h =
    let (calls, e) =
      with_core-OnlyLogs (λ core. Methods.info (Methods.new core) (codes "ithmb-codec: shutdown")) w
        h λ core. log-OnlyLogs core LogLevel.info (codes "ithmb-codec: shutdown") w in
    (calls, rw (catch_unwind_or, e) refl)

pub shut_down-Untouched :
    (w w' : World) → plugin_shutdown w ≡ done tt w' → IsSound w → Untouched w w'
shut_down-Untouched w w' e s =
    let (calls, q) = plugin_shutdown-OnlyLogs w s.hosted in
    logged-Untouched w w' calls (cc (q, e)) s

pub Query-Untouched : (w w' : World) → Query w w' → IsSound w → Untouched w w'
Query-Untouched w w' (loads env path info status readable e) s =
    metadata-Untouched env path info status w w' e
      (codec_load_metadata-LoadEnds env path info w readable) s
Query-Untouched w w' (matches ext xs answer units loggable exts e) s =
    matched-Untouched ext xs answer w w' e
      (codec_can_handle_extension-Decides ext xs w units loggable s.hosted exts) s
Query-Untouched w w' (enters version v h table e) s =
    answered-Untouched version v h table w w' e (ig_plugin_get_api-Answers version v h w) s
Query-Untouched w w' (asks_capability slot status e) s =
    slot_filled-Untouched w w' (codec_get_capability slot w) status
      (codec_get_capability-FillsSlot slot w) e s
Query-Untouched w w' (asks_codec index slot status e) s =
    slot_filled-Untouched w w' (plugin_get_codec index slot w) status
      (plugin_get_codec-FillsSlot index slot w) e s
Query-Untouched w w' (shuts_down e) s = shut_down-Untouched w w' e s
