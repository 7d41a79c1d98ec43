-- ===== src/Session/Messages.antt =====
-- The messages that a session of calls leaves in the host's log.
use mathlib.Core.Path.{subst}
use imageglass_ithmb_plugin.Prelude.{◌≡◌, some, refl}
use imageglass_ithmb_plugin.Prelude.Int.{ℤ}
use imageglass_ithmb_plugin.Types.{Ptr, ref, IgHostApi, IgPluginApi}
use imageglass_ithmb_plugin.World.{World, Outcome, done}
use imageglass_ithmb_plugin.Strings.{Str}
use imageglass_ithmb_plugin.State.{initialized}
use imageglass_ithmb_plugin.Logging.History.{Sends, Sent, Sent-same, Sent-trans}
use imageglass_ithmb_plugin.Plugin.{ig_plugin_get_api}
use imageglass_ithmb_plugin.Plugin.Entry.{
  Answers, accepted, refused, entered, ig_plugin_get_api-Answers,
}
use imageglass_ithmb_plugin.Plugin.History.{plugin_get_codec-Logs, plugin_shutdown-Logs}
use imageglass_ithmb_plugin.Codec.History.{
  codec_get_capability-Logs, codec_load_metadata-Logs, codec_can_handle_extension-Logs,
}
use imageglass_ithmb_plugin.Decode.History.{
  codec_decode_static_raster-Logs, codec_free_pixel_buffer-Logs,
}
use imageglass_ithmb_plugin.Session.Steps.{
  Query, Step, queries, decodes, frees, loads, matches, enters, asks_capability, asks_codec,
  shuts_down, writes, poisons, Reach, here, next,
}

ended-Sent {ℓ} :
    {A : Type ℓ} (w w' : World) (o : Outcome A) (a : A) → Sends w o → o ≡ done a w' → Sent w w'
ended-Sent w w' o a s e = subst (Sends w) e s

-- A table that is stored stays, whatever an entry call offers.
entered-Sent :
    (version : Str) (offered api : IgHostApi) (w : World)
    → w.host_api ≡ some (ref api)
    → Sent w (entered version offered w)
unfolding initialized
entered-Sent version offered api w h = Sent-same w _ (rw h refl) refl

entry-Sent :
    (version : Str) (v : ℤ) (h : Ptr IgHostApi) (table : Ptr IgPluginApi) (api : IgHostApi)
    (w w' : World)
    → w.host_api ≡ some (ref api)
    → ig_plugin_get_api version v h w ≡ done table w'
    → Answers version v h w (ig_plugin_get_api version v h w)
    → Sent w w'
entry-Sent version v h table api w w' stored e (accepted offered c a) =
    let same : entered version offered w ≡ w' = cc (a.answers, e) in
    subst (Sent w) same (entered-Sent version offered api w stored)
entry-Sent version v h table api w w' stored e (refused other q) =
    let same : w' ≡ w = cc (q, e) in rw same (Sent-same w w refl refl)

Query-Sent : (api : IgHostApi) (w w' : World) → w.host_api ≡ some (ref api) → Query w w' → Sent w w'
Query-Sent api w w' h (loads env path info status readable e) =
    ended-Sent w w' _ status ((codec_load_metadata-Logs env path info).sends w) e
Query-Sent api w w' h (matches ext xs answer units loggable exts e) =
    ended-Sent w w' _ answer ((codec_can_handle_extension-Logs ext).sends w) e
Query-Sent api w w' h (enters version v offered table e) =
    entry-Sent version v offered table api w w' h e (ig_plugin_get_api-Answers version v offered w)
Query-Sent api w w' h (asks_capability slot status e) =
    ended-Sent w w' _ status ((codec_get_capability-Logs slot).sends w) e
Query-Sent api w w' h (asks_codec index slot status e) =
    ended-Sent w w' _ status ((plugin_get_codec-Logs index slot).sends w) e
Query-Sent api w w' h (shuts_down e) = ended-Sent w w' _ tt (plugin_shutdown-Logs.sends w) e

Step-Sent : (api : IgHostApi) (w w' : World) → w.host_api ≡ some (ref api) → Step w w' → Sent w w'
Step-Sent api w w' h (decodes env path frame_index buffer status sane readable e) =
    ended-Sent w w' _ status ((codec_decode_static_raster-Logs env path frame_index buffer).sends w)
      e
Step-Sent api w w' h (frees buffer e) =
    ended-Sent w w' _ tt ((codec_free_pixel_buffer-Logs buffer).sends w) e
Step-Sent api w w' h (writes slot b e) = rw e (Sent-same w _ refl refl)
Step-Sent api w w' h (poisons r q e) = rw e (Sent-same w _ refl refl)
Step-Sent api w w' h (queries q) = Query-Sent api w w' h q

-- From a state in which a host table is stored, a session leaves that table stored and only adds
-- to the log: each new message is a call of the log function of that table, at level 0 or 2.
pub Reach-Sent :
    (api : IgHostApi) (w w' : World) → w.host_api ≡ some (ref api) → Reach w w' → Sent w w'
Reach-Sent api w w' h here = Sent-same w w refl refl
Reach-Sent api w w' h (next {v = v} r step) =
    let before = Reach-Sent api w v h r in
    Sent-trans w v w' before (Step-Sent api v w' (cc (before.hosted, h)) step)
