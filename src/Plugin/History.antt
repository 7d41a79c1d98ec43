-- ===== src/Plugin/History.antt =====
-- src/lib.rs: what the codec query and the shutdown add to the host's log.
use imageglass_ithmb_plugin.Prelude.{ℕ, inl, refl, ◌==◌}
use imageglass_ithmb_plugin.Prelude.Int.{ℤ}
use imageglass_ithmb_plugin.Types.{IgStatus, IgCodecApi, Ptr, null, ref}
use imageglass_ithmb_plugin.World.{modify, update}
use imageglass_ithmb_plugin.Logging.{LogLevel, level_code}
use imageglass_ithmb_plugin.Logging.History.{
  Logs, Sent-same, Logs-bind, Logs-pure, Logs-ask, Logs-if, Logs-elim, Logs-catch_unwind_or,
}
use imageglass_ithmb_plugin.Logging.Messages.{Logs-with_core, Sends-log}
use imageglass_ithmb_plugin.Plugin.{plugin_get_codec, plugin_shutdown}

slot_written-Logs :
    (slot : ℕ) (codec : Ptr IgCodecApi)
    → Logs (modify (λ w. record w { codec_slots = update w.codec_slots slot codec }))
slot_written-Logs slot codec = record { sends = λ w. Sent-same w _ refl refl }

pub plugin_get_codec-Logs : (index : ℤ) (codec : ℕ) → Logs (plugin_get_codec index codec)
unfolding plugin_get_codec
plugin_get_codec-Logs index codec = Logs-catch_unwind_or IgStatus.internal _ (
    Logs-if (codec == 0) _ _ (Logs-pure IgStatus.invalid_arg) (
      Logs-if _ _ _ (Logs-bind _ _ (slot_written-Logs codec null) λ _. Logs-pure IgStatus.ok) (
        Logs-bind _ _ (Logs-ask λ w. w.plugin_state) λ stored.
          Logs-elim stored _ _ (Logs-pure IgStatus.internal) λ state.
            Logs-bind _ _ (slot_written-Logs codec (ref state.codec_api))
              λ _. Logs-pure IgStatus.ok)))

pub plugin_shutdown-Logs : Logs plugin_shutdown
unfolding plugin_shutdown level_code
plugin_shutdown-Logs =
    Logs-catch_unwind_or tt _
      (Logs-with_core _ λ w api core h. Sends-log w api core LogLevel.info _ h (inl refl))
