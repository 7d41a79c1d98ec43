-- ===== src/Codec/History.antt =====
-- src/codec.rs: what the queries add to the host's log.
use imageglass_ithmb_plugin.Prelude.{ℕ, inl, refl, ◌∙◌, List, [], ◌∷◌, codes, ◌++◌, ◌==◌}
use imageglass_ithmb_plugin.Prelude.Int.{ℤ, pos}
use imageglass_ithmb_plugin.Prelude.Machine.{as_usize}
use imageglass_ithmb_plugin.Types.{IgStatus, IgStringRef, IgCodecCapability, ref}
use imageglass_ithmb_plugin.World.{pure, modify, update, ◌>>=◌}
use imageglass_ithmb_plugin.Strings.{Str, is_absent}
use imageglass_ithmb_plugin.Env.{Env}
use imageglass_ithmb_plugin.FileIo.{read_ithmb_prefix}
use imageglass_ithmb_plugin.Logging.Methods
use imageglass_ithmb_plugin.Logging.{LogLevel, level_code}
use imageglass_ithmb_plugin.Logging.History.{
  log_rules, Logs-undefined, Logs, Sent-same, Sends-bind, Logs-bind, Logs-pure, Logs-ask, Logs-if,
  Logs-elim, Logs-result, Logs-from_raw_parts, Logs-catch_unwind_or,
}
use imageglass_ithmb_plugin.Logging.Messages.{Logs-with_core, Sends-log, utf16_to_string-Logs}
use imageglass_ithmb_plugin.Codec.{
  codec_get_capability, scan_utf8, from_utf8_unchecked, extension_text, log_extension, all_match,
  match_extensions, codec_can_handle_extension, first_dimensions, i32_from_be_bytes,
  fill_image_info, load_from_profile, load_prefix, codec_load_metadata,
}

slot_written-Logs :
    (cap : ℕ) (capability : IgCodecCapability)
    → Logs (
        modify
          (λ w. record w { capability_slots = update w.capability_slots cap (ref capability) }))
slot_written-Logs cap capability = record { sends = λ w. Sent-same w _ refl refl }

pub codec_get_capability-Logs : (cap : ℕ) → Logs (codec_get_capability cap)
unfolding codec_get_capability
codec_get_capability-Logs cap = Logs-catch_unwind_or IgStatus.internal _ (
    Logs-if (cap == 0) _ _ (Logs-pure IgStatus.invalid_arg) (
      Logs-bind _ _ (Logs-ask λ w. w.capability) λ stored.
        Logs-elim stored _ _ (Logs-pure IgStatus.internal) λ capability.
          Logs-bind _ _ (slot_written-Logs cap capability) λ _. Logs-pure IgStatus.ok))

from_utf8_unchecked-Logs : (bytes : List ℕ) → Logs (from_utf8_unchecked bytes)
unfolding from_utf8_unchecked
from_utf8_unchecked-Logs bytes = Logs-elim (scan_utf8 0 0 0 0 bytes) _ _ Logs-undefined Logs-pure

extension_text-Logs : (ext : IgStringRef) → Logs (extension_text ext)
unfolding extension_text
extension_text-Logs ext = search (log_rules, from_utf8_unchecked-Logs)

abbrev message : Str → Str
message shown = codes "ithmb-codec: can_handle_extension('" ++ shown ++ codes "')"

log_extension-Logs : (ext : IgStringRef) → Logs (log_extension ext)
unfolding log_extension level_code
log_extension-Logs ext = Logs-with_core _ λ w api core h.
    Sends-bind w (extension_text ext)
      (λ (shown : Str). Methods.info (Methods.new (ref core)) (message shown))
      ((extension_text-Logs ext).sends w)
      λ ext_str w' s.
        Sends-log w' api core LogLevel.info (message ext_str) (s.hosted ∙ h.0, h.1) (inl refl)

match_extensions-Logs :
    (exts : List IgStringRef) (length : ℤ) (input : List ℕ)
    → Logs (match_extensions exts length input)
unfolding match_extensions
match_extensions-Logs [] length input = Logs-pure (pos 0)
match_extensions-Logs (known ∷ exts) length input =
    Logs-if _ _ _ (match_extensions-Logs exts length input) (
      Logs-bind _ _ (Logs-from_raw_parts known.data_ptr (as_usize known.length)) λ known_slice.
        Logs-if (all_match input known_slice) _ _ (Logs-pure (pos 1))
          (match_extensions-Logs exts length input))

pub codec_can_handle_extension-Logs : (ext : IgStringRef) → Logs (codec_can_handle_extension ext)
unfolding codec_can_handle_extension
codec_can_handle_extension-Logs ext = Logs-catch_unwind_or (pos 0) _ (
    Logs-bind _ _ (log_extension-Logs ext) λ _. Logs-if (is_absent ext) _ _ (Logs-pure (pos 0)) (
      Logs-bind _ _ (Logs-ask λ w. w.plugin_extensions) λ stored.
        Logs-elim stored _ _ (Logs-pure (pos 0)) λ exts.
          Logs-bind _ _ (Logs-from_raw_parts ext.data_ptr (as_usize ext.length))
            λ input. match_extensions-Logs exts ext.length input))

fill_image_info-Logs :
    (info width height : ℕ) (size : ℤ) → Logs (fill_image_info info width height size)
unfolding fill_image_info
fill_image_info-Logs info width height size = record { sends = λ w. Sent-same w _ refl refl }

filled-Logs :
    (info width height : ℕ) (size : ℤ)
    → Logs (fill_image_info info width height size >>= λ _. pure IgStatus.ok)
filled-Logs info width height size = search (log_rules, fill_image_info-Logs)

load_from_profile-Logs :
    (env : Env) (info : ℕ) (prefix : ℤ) (file_size : ℕ)
    → Logs (load_from_profile env info prefix file_size)
unfolding load_from_profile
load_from_profile-Logs env info prefix file_size =
    Logs-elim env.load_builtin _ _ (Logs-pure IgStatus.internal) λ db.
      Logs-elim (db prefix) _ _ (Logs-pure IgStatus.not_implemented)
        λ profile. filled-Logs info _ _ _

load_prefix-Logs :
    (env : Env) (info : ℕ) (prefix_bytes : List ℕ) (file_size : ℕ)
    → Logs (load_prefix env info prefix_bytes file_size)
unfolding load_prefix
load_prefix-Logs env info prefix_bytes file_size =
    Logs-elim (first_dimensions (env.find_formats_by_id (i32_from_be_bytes prefix_bytes))) _ _
      (load_from_profile-Logs env info _ file_size) λ p. filled-Logs info p.0 p.1 _

pub codec_load_metadata-Logs :
    (env : Env) (path : IgStringRef) (info : ℕ) → Logs (codec_load_metadata env path info)
unfolding codec_load_metadata
codec_load_metadata-Logs env path info = Logs-catch_unwind_or IgStatus.internal _ (
    Logs-if (info == 0) _ _ (Logs-pure IgStatus.invalid_arg) (
      Logs-bind _ _ (utf16_to_string-Logs path) λ path_str.
        Logs-elim path_str _ _ (Logs-pure IgStatus.invalid_arg) λ p.
          Logs-result (read_ithmb_prefix env p) _ _ Logs-pure
            λ read. load_prefix-Logs env info read.0 read.1))
