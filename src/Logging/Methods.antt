-- ===== src/Logging/Methods.antt =====
-- src/logging.rs: the constructor of `Logger`, its convenience methods and the macros, which are
-- `log` at one level.
use imageglass_ithmb_plugin.Types.{Ptr, IgHostCoreApi}
use imageglass_ithmb_plugin.World.{Run}
use imageglass_ithmb_plugin.Strings.{Str}
use imageglass_ithmb_plugin.Logging.{Logger, LogLevel, log}

abbrev pub new : Ptr IgHostCoreApi → Logger
new host = record { host = host }

abbrev pub info : Logger → Str → Run (Unit {0})
info logger message = log logger LogLevel.info message

abbrev warn : Logger → Str → Run (Unit {0})
warn logger message = log logger LogLevel.warning message

abbrev error : Logger → Str → Run (Unit {0})
error logger message = log logger LogLevel.error message

-- The macros, with the message that `format!` has made.
abbrev log_info : Logger → Str → Run (Unit {0})
log_info logger message = log logger LogLevel.info message

abbrev log_warn : Logger → Str → Run (Unit {0})
log_warn logger message = log logger LogLevel.warning message

abbrev pub log_error : Logger → Str → Run (Unit {0})
log_error logger message = log logger LogLevel.error message
