-- ===== src/Logging/Effect.antt =====
-- src/logging.rs: what a log message can change.
use imageglass_ithmb_plugin.Prelude.{◌≡◌, ◌≢◌, ℕ, refl, ◌∙◌, List, Option, none, some}
use imageglass_ithmb_plugin.Types.{Ptr, null, ref, IgHostApi, IgHostCoreApi}
use imageglass_ithmb_plugin.World.{World, LogCall, Outcome, done, Run, ◌>>=◌}
use imageglass_ithmb_plugin.Strings.{Str}
use imageglass_ithmb_plugin.Logging.{LogLevel, log, send, if_core, with_core, get_host_api}

-- A host API that is stored is not the null pointer.
abbrev pub IsHosted : World → Type 0
IsHosted w = w.host_api ≢ some null

-- A run that returns, and has changed nothing but the record of log calls.
abbrev pub OnlyLogs : World → Outcome (Unit {0}) → Type 0
OnlyLogs w o = (calls : List LogCall) × (o ≡ done tt (record w { log_calls = calls }))

send-OnlyLogs :
    (f : Option ℕ) (level : LogLevel) (message : Str) (w : World)
    → OnlyLogs w (send f level message w)
unfolding send
send-OnlyLogs none level message w = (w.log_calls, refl)
send-OnlyLogs (some f) level message w = (_, refl)

pub log-OnlyLogs :
    (h : Ptr IgHostCoreApi) (level : LogLevel) (message : Str) (w : World)
    → OnlyLogs w (log (record { host = h }) level message w)
unfolding log
log-OnlyLogs null level message w = (w.log_calls, refl)
log-OnlyLogs (ref core) level message w = send-OnlyLogs core.log level message w

if_core-OnlyLogs :
    (core : Ptr IgHostCoreApi) (body : Ptr IgHostCoreApi → Run (Unit {0})) (w : World)
    → ((c : Ptr IgHostCoreApi) → OnlyLogs w (body c w))
    → OnlyLogs w (if_core core body w)
unfolding if_core
if_core-OnlyLogs null body w b = (w.log_calls, refl)
if_core-OnlyLogs (ref core) body w b = b (ref core)

pub with_core_stored :
    (api : IgHostApi) (body : Ptr IgHostCoreApi → Run (Unit {0})) (w : World)
    → w.host_api ≡ some (ref api)
    → with_core body w ≡ if_core api.core body w
unfolding with_core
with_core_stored api body w e = rw (with_core, ◌>>=◌, get_host_api, e)

with_core_at :
    (api : Option (Ptr IgHostApi)) (body : Ptr IgHostCoreApi → Run (Unit {0})) (w : World)
    → w.host_api ≡ api
    → api ≢ some null
    → ((core : Ptr IgHostCoreApi) → OnlyLogs w (body core w))
    → OnlyLogs w (with_core body w)
unfolding with_core
with_core_at none body w e h b = (w.log_calls, rw (with_core, ◌>>=◌, get_host_api, e))
with_core_at (some null) body w e h b = absurd (h refl)
with_core_at (some (ref api)) body w e h b =
    let (calls, p) = if_core-OnlyLogs api.core body w b in
    (calls, with_core_stored api body w e ∙ p)

-- A logging block of the code returns, and changes nothing but the record of log calls.
pub with_core-OnlyLogs :
    (body : Ptr IgHostCoreApi → Run (Unit {0})) (w : World)
    → IsHosted w
    → ((core : Ptr IgHostCoreApi) → OnlyLogs w (body core w))
    → OnlyLogs w (with_core body w)
with_core-OnlyLogs body w = with_core_at w.host_api body w refl
