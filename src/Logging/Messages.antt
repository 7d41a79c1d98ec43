-- ===== src/Logging/Messages.antt =====
-- src/logging.rs: the logging block and a message as calls of the stored log function.
use imageglass_ithmb_plugin.Prelude.{ℕ, ◌≡◌, ◌⊎◌, refl, Option, none, some}
use imageglass_ithmb_plugin.Prelude.Int.{pos}
use imageglass_ithmb_plugin.Types.{IgStringRef, Ptr, null, ref, IgHostApi, IgHostCoreApi}
use imageglass_ithmb_plugin.World.{World, done, undefined, Run, ◌>>=◌}
use imageglass_ithmb_plugin.Strings.{Str, utf16_to_string}
use imageglass_ithmb_plugin.Logging.Effect.{with_core_stored}
use imageglass_ithmb_plugin.Logging.{
  LogLevel, level_code, log, send, if_core, with_core, get_host_api,
}
use imageglass_ithmb_plugin.Logging.History.{log_rules, Sent-same, Sends, Logs}

-- Where the core table is the stored one, a message at one of the two levels is one of its calls.
abbrev pub HasCore : World → IgHostApi → IgHostCoreApi → Type 0
HasCore w api core = (w.host_api ≡ some (ref api)) × (api.core ≡ ref core)

abbrev pub IsUsed : LogLevel → Type 0
IsUsed level = (level_code level ≡ pos 0) ⊎ (level_code level ≡ pos 2)

Sends-send :
    (w : World) (api : IgHostApi) (core : IgHostCoreApi) (f : Option ℕ) (level : LogLevel)
    (message : Str)
    → HasCore w api core
    → core.log ≡ f
    → IsUsed level
    → Sends w (send f level message w)
unfolding send
Sends-send w api core none level message h e u = Sent-same w w refl refl
Sends-send w api core (some f) level message h e u = record {
  hosted = refl;
  messages = _;
  extends = refl;
  each =
      (record { api = api; core = core; hosted = h.0; cored = h.1; function = e; level = u }, tt);
}

pub Sends-log :
    (w : World) (api : IgHostApi) (core : IgHostCoreApi) (level : LogLevel) (message : Str)
    → HasCore w api core
    → IsUsed level
    → Sends w (log (record { host = ref core }) level message w)
unfolding log
Sends-log w api core level message h u = Sends-send w api core core.log level message h refl u

if_core-Sends :
    (w : World) (api : IgHostApi) (p : Ptr IgHostCoreApi)
    (body : Ptr IgHostCoreApi → Run (Unit {0}))
    → api.core ≡ p
    → ((core : IgHostCoreApi) → api.core ≡ ref core → Sends w (body (ref core) w))
    → Sends w (if_core p body w)
unfolding if_core
if_core-Sends w api null body e b = Sent-same w w refl refl
if_core-Sends w api (ref core) body e b = b core e

with_core_unhosted :
    (body : Ptr IgHostCoreApi → Run (Unit {0})) (w : World)
    → w.host_api ≡ none
    → with_core body w ≡ done tt w
unfolding with_core
with_core_unhosted body w e = rw (with_core, ◌>>=◌, get_host_api, e)

with_core_null :
    (body : Ptr IgHostCoreApi → Run (Unit {0})) (w : World)
    → w.host_api ≡ some null
    → with_core body w ≡ undefined
unfolding with_core
with_core_null body w e = rw (with_core, ◌>>=◌, get_host_api, e)

with_core-Sends :
    (w : World) (h : Option (Ptr IgHostApi)) (body : Ptr IgHostCoreApi → Run (Unit {0}))
    → w.host_api ≡ h
    → ((api : IgHostApi) (core : IgHostCoreApi) → HasCore w api core → Sends w (body (ref core) w))
    → Sends w (with_core body w)
with_core-Sends w none body e b = rw (with_core_unhosted body w e) (Sent-same w w refl refl)
with_core-Sends w (some null) body e b = rw (with_core_null body w e) tt
with_core-Sends w (some (ref api)) body e b =
    rw (with_core_stored api body w e)
      (if_core-Sends w api api.core body refl λ core q. b api core (e, q))

-- A logging block logs if its body does with the stored core table.
pub Logs-with_core :
    (body : Ptr IgHostCoreApi → Run (Unit {0}))
    → ((w : World) (api : IgHostApi) (core : IgHostCoreApi)
        → HasCore w api core
        → Sends w (body (ref core) w))
    → Logs (with_core body)
Logs-with_core body b = record { sends = λ w. with_core-Sends w w.host_api body refl (b w) }

pub utf16_to_string-Logs : (path : IgStringRef) → Logs (utf16_to_string path)
unfolding utf16_to_string
utf16_to_string-Logs path = search log_rules
