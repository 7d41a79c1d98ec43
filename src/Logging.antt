-- ===== src/Logging.antt =====
-- src/logging.rs, and `get_host_api` of src/lib.rs.
pub mod Effect
pub mod History
pub mod Messages
pub mod Methods
use imageglass_ithmb_plugin.Prelude.{ℕ, [], ◌∷◌, ◌++◌, Option, none, some, Bool, true, false}
use imageglass_ithmb_plugin.Prelude.Int.{ℤ, pos}
use imageglass_ithmb_plugin.Types.{Ptr, null, ref, IgHostApi, IgHostCoreApi}
use imageglass_ithmb_plugin.World.{Run, pure, ◌>>=◌, ask, modify, deref}
use imageglass_ithmb_plugin.Strings.{Str, ig_string_ref_from_str}

pub data LogLevel : Type 0 where
  info warning error : LogLevel

unfoldable pub level_code : LogLevel → ℤ
level_code LogLevel.info = pos 0
level_code LogLevel.warning = pos 1
level_code LogLevel.error = pos 2

pub record Logger : Type 0 where
  pub host : Ptr IgHostCoreApi

unfoldable pub is_null : Logger → Bool
is_null l = elim l.host [ null ↦ true | ref core ↦ false ]

-- The call of the host's log function, if there is one.
unfoldable pub send : Option ℕ → LogLevel → Str → Run (Unit {0})
send none level message = pure tt
send (some f) level message = modify (λ w. record w {
  log_calls =
      w.log_calls
      ++ record {
        log_fn = f;
        level = level_code level;
        message = (ig_string_ref_from_str message).1;
      }
        ∷ [];
})

-- `Logger::log`: a null host or an absent log function drops the message.
unfoldable pub log : Logger → LogLevel → Str → Run (Unit {0})
unfolding send
log l level message = elim l.host [ null ↦ pure tt | ref core ↦ send core.log level message ]

unfoldable pub get_host_api : Run (Option IgHostApi)
get_host_api = do
  stored ← ask (λ w. w.host_api)
  elim stored [ none ↦ pure none | some p ↦ do api ← deref p; pure (some api) ]

-- `.filter(|api| !api.core.is_null())`, and the body of the `if let` behind it.
unfoldable pub if_core : Ptr IgHostCoreApi → (Ptr IgHostCoreApi → Run (Unit {0})) → Run (Unit {0})
if_core null body = pure tt
if_core (ref core) body = body (ref core)

-- `if let Some(api) = get_host_api().filter(|api| !api.core.is_null())`, with a body that is given
-- the core table.
unfoldable pub with_core : (Ptr IgHostCoreApi → Run (Unit {0})) → Run (Unit {0})
unfolding get_host_api if_core
with_core body = do api ← get_host_api; elim api [ none ↦ pure tt | some a ↦ if_core a.core body ]
