-- ===== src/Session/Kept.antt =====
-- Each call of a session keeps the registry in step with the live blocks.
use mathlib.Core.Path.{subst}
use imageglass_ithmb_plugin.Prelude.{ℕ, List, Option, ◌≢◌, ◌≡◌, some, none, true, refl}
use imageglass_ithmb_plugin.Prelude.Int.{ℤ}
use imageglass_ithmb_plugin.Logging.Effect.{IsHosted}
use imageglass_ithmb_plugin.Types.{IgStatus, IgStringRef, Ptr, null, ref, IgHostApi, IgPluginApi}
use imageglass_ithmb_plugin.World.{World, LogCall, done}
use imageglass_ithmb_plugin.Registry.{BufferRegistry, new}
use imageglass_ithmb_plugin.Env.{Env}
use imageglass_ithmb_plugin.Strings.{Str}
use imageglass_ithmb_plugin.State.{get_or_init, initialized}
use imageglass_ithmb_plugin.Plugin.{ig_plugin_get_api}
use imageglass_ithmb_plugin.Plugin.Entry.{Answers, accepted, refused, entered}
use imageglass_ithmb_plugin.Codec.{codec_load_metadata, codec_can_handle_extension}
use imageglass_ithmb_plugin.Codec.Matching.{Decides, handled, unhandled}
use imageglass_ithmb_plugin.Codec.Profiles.{with_info}
use imageglass_ithmb_plugin.Codec.Metadata.{LoadEnds, fills, refuses}
use imageglass_ithmb_plugin.Decode.Contract.{IsSound, in_step}

abbrev poison : BufferRegistry → BufferRegistry
poison r = record r { poisoned = true }

pub poisoned-IsSound :
    (w : World) (r : BufferRegistry)
    → w.buffer_registry ≡ some r
    → IsSound w
    → IsSound (record w { buffer_registry = some (poison r) })
poisoned-IsSound w r e s =
    let same : s.registry ≡ r = cc (s.consistent.initialised, e) in
    subst (λ (q : BufferRegistry). IsSound (record w { buffer_registry = some (poison q) })) same
      (record {
        registry = poison s.registry;
        consistent = record {
          initialised = refl;
          valid = record {
            distinct = s.consistent.valid.distinct;
            written = s.consistent.valid.written;
          };
          distinct = s.consistent.distinct;
          same = s.consistent.same;
          no_null = s.consistent.no_null;
        };
        hosted = s.hosted;
      })

-- A state with the same registry, blocks and structs, and no null host table.
pub record Untouched (w w' : World) : Type 0 where
  pub registry : w'.buffer_registry ≡ w.buffer_registry
  pub heap : w'.heap ≡ w.heap
  pub structs : w'.pixel_buffers ≡ w.pixel_buffers
  pub hosted : IsHosted w'

pub Untouched-IsSound : (w w' : World) → IsSound w → Untouched w w' → IsSound w'
Untouched-IsSound w w' s u = record {
  registry = s.registry;
  consistent = in_step s.registry w w' u.registry u.heap s.consistent;
  hosted = u.hosted;
}

pub Untouched-same : (w : World) → IsSound w → Untouched w w
Untouched-same w s = record { registry = refl; heap = refl; structs = refl; hosted = s.hosted }

pub metadata-Untouched :
    (env : Env) (path : IgStringRef) (info : ℕ) (status : IgStatus) (w w' : World)
    → codec_load_metadata env path info w ≡ done status w'
    → LoadEnds env path info w (codec_load_metadata env path info w)
    → IsSound w
    → Untouched w w'
metadata-Untouched env path info status w w' e (fills f) s =
    let same : with_info w info f.width f.height f.size ≡ w' = cc (f.ends, e) in
    subst (Untouched w) same
      (record { registry = refl; heap = refl; structs = refl; hosted = s.hosted })
metadata-Untouched env path info status w w' e (refuses st bad q) s =
    let same : w ≡ w' = cc (q, e) in subst (Untouched w) same (Untouched-same w s)

pub logged-Untouched :
    (w w' : World) (calls : List LogCall)
    → record w { log_calls = calls } ≡ w'
    → IsSound w
    → Untouched w w'
logged-Untouched w w' calls same s =
    subst (Untouched w) same
      (record { registry = refl; heap = refl; structs = refl; hosted = s.hosted })

pub matched-Untouched :
    (ext : IgStringRef) (xs : List ℕ) (answer : ℤ) (w w' : World)
    → codec_can_handle_extension ext w ≡ done answer w'
    → Decides xs w (codec_can_handle_extension ext w)
    → IsSound w
    → Untouched w w'
matched-Untouched ext xs answer w w' e (handled known calls q) s =
    logged-Untouched w w' calls (cc (q, e)) s
matched-Untouched ext xs answer w w' e (unhandled unknown calls q) s =
    logged-Untouched w w' calls (cc (q, e)) s

hosted_first :
    (o : Option (Ptr IgHostApi)) (api : IgHostApi)
    → o ≢ some null
    → get_or_init o (ref api) ≢ some null
hosted_first none api h e = cc e
hosted_first (some p) api h e = h e

registry_stays :
    (w : World) (r : BufferRegistry)
    → w.buffer_registry ≡ some r
    → get_or_init w.buffer_registry new ≡ w.buffer_registry
registry_stays w r e = rw e refl

entered-Untouched :
    (version : Str) (api : IgHostApi) (w : World) → IsSound w → Untouched w (entered version api w)
unfolding initialized
entered-Untouched version api w s = record {
  registry = registry_stays w s.registry s.consistent.initialised;
  heap = refl;
  structs = refl;
  hosted = hosted_first w.host_api api s.hosted;
}

pub answered-Untouched :
    (version : Str) (v : ℤ) (h : Ptr IgHostApi) (table : Ptr IgPluginApi) (w w' : World)
    → ig_plugin_get_api version v h w ≡ done table w'
    → Answers version v h w (ig_plugin_get_api version v h w)
    → IsSound w
    → Untouched w w'
answered-Untouched version v h table w w' e (accepted api c a) s =
    let same : entered version api w ≡ w' = cc (a.answers, e) in
    subst (Untouched w) same (entered-Untouched version api w s)
answered-Untouched version v h table w w' e (refused other q) s =
    let same : w ≡ w' = cc (q, e) in subst (Untouched w) same (Untouched-same w s)
