-- ===== src/Session.antt =====
-- The calls of src/decode.rs, src/codec.rs and src/lib.rs in any order.
pub mod Steps
pub mod Kept
pub mod Queries
pub mod Messages
pub mod Ledger
pub mod View
pub mod Owners
use mathlib.Core.Path.{subst}
use imageglass_ithmb_plugin.Prelude.{
  ℕ, List, Option, All, take, ◌≢◌, ◌≡◌, some, none, true, refl, arith, [], ◌∷◌, ◌==◌, length, ◌↔◌,
}
use imageglass_ithmb_plugin.Prelude.Int.{ℤ}
use imageglass_ithmb_plugin.Prelude.HashMap.{HashMap, get}
use imageglass_ithmb_plugin.Types.{
  IgStatus, IgStringRef, IgPixelBuffer, Ptr, null, ref, IgHostApi, IgPluginApi,
}
use imageglass_ithmb_plugin.World.{World, LogCall, Block, done, update}
use imageglass_ithmb_plugin.Registry.{BufferEntry, BufferRegistry, is_empty, len}
use imageglass_ithmb_plugin.Strings.Access.{IsReadable}
use imageglass_ithmb_plugin.Env.{Env}
use imageglass_ithmb_plugin.Strings.{Str}
use imageglass_ithmb_plugin.State.{get_or_init, extensions_array}
use imageglass_ithmb_plugin.State.Init.{initialized-IsSound}
use imageglass_ithmb_plugin.Plugin.{ig_plugin_get_api, plugin_get_codec}
use imageglass_ithmb_plugin.Plugin.Entry.{
  Answers, accepted, refused, entered, ig_plugin_get_api-Answers,
}
use imageglass_ithmb_plugin.Codec.{
  codec_get_capability, codec_load_metadata, codec_can_handle_extension,
}
use imageglass_ithmb_plugin.Codec.LogText.{HasUnits, IsLoggable}
use imageglass_ithmb_plugin.Codec.Matching.{
  Decides, handled, unhandled, codec_can_handle_extension-Decides,
}
use imageglass_ithmb_plugin.Codec.Profiles.{with_info}
use imageglass_ithmb_plugin.Codec.Metadata.{LoadEnds, fills, refuses, codec_load_metadata-LoadEnds}
use imageglass_ithmb_plugin.Decode.{codec_decode_static_raster, codec_free_pixel_buffer}
use imageglass_ithmb_plugin.Decode.Memory.{Tracks}
use imageglass_ithmb_plugin.Decode.Contract.{
  IsSound, IsSane, decode-IsSound, free-IsSound, same_memory-IsSound,
}
use imageglass_ithmb_plugin.Session.Steps.{
  Step, decodes, frees, loads, matches, enters, asks_capability, asks_codec, shuts_down, writes,
  poisons, queries, Reach, here, next,
}
use imageglass_ithmb_plugin.Session.Kept.{poisoned-IsSound, Untouched-IsSound}
use imageglass_ithmb_plugin.Session.Queries.{Query-Untouched}

pub Step-IsSound : (w w' : World) → Step w w' → IsSound w → IsSound w'
Step-IsSound w w' (decodes env path frame_index buffer status sane readable e) s =
    let (status', v, e', sound) = decode-IsSound env path frame_index buffer w sane readable s in
    let same : v ≡ w' = cc (e', e) in subst IsSound same sound
Step-IsSound w w' (frees buffer e) s =
    let (v, e', sound) = free-IsSound w buffer s in
    let same : v ≡ w' = cc (e', e) in subst IsSound same sound
Step-IsSound w w' (writes slot b e) s = rw e (
    same_memory-IsSound w (record w { pixel_buffers = update w.pixel_buffers slot b }) refl refl
      refl s)
Step-IsSound w w' (poisons r q e) s = rw e (poisoned-IsSound w r q s)
Step-IsSound w w' (queries q) s = Untouched-IsSound w w' s (Query-Untouched w w' q s)

pub Reach-IsSound : (w w' : World) → IsSound w → Reach w w' → IsSound w'
Reach-IsSound w w' s here = s
Reach-IsSound w w' s (next {v = v} r step) = Step-IsSound v w' step (Reach-IsSound w v s r)

-- A state from which every decode and every release returns.
pub record Serves (w : World) : Type 0 where
  pub sound : IsSound w
  pub decode_returns :
      (env : Env) (path : IgStringRef) (frame_index : ℤ) (buffer : ℕ)
      → IsSane env
      → IsReadable path
      → (status : IgStatus) × (v : World) × (codec_decode_static_raster env path frame_index buffer
            w
          ≡ done status v)
  pub free_returns : (buffer : ℕ) → (v : World) × (codec_free_pixel_buffer buffer w ≡ done tt v)

-- From a sound state, whatever decodes, releases, metadata loads, queries of extensions,
-- capability and codec, entry calls, shutdowns, host writes and lock poisonings follow (the
-- environment of each decode sane, the string references readable, the extensions loggable), the
-- state is sound: the registry tracks exactly the live blocks, with their sizes. In it every
-- decode (in a sane environment, with a readable path) and every release returns, so that no
-- address is freed that is not live.
pub Reach-Serves : (w w' : World) → IsSound w → Reach w w' → Serves w'
Reach-Serves w w' s r =
    let sound = Reach-IsSound w w' s r in
    record {
      sound = sound;
      decode_returns = λ env path frame_index buffer sane readable.
          let (status, v, e, later) =
            decode-IsSound env path frame_index buffer w' sane readable sound in
          (status, v, e);
      free_returns = λ buffer. let (v, e, later) = free-IsSound w' buffer sound in (v, e);
    }

no_live :
    (m : HashMap BufferEntry) (h : HashMap Block)
    → ((a : ℕ) → Tracks (get a m) (get a h))
    → (length m == 0) ≡ true
    → (a : ℕ) → get a h ≡ none
unfolding get
no_live [] h same empty a = ground (arith, same a)
no_live ((k, e) ∷ m) h same empty a = absurd (ground arith)

none_tracked :
    (m : HashMap BufferEntry) (h : HashMap Block)
    → ((a : ℕ) → Tracks (get a m) (get a h))
    → ((a : ℕ) → get a h ≡ none)
    → (length m == 0) ≡ true
unfolding get
none_tracked [] h same dead = refl
none_tracked ((k, e) ∷ m) h same dead = absurd (ground (arith, same k, dead k))

-- In a sound state whose registry is set, the registry is empty exactly when no block is live.
pub is_empty_iff :
    (w : World) (r : BufferRegistry)
    → IsSound w
    → w.buffer_registry ≡ some r
    → (is_empty r ≡ true) ↔ ((a : ℕ) → get a w.heap ≡ none)
unfolding is_empty len
is_empty_iff w r s e =
    let same : s.registry ≡ r = cc (s.consistent.initialised, e) in
    let tracks =
      subst (λ (q : BufferRegistry). (a : ℕ) → Tracks (get a q.entries) (get a w.heap)) same
        s.consistent.same in
    (no_live r.entries w.heap tracks, none_tracked r.entries w.heap tracks)
