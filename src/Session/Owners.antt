-- ===== src/Session/Owners.antt =====
-- src/decode.rs behind the ledger: every session of calls runs on the ledger alone.
use mathlib.Core.Option as Option
use imageglass_ithmb_plugin.Prelude.{ℕ, ◌≡◌, inl, inr, refl, sym, ◌∙◌, ap, some, arith, length}
use imageglass_ithmb_plugin.Types.{IgStatus}
use imageglass_ithmb_plugin.World.{World, Outcome, done, update}
use imageglass_ithmb_plugin.Registry.{BufferRegistry}
use imageglass_ithmb_plugin.Prelude.{List}
use imageglass_ithmb_plugin.Prelude.Int.{ℤ}
use imageglass_ithmb_plugin.Types.{IgStringRef}
use imageglass_ithmb_plugin.Strings.Access.{IsReadable}
use imageglass_ithmb_plugin.Env.{Env, DecodedImage}
use imageglass_ithmb_plugin.Decode.Contract.{IsSound, IsSane}
use imageglass_ithmb_plugin.Decode.Memory.{delivered, frame_bytes, untracked}
use imageglass_ithmb_plugin.Decode.Layout.{frame_layout_bound}
use imageglass_ithmb_plugin.Decode.Cases.{allocated, Refuses, Delivers}
use imageglass_ithmb_plugin.Decode.Calls.{decode_ends}
use imageglass_ithmb_plugin.Decode.Release.{free_ends}
use imageglass_ithmb_plugin.Decode.{FrameLayout, codec_decode_static_raster, filled_buffer}
use imageglass_ithmb_plugin.Session.Ledger.{acquire, write, Moves, decoding, Runs, action, actions}
use imageglass_ithmb_plugin.Session.Steps.{
  Step, decodes, frees, queries, writes, poisons, Reach, here, next,
}
use imageglass_ithmb_plugin.Session.Kept.{Untouched}
use imageglass_ithmb_plugin.Session.Queries.{Query-Untouched}
use imageglass_ithmb_plugin.Session.{Reach-IsSound}
use imageglass_ithmb_plugin.Session.View.{
  ledger, ledger_ext, locked_out, live_inserted, free-release,
}

held_filled :
    (w : World) (buffer p q : ℕ) (l : FrameLayout)
    → (update w.pixel_buffers buffer (filled_buffer l p) q).data_ptr
      ≡ update (λ c. (w.pixel_buffers c).data_ptr) buffer p q
unfolding filled_buffer
held_filled w buffer p q l = ground arith

delivered-acquire :
    (w : World) (r : BufferRegistry) (buffer p : ℕ) (img : DecodedImage) (l : FrameLayout)
    → w.buffer_registry ≡ some r
    → ledger (delivered w r buffer p img l)
      ≡ acquire buffer p (length (frame_bytes img l.buf_size)) (ledger w)
delivered-acquire w r buffer p img l e =
    ledger_ext (ledger (delivered w r buffer p img l))
      (acquire buffer p (length (frame_bytes img l.buf_size)) (ledger w))
      (λ a. live_inserted w.heap p a (frame_bytes img l.buf_size)) (λ q. held_filled w buffer p q l)
      (sym (locked_out w r e))

module _ (env : Env) (path : IgStringRef) (frame_index : ℤ) (buffer : ℕ) (status : IgStatus)
    (w w' : World) (sane : IsSane env) (readable : IsReadable path) (s : IsSound w)
    (e : codec_decode_static_raster env path frame_index buffer w ≡ done status w') where
  abbrev run : Outcome IgStatus
  run = codec_decode_static_raster env path frame_index buffer w

  refused-Moves : Refuses w run → Moves (decoding buffer status) (ledger w) (ledger w')
  refused-Moves a =
      let same : record w { log_calls = a.calls } ≡ w' = cc (a.ends, e) in
      inr (λ ok. absurd (a.not_ok (cc (a.ends, e, ok))), ap ledger (sym same))

  delivered-Moves :
      (bytes : List ℕ)
      → Delivers env s.registry w buffer bytes run
      → Moves (decoding buffer status) (ledger w) (ledger w')
  delivered-Moves bytes d =
      let l = d.layout in
      let p = allocated env w l in
      let bound = frame_layout_bound d.img l (sane.frames bytes d.img d.decodes) d.laid_out in
      let same : delivered w s.registry buffer p d.img l ≡ w' = cc (d.ends, e) in
      inl (
        cc (d.ends, e),
        record {
          address = p;
          size = length (frame_bytes d.img l.buf_size);
          not_null = d.not_null;
          was_dead =
              ap (Option.map length)
                (untracked env s.registry w buffer d.img l s.consistent sane.allocator bound
                  d.not_null).0;
          healthy = locked_out w s.registry s.consistent.initialised ∙ d.unpoisoned;
          ends =
              ap ledger (sym same)
              ∙ delivered-acquire w s.registry buffer p d.img l s.consistent.initialised;
        },
      )

  decode-Moves : Moves (decoding buffer status) (ledger w) (ledger w')
  decode-Moves =
      elim (decode_ends env s.registry w buffer s.consistent sane.allocator sane.frames path
        frame_index s.hosted readable) [
          | inl a ↦ refused-Moves a
          | inr (p, bytes, reach, d) ↦ delivered-Moves bytes d
        ]

Untouched-ledger : (w w' : World) → Untouched w w' → ledger w' ≡ ledger w
Untouched-ledger w w' u =
    ledger_ext (ledger w') (ledger w) (λ a. rw u.heap refl) (λ q. rw u.structs refl)
      (rw u.registry refl)

Step-Moves :
    (w w' : World) → IsSound w → (step : Step w w') → Moves (action step) (ledger w) (ledger w')
Step-Moves w w' s (decodes env path frame_index buffer status sane readable e) =
    decode-Moves env path frame_index buffer status w w' sane readable s e
Step-Moves w w' s (frees buffer e) =
    free-release w w' buffer s (free_ends s.registry w s.consistent buffer) e
Step-Moves w w' s (queries q) = Untouched-ledger w w' (Query-Untouched w w' q s)
Step-Moves w w' s (writes slot b e) = rw e (
    ledger_ext (ledger (record w { pixel_buffers = update w.pixel_buffers slot b }))
      (write slot b.data_ptr (ledger w)) (λ a. refl) (λ q. ground arith) refl)
Step-Moves w w' s (poisons r q e) = rw e refl

-- From a sound state, a session is a run on the ledger of its actions, from the ledger of the
-- first state to that of the last: a decode that returns Ok gives the struct the address of a
-- block that was not live and is not null, and its lock is healthy; a decode with another
-- status, and any query, leaves the ledger as it is; a release clears the struct and, with a
-- healthy lock, what it named is no longer live; a host write changes what the struct holds, and
-- a panic under the lock poisons it.
pub Reach-Runs :
    (w w' : World)
    → IsSound w
    → (session : Reach w w') → Runs (actions session) (ledger w) (ledger w')
Reach-Runs w w' s here = refl
Reach-Runs w w' s (next {v = v} r step) =
    (ledger v, Reach-Runs w v s r, Step-Moves v w' (Reach-IsSound w v s r) step)
