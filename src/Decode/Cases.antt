-- ===== src/Decode/Cases.antt =====
-- src/decode.rs: the ways in which a decode can end once its file is read.
use imageglass_ithmb_plugin.Prelude.{
  ℕ, ◌≡◌, ◌≢◌, ◌⊎◌, inl, inr, List, some, false, Bool-cases, Option-cases,
}
use native.Mathlib.Decide.{ℕ_discrete}
use imageglass_ithmb_plugin.Types.{IgStatus, DecodeError, ig_status_from_decode_error}
use imageglass_ithmb_plugin.World.{World, LogCall, Outcome, done, catch_unwind_or}
use imageglass_ithmb_plugin.Registry.{BufferRegistry}
use imageglass_ithmb_plugin.Env.{Env, DecodedImage, DecodeResult, decoded, failed, panics}
use imageglass_ithmb_plugin.Allocator.{IsAllocator}
use imageglass_ithmb_plugin.Decode.{FrameLayout, frame_layout, hand_over, decode_bytes}
use imageglass_ithmb_plugin.Decode.Layout.{IsFrame, frame_layout_bound}
use imageglass_ithmb_plugin.Decode.Memory.{
  IsConsistent, delivered, hand_over_refused, hand_over_poisoned, hand_over_delivers,
}

-- What is known of the crate that decodes: an image that it returns is a full frame.
abbrev pub DecodesFrames : Env → Type 0
DecodesFrames env =
    (bytes : List ℕ) (img : DecodedImage) → env.decode_ithmb bytes false ≡ decoded img → IsFrame img

-- A run that ends with an error: nothing is changed but the record of log calls.
pub record Refuses (w : World) (o : Outcome IgStatus) : Type 0 where
  pub status : IgStatus
  pub calls : List LogCall
  pub not_ok : status ≢ IgStatus.ok
  pub ends : o ≡ done status (record w { log_calls = calls })

-- The address that the allocator gives for a frame.
abbrev pub allocated : Env → World → FrameLayout → ℕ
allocated env w l = env.malloc w.heap l.buf_size

-- A run that delivers the frame `img` of `bytes` in a newly allocated block.
pub record Delivers (env : Env) (r : BufferRegistry) (w : World) (buffer : ℕ) (bytes : List ℕ)
    (o : Outcome IgStatus) : Type 0 where
  pub img : DecodedImage
  pub layout : FrameLayout
  pub decodes : env.decode_ithmb bytes false ≡ decoded img
  pub laid_out : frame_layout img ≡ some layout
  pub not_null : allocated env w layout ≢ 0
  pub unpoisoned : r.poisoned ≡ false
  pub ends : o ≡ done IgStatus.ok (delivered w r buffer (allocated env w layout) img layout)

-- A run that returns what another one does ends as that one does.
pub ends_along :
    (env : Env) (r : BufferRegistry) (w : World) (buffer : ℕ) (bytes : List ℕ)
    {o o' : Outcome IgStatus}
    → ((s : IgStatus) (w' : World) → o ≡ done s w' → o' ≡ done s w')
    → Refuses w o ⊎ Delivers env r w buffer bytes o
    → Refuses w o' ⊎ Delivers env r w buffer bytes o'
ends_along env r w buffer bytes along (inl a) =
    inl (record { status = a.status; calls = a.calls; not_ok = a.not_ok; ends = along _ _ a.ends })
ends_along env r w buffer bytes along (inr a) = inr (record {
  img = a.img;
  layout = a.layout;
  decodes = a.decodes;
  laid_out = a.laid_out;
  not_null = a.not_null;
  unpoisoned = a.unpoisoned;
  ends = along _ _ a.ends;
})

error_status_ne_ok : (e : DecodeError) → ig_status_from_decode_error e ≢ IgStatus.ok
unfolding ig_status_from_decode_error
error_status_ne_ok DecodeError.io h = cc
error_status_ne_ok _ h = cc

module _ (env : Env) (r : BufferRegistry) (w : World) (buffer : ℕ) (consistent : IsConsistent r w)
    (allocator : IsAllocator env.malloc) (frames : DecodesFrames env) where
  hand_over_ends :
      (bytes : List ℕ) (img : DecodedImage) (l : FrameLayout)
      → env.decode_ithmb bytes false ≡ decoded img
      → frame_layout img ≡ some l
      → Refuses w (hand_over env buffer img l w)
        ⊎ Delivers env r w buffer bytes (hand_over env buffer img l w)
  hand_over_ends bytes img l d e =
      let bound = frame_layout_bound img l (frames bytes img d) e in
      elim (ℕ_discrete (env.malloc w.heap l.buf_size) 0) [
        | yes null ↦ inl (record {
          status = IgStatus.out_of_memory;
          calls = w.log_calls;
          not_ok = λ h. cc;
          ends = hand_over_refused env r w buffer img l consistent allocator bound null;
        })
        | no live ↦ elim (Bool-cases r.poisoned) [
          | inl poisoned ↦ inl (record {
            status = IgStatus.internal;
            calls = w.log_calls;
            not_ok = λ h. cc;
            ends = hand_over_poisoned env r w buffer img l consistent allocator bound live poisoned;
          })
          | inr unpoisoned ↦ inr (record {
            img = img;
            layout = l;
            decodes = d;
            laid_out = e;
            not_null = live;
            unpoisoned = unpoisoned;
            ends =
                hand_over_delivers env r w buffer img l consistent allocator bound live unpoisoned;
          })
        ]
      ]

  -- What `catch_unwind` makes of the part behind the file read.
  pub decode_bytes_ends :
      (bytes : List ℕ) (result : DecodeResult)
      → env.decode_ithmb bytes false ≡ result
      → Refuses w (catch_unwind_or IgStatus.internal (decode_bytes env buffer bytes) w)
        ⊎ Delivers env r w buffer bytes
            (catch_unwind_or IgStatus.internal (decode_bytes env buffer bytes) w)
  unfolding decode_bytes
  decode_bytes_ends bytes panics e = inl (record {
    status = IgStatus.internal;
    calls = w.log_calls;
    not_ok = λ h. cc;
    ends = rw (catch_unwind_or, decode_bytes, e);
  })
  decode_bytes_ends bytes (failed err) e = inl (record {
    status = ig_status_from_decode_error err;
    calls = w.log_calls;
    not_ok = error_status_ne_ok err;
    ends = rw (catch_unwind_or, decode_bytes, e);
  })
  decode_bytes_ends bytes (decoded img) e = elim (Option-cases (frame_layout img)) [
    | inl overflow ↦ inl (record {
      status = IgStatus.out_of_memory;
      calls = w.log_calls;
      not_ok = λ h. cc;
      ends = rw (catch_unwind_or, decode_bytes, e, overflow);
    })
    | inr (l, fits) ↦
        ends_along env r w buffer bytes (λ s w' q. rw (catch_unwind_or, decode_bytes, e, fits, q))
          (hand_over_ends bytes img l e fits)
  ]
