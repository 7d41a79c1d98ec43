-- ===== src/Decode/Drain.antt =====
-- src/decode.rs: a host that releases every struct it holds gives back all memory.
use native.Mathlib.Decide.{ℕ_discrete}
use imageglass_ithmb_plugin.Prelude.{
  ℕ, ◌≡◌, ◌≢◌, ◌⊎◌, inl, inr, refl, ◌∙◌, sym, ap, List, [], ◌∷◌, none, some, false, ==-false, arith,
  Option-cases,
}
use imageglass_ithmb_plugin.Prelude.HashMap.{HashMap, get, get-remove}
use imageglass_ithmb_plugin.World.{World, Block, Run, done, update, pure, ◌>>=◌, ◌>>◌}
use imageglass_ithmb_plugin.Registry.{BufferRegistry}
use imageglass_ithmb_plugin.Registry.Laws.{tracked}
use imageglass_ithmb_plugin.Decode.{codec_free_pixel_buffer}
use imageglass_ithmb_plugin.Decode.Memory.{IsConsistent}
use imageglass_ithmb_plugin.Decode.Contract.{IsSound, in_step}
use imageglass_ithmb_plugin.Decode.Release.{
  ignored, kept, released, free_ends, cleared, freed, removed, removed-IsConsistent,
}

-- The host releases its structs, one after the other.
unfoldable pub free_all : List ℕ → Run (Unit {0})
free_all [] = pure tt
free_all (buffer ∷ buffers) = do codec_free_pixel_buffer buffer; free_all buffers

-- One of the structs holds the address.
abbrev pub IsHeld : ℕ → (ℕ → ℕ) → List ℕ → Type 0
IsHeld a data_ptr [] = ⊥
IsHeld a data_ptr (b ∷ bs) = ((b ≢ 0) × (data_ptr b ≡ a)) ⊎ IsHeld a data_ptr bs

abbrev pub held_by : World → ℕ → ℕ
held_by w b = (w.pixel_buffers b).data_ptr

-- Each live block is held by one of the structs.
abbrev pub IsCovered : World → List ℕ → Type 0
IsCovered w bs = (a : ℕ) (block : Block) → get a w.heap ≡ some block → IsHeld a (held_by w) bs

-- The clearing of one struct takes no other address from the rest.
IsHeld-cleared :
    (w : World) (b a : ℕ) (bs : List ℕ)
    → held_by w b ≢ a
    → IsHeld a (held_by w) bs
    → IsHeld a (held_by (cleared w b)) bs
IsHeld-cleared w b a [] other h = h
IsHeld-cleared w b a (b' ∷ bs) other (inr h) = inr (IsHeld-cleared w b a bs other h)
IsHeld-cleared w b a (b' ∷ bs) other (inl (live, h)) = elim (ℕ_discrete b b') [
  | yes e ↦ absurd (other (rw e h))
  | no ne ↦ inl (live, rw (held_by, update, ==-false _ _ ne) h)
]

-- Whoever holds another address than the first struct is among the rest.
IsHeld-rest :
    (w : World) (b a : ℕ) (bs : List ℕ)
    → held_by w b ≢ a
    → IsHeld a (held_by w) (b ∷ bs)
    → IsHeld a (held_by (cleared w b)) bs
IsHeld-rest w b a bs other (inl (live, h)) = absurd (other h)
IsHeld-rest w b a bs other (inr h) = IsHeld-cleared w b a bs other h

empty_heap : {V : Type 0} (m : HashMap V) → ((a : ℕ) → get a m ≡ none) → m ≡ []
unfolding get
empty_heap [] h = refl
empty_heap ((j, v) ∷ m) h = absurd (ground (arith, h j))

-- What the release of all structs comes to.
abbrev Drains : World → List ℕ → Type 0
Drains w bs = (w' : World) × (free_all bs w ≡ done tt w') × (w'.heap ≡ [])

drained_step :
    (w w' : World) (b : ℕ) (bs : List ℕ)
    → codec_free_pixel_buffer b w ≡ done tt w'
    → Drains w' bs
    → Drains w (b ∷ bs)
unfolding free_all
drained_step w w' b bs e (w'', e', h) = (w'', rw (◌>>◌, ◌>>=◌, e) e', h)

-- A live block is tracked.
live_tracked :
    (r : BufferRegistry) (w : World) (a : ℕ) (block : Block)
    → IsConsistent r w
    → get a w.heap ≡ some block
    → tracked r a ≢ none
live_tracked r w a block c live untracked = ground (arith, c.same a)

module _ (r : BufferRegistry) (w : World) (c : IsConsistent r w) (b : ℕ) (bs : List ℕ)
    (covered : IsCovered w (b ∷ bs)) where
  ignored-IsCovered : b ≡ 0 → IsCovered w bs
  ignored-IsCovered null a block live = elim (covered a block live) [
    | inl (h, e) ↦ absurd (h null)
    | inr h ↦ h
  ]

  kept-IsCovered : tracked r (held_by w b) ≡ none → IsCovered (cleared w b) bs
  kept-IsCovered untracked a block live =
      IsHeld-rest w b a bs
        (λ e. live_tracked r w a block c live (ap (tracked r) (sym e) ∙ untracked))
        (covered a block live)

  freed-IsCovered : IsCovered (freed w r b) bs
  freed-IsCovered a block live = elim (ℕ_discrete (held_by w b) a) [
    | yes e ↦ absurd (ground (arith, get-remove (held_by w b) a w.heap c.distinct))
    | no ne ↦
        IsHeld-rest w b a bs ne
          (covered a block (ground (arith, get-remove (held_by w b) a w.heap c.distinct)))
  ]

drains :
    (r : BufferRegistry) (w : World) (bs : List ℕ)
    → IsConsistent r w
    → r.poisoned ≡ false
    → IsCovered w bs
    → Drains w bs
unfolding free_all
drains r w [] c u covered = (
  w,
  refl,
  empty_heap w.heap λ a. elim (Option-cases (get a w.heap)) [
    | inl dead ↦ dead
    | inr (block, live) ↦ absurd (covered a block live)
  ],
)
drains r w (b ∷ bs) c u covered = elim (free_ends r w c b) [
  | ignored null e ↦
      drained_step w w b bs e (drains r w bs c u (ignored-IsCovered r w c b bs covered null))
  | kept h (inl poisoned) e ↦ absurd (cc (u, poisoned))
  | kept h (inr untracked) e ↦ drained_step w (cleared w b) b bs e (
      drains r (cleared w b) bs (in_step r w (cleared w b) refl refl c) u
        (kept-IsCovered r w c b bs covered untracked))
  | released entry h _ q e ↦ drained_step w (freed w r b) b bs e (
      drains (removed r (held_by w b)) (freed w r b) bs
        (removed-IsConsistent r w c (held_by w b) entry (cleared w b) q) u
        (freed-IsCovered r w c b bs covered))
]

-- In a sound state with an unpoisoned registry, when each live block is held by some non-null
-- struct of a list, the release of all structs of the list returns, and no block is live then.
pub free_all_empties :
    (w : World) (r : BufferRegistry) (bs : List ℕ)
    → IsSound w
    → w.buffer_registry ≡ some r
    → r.poisoned ≡ false
    → IsCovered w bs
    → (w' : World) × (free_all bs w ≡ done tt w') × (w'.heap ≡ [])
free_all_empties w r bs s e u covered =
    let same : s.registry ≡ r = cc (s.consistent.initialised, e) in
    drains s.registry w bs s.consistent (ap (λ q. q.poisoned) same ∙ u) covered
