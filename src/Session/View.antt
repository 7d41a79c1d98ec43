-- ===== src/Session/View.antt =====
-- src/decode.rs: the ledger that a state shows, and what a release makes of it.
use mathlib.Core.Option as Option
use native.Mathlib.Decide.{ℕ_discrete}
use imageglass_ithmb_plugin.Prelude.{
  ℕ, ◌≡◌, ◌≢◌, ◌⊎◌, inl, inr, refl, sym, ◌∙◌, ap, none, some, Option, Bool, true, false, ◌==◌,
  arith, ==-true, ==-false, length, Bool-cases,
}
use imageglass_ithmb_plugin.Prelude.HashMap.{
  HashMap, IsDistinct, get, get-insert, get-remove, insert, remove,
}
use imageglass_ithmb_plugin.World.{World, Block, done, update}
use imageglass_ithmb_plugin.Registry.{BufferRegistry}
use imageglass_ithmb_plugin.Registry.Laws.{tracked}
use imageglass_ithmb_plugin.Decode.Contract.{IsSound}
use imageglass_ithmb_plugin.Decode.Memory.{untracked}
use imageglass_ithmb_plugin.Decode.Release.{Frees, ignored, kept, released, cleared, freed}
use imageglass_ithmb_plugin.Decode.{codec_free_pixel_buffer, cleared_buffer}
use imageglass_ithmb_plugin.Session.Ledger.{Ledger, release, write}

abbrev pub is_locked_out : Option BufferRegistry → Bool
is_locked_out none = false
is_locked_out (some r) = r.poisoned

-- What a state shows of the ledger.
abbrev pub ledger : World → Ledger
ledger w = record {
  live = λ a. Option.map length (get a w.heap);
  held = λ q. (w.pixel_buffers q).data_ptr;
  poisoned = is_locked_out w.buffer_registry;
}

pub ledger_ext :
    (v u : Ledger)
    → ((a : ℕ) → v.live a ≡ u.live a)
    → ((q : ℕ) → v.held q ≡ u.held q)
    → v.poisoned ≡ u.poisoned
    → v ≡ u
ledger_ext v u l h p = λ i. record { live = λ a. l a i; held = λ q. h q i; poisoned = p i }

held_cleared :
    (w : World) (buffer q : ℕ)
    → ((cleared w buffer).pixel_buffers q).data_ptr
      ≡ update (λ q. (w.pixel_buffers q).data_ptr) buffer 0 q
unfolding cleared_buffer
held_cleared w buffer q = ground arith

pub locked_out :
    (w : World) (r : BufferRegistry)
    → w.buffer_registry ≡ some r
    → is_locked_out w.buffer_registry ≡ r.poisoned
locked_out w r e = rw e refl

released_null : (buffer : ℕ) (v : Ledger) → buffer ≡ 0 → release buffer v ≡ v
released_null buffer v e = rw (==-true _ _ e) refl

release_locked :
    (buffer : ℕ) (v : Ledger) → buffer ≢ 0 → v.poisoned ≡ true → release buffer v ≡ write buffer 0 v
release_locked buffer v h e = rw (==-false _ _ h, e) refl

release_open :
    (buffer : ℕ) (v : Ledger)
    → buffer ≢ 0
    → v.poisoned ≡ false
    → release buffer v ≡ record (write buffer 0 v) { live = update v.live (v.held buffer) none }
release_open buffer v h e = rw (==-false _ _ h, e) refl

dead_stays :
    (m : HashMap Block) (p a : ℕ)
    → get p m ≡ none
    → Option.map length (get a m) ≡ update (λ b. Option.map length (get b m)) p none a
dead_stays m p a e = elim (ℕ_discrete p a) [
  | yes same ↦ rw (sym same, ==-true _ _ refl, e) refl
  | no other ↦ rw (==-false _ _ other) refl
]

live_removed :
    (m : HashMap Block) (p a : ℕ)
    → IsDistinct m
    → Option.map length (get a (remove p m)) ≡ update (λ b. Option.map length (get b m)) p none a
live_removed m p a d =
    rw (get-remove p a m d)
      (elim (Bool-cases (p == a)) [ inl same ↦ rw same refl | inr other ↦ rw other refl ])

pub live_inserted :
    (m : HashMap Block) (p a : ℕ) (b : Block)
    → Option.map length (get a (insert p b m))
      ≡ update (λ c. Option.map length (get c m)) p (some (length b)) a
live_inserted m p a b =
    rw (get-insert p a b m)
      (elim (Bool-cases (p == a)) [ inl same ↦ rw same refl | inr other ↦ rw other refl ])

module _ (w : World) (buffer : ℕ) (s : IsSound w) (h : buffer ≢ 0) where
  abbrev address : ℕ
  address = (w.pixel_buffers buffer).data_ptr

  lock : is_locked_out w.buffer_registry ≡ s.registry.poisoned
  lock = locked_out w s.registry s.consistent.initialised

  kept_locked : s.registry.poisoned ≡ true → ledger (cleared w buffer) ≡ release buffer (ledger w)
  kept_locked e =
      ledger_ext (ledger (cleared w buffer)) (write buffer 0 (ledger w)) (λ a. refl)
        (held_cleared w buffer) refl
      ∙ sym (release_locked buffer (ledger w) h (lock ∙ e))

  kept_dead :
      s.registry.poisoned ≡ false
      → get address w.heap ≡ none
      → ledger (cleared w buffer) ≡ release buffer (ledger w)
  kept_dead e dead =
      ledger_ext (ledger (cleared w buffer))
        (record (write buffer 0 (ledger w)) { live = update (ledger w).live address none })
        (λ a. dead_stays w.heap address a dead) (held_cleared w buffer) refl
      ∙ sym (release_open buffer (ledger w) h (lock ∙ e))

  freed_live :
      s.registry.poisoned ≡ false → ledger (freed w s.registry buffer) ≡ release buffer (ledger w)
  freed_live e =
      ledger_ext (ledger (freed w s.registry buffer))
        (record (write buffer 0 (ledger w)) { live = update (ledger w).live address none })
        (λ a. live_removed w.heap address a s.consistent.distinct) (held_cleared w buffer)
        (sym lock)
      ∙ sym (release_open buffer (ledger w) h (lock ∙ e))

  kept-release :
      (s.registry.poisoned ≡ true) ⊎ (tracked s.registry address ≡ none)
      → ledger (cleared w buffer) ≡ release buffer (ledger w)
  kept-release (inl poisoned) = kept_locked poisoned
  kept-release (inr untracked) = elim (Bool-cases s.registry.poisoned) [
    | inl poisoned ↦ kept_locked poisoned
    | inr healthy ↦ kept_dead healthy (ground (arith, s.consistent.same address))
  ]

pub free-release :
    (w w' : World) (buffer : ℕ) (s : IsSound w)
    → Frees s.registry w buffer (codec_free_pixel_buffer buffer w)
    → codec_free_pixel_buffer buffer w ≡ done tt w'
    → ledger w' ≡ release buffer (ledger w)
free-release w w' buffer s (ignored null e) q =
    let same : w ≡ w' = cc (e, q) in
    ap ledger (sym same) ∙ sym (released_null buffer (ledger w) null)
free-release w w' buffer s (kept h why e) q =
    let same : cleared w buffer ≡ w' = cc (e, q) in
    ap ledger (sym same) ∙ kept-release w buffer s h why
free-release w w' buffer s (released entry h healthy known e) q =
    let same : freed w s.registry buffer ≡ w' = cc (e, q) in
    ap ledger (sym same) ∙ freed_live w buffer s h healthy
