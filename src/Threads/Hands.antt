-- ===== src/Threads/Hands.antt =====
-- src/decode.rs: the step of a thread on the address in its hands.
use imageglass_ithmb_plugin.Prelude.{ℕ, ◌≡◌, ◌≢◌, refl, ap, ◌∙◌, none, some, arith, ==-false}
use imageglass_ithmb_plugin.Prelude.HashMap.{get, remove, get-remove, remove-IsDistinct}
use imageglass_ithmb_plugin.World.{World}
use imageglass_ithmb_plugin.Registry.{BufferRegistry}
use imageglass_ithmb_plugin.Threads.{Thread}
use imageglass_ithmb_plugin.Threads.Local.{owner-IsLoose, untracked-Backed}
use imageglass_ithmb_plugin.Threads.Guards.{owner, IsLoose, Relies, Guards, ChangesAt}

module _ (r : BufferRegistry) (w : World) (ts : ℕ → Thread) (i : ℕ) (g : Guards r w.heap ts) where
  -- A thread that holds `p` alone changes the block there, or hands it to the registry.
  module _ (t : Thread) (p : ℕ) (at : ts i ≡ t) (own : owner t ≡ some p) where
    pub mine_alone : (j : ℕ) → owner (ts j) ≡ some p → j ≡ i
    mine_alone j o = g.alone j i p o (ap owner at ∙ own)

    pub held_alone : (a : ℕ) → owner (ts i) ≡ some a → a ≡ p
    held_alone a o = cc (ap owner at, own, o)

    pub loose : IsLoose r w.heap p
    loose = owner-IsLoose r w.heap t p (rw at at (g.relies i)) own

    -- An address in a thread's hands is not null.
    pub not_null : p ≢ 0
    not_null e = absurd (cc (loose.live, ap (λ a. get a w.heap) e, g.no_null))

    -- A free of the block.
    pub frees :
        (t' : Thread)
        → owner t' ≡ none
        → Relies r (remove p w.heap) t'
        → ChangesAt r r w.heap (remove p w.heap) ts i t' p
    frees t' o' k = record {
      valid = g.valid;
      distinct = remove-IsDistinct p w.heap g.distinct;
      no_null = ground (arith, g.no_null, get-remove p 0 w.heap g.distinct);
      entries = λ a ne. refl;
      blocks = λ a ne. rw (get-remove p a w.heap g.distinct, ==-false p a ne) refl;
      mine = mine_alone;
      held = held_alone;
      holds = λ a o. absurd (cc (o', o));
      backed = untracked-Backed r w.heap ts g p _ loose.untracked;
      relies = k;
      no_leak = λ b q u. absurd (ground (arith, get-remove p p w.heap g.distinct, q));
    }

    -- The address stays with the thread, and nothing is changed.
    pub keeps :
        (t' : Thread)
        → owner t' ≡ some p
        → Relies r w.heap t'
        → ChangesAt r r w.heap w.heap ts i t' p
    keeps t' o' k = record {
      valid = g.valid;
      distinct = g.distinct;
      no_null = g.no_null;
      entries = λ a ne. refl;
      blocks = λ a ne. refl;
      mine = mine_alone;
      held = held_alone;
      holds = λ a o. cc (o', o);
      backed = g.backed p;
      relies = k;
      no_leak = λ b q u. o';
    }
