-- ===== src/Threads/Guards.antt =====
-- src/decode.rs: what the threads, the registry and the allocator's blocks agree on, whatever the
-- order of their steps: each live block is either tracked by the registry or in the hands of one
-- thread.
use mathlib.Core.Path.{subst}
use native.Mathlib.Decide.{ℕ_discrete}
use imageglass_ithmb_plugin.Prelude.{
  ℕ, ◌≤◌, ◌^◌, ◌≡◌, ◌≢◌, ◌⊎◌, inl, inr, refl, ap, sym, ◌∙◌, Option, none, some, length, ==-true,
  ==-false,
}
use imageglass_ithmb_plugin.Prelude.HashMap.{HashMap, get, IsDistinct}
use imageglass_ithmb_plugin.World.{Block, update}
use imageglass_ithmb_plugin.Registry.{BufferEntry, BufferRegistry}
use imageglass_ithmb_plugin.Registry.Laws.{tracked, IsValid}
use imageglass_ithmb_plugin.Threads.{
  Thread, resting, allocates, copies, registers, discards, publishes, returns, reads, clears,
  unregisters, releases,
}

-- The block that a thread is the only one to hold.
abbrev pub owner : Thread → Option ℕ
owner (copies buffer img l p) = some p
owner (registers buffer l p) = some p
owner (discards p) = some p
owner (releases p) = some p
owner resting = none
owner (allocates buffer img l) = none
owner (publishes buffer l p) = none
owner (returns status) = none
owner (reads buffer) = none
owner (clears buffer p) = none
owner (unregisters p) = none

-- A live block that the registry does not track.
pub record IsLoose (r : BufferRegistry) (h : HashMap Block) (p : ℕ) : Type 0 where
  pub block : Block
  pub live : get p h ≡ some block
  pub untracked : tracked r p ≡ none

-- What a thread relies on for its next step.
abbrev pub Relies : BufferRegistry → HashMap Block → Thread → Type 0
Relies r h (allocates buffer img l) = (l.buf_size ≤ length img.pixels) ⊎ (2 ^ 63 ≤ l.buf_size)
Relies r h (copies buffer img l p) =
    (loose : IsLoose r h p) × (length loose.block ≡ l.buf_size) × (l.buf_size ≤ length img.pixels)
Relies r h (registers buffer l p) = (loose : IsLoose r h p) × (length loose.block ≡ l.buf_size)
Relies r h (discards p) = IsLoose r h p
Relies r h (releases p) = IsLoose r h p
Relies r h resting = Unit {0}
Relies r h (publishes buffer l p) = Unit {0}
Relies r h (returns status) = Unit {0}
Relies r h (reads buffer) = Unit {0}
Relies r h (clears buffer p) = Unit {0}
Relies r h (unregisters p) = Unit {0}

-- A tracked address is that of a live block of the entry's size.
abbrev pub Backed : Option BufferEntry → Option Block → Type 0
Backed none b = Unit {0}
Backed (some e) none = ⊥
Backed (some e) (some b) = e.size ≡ length b

pub record Guards (r : BufferRegistry) (h : HashMap Block) (ts : ℕ → Thread) : Type 0 where
  pub valid : IsValid r
  pub distinct : IsDistinct h
  pub no_null : get 0 h ≡ none
  pub backed : (a : ℕ) → Backed (tracked r a) (get a h)
  pub relies : (i : ℕ) → Relies r h (ts i)
  pub alone : (i j a : ℕ) → owner (ts i) ≡ some a → owner (ts j) ≡ some a → i ≡ j
  pub no_leak :
      (a : ℕ) (b : Block)
      → get a h ≡ some b
      → tracked r a ≡ none
      → (i : ℕ) × (owner (ts i) ≡ some a)

-- A loose block stays loose where nothing happens to its address.
IsLoose-away :
    (r r' : BufferRegistry) (h h' : HashMap Block) (p : ℕ)
    → tracked r' p ≡ tracked r p
    → get p h' ≡ get p h
    → (l : IsLoose r h p) → (l' : IsLoose r' h' p) × (l'.block ≡ l.block)
IsLoose-away r r' h h' p same_entry same_block l = (
  record { block = l.block; live = same_block ∙ l.live; untracked = same_entry ∙ l.untracked },
  refl,
)

-- A thread relies on nothing but the address in its hands.
pub Relies-away :
    (r r' : BufferRegistry) (h h' : HashMap Block) (t : Thread)
    → ((a : ℕ) → owner t ≡ some a → (tracked r' a ≡ tracked r a) × (get a h' ≡ get a h))
    → Relies r h t
    → Relies r' h' t
Relies-away r r' h h' (allocates buffer img l) same k = k
Relies-away r r' h h' (copies buffer img l p) same (k, size, room) =
    let (entry, block) = same p refl in
    let (k', e) = IsLoose-away r r' h h' p entry block k in (k', ap length e ∙ size, room)
Relies-away r r' h h' (registers buffer l p) same (k, size) =
    let (entry, block) = same p refl in
    let (k', e) = IsLoose-away r r' h h' p entry block k in (k', ap length e ∙ size)
Relies-away r r' h h' (discards p) same k =
    let (entry, block) = same p refl in (IsLoose-away r r' h h' p entry block k).0
Relies-away r r' h h' (releases p) same k =
    let (entry, block) = same p refl in (IsLoose-away r r' h h' p entry block k).0
Relies-away r r' h h' resting same k = tt
Relies-away r r' h h' (publishes buffer l p) same k = tt
Relies-away r r' h h' (returns status) same k = tt
Relies-away r r' h h' (reads buffer) same k = tt
Relies-away r r' h h' (clears buffer p) same k = tt
Relies-away r r' h h' (unregisters p) same k = tt

-- What one step of thread `i` changes: nothing but the entry and the block of the address `p`, which
-- no other thread holds.
pub record ChangesAt (r r' : BufferRegistry) (h h' : HashMap Block) (ts : ℕ → Thread) (i : ℕ)
    (t : Thread) (p : ℕ) : Type 0 where
  pub valid : IsValid r'
  pub distinct : IsDistinct h'
  pub no_null : get 0 h' ≡ none
  pub entries : (a : ℕ) → p ≢ a → tracked r' a ≡ tracked r a
  pub blocks : (a : ℕ) → p ≢ a → get a h' ≡ get a h
  pub mine : (j : ℕ) → owner (ts j) ≡ some p → j ≡ i
  pub held : (a : ℕ) → owner (ts i) ≡ some a → a ≡ p
  pub holds : (a : ℕ) → owner t ≡ some a → a ≡ p
  pub backed : Backed (tracked r' p) (get p h')
  pub relies : Relies r' h' t
  pub no_leak : (b : Block) → get p h' ≡ some b → tracked r' p ≡ none → owner t ≡ some p

module _ (r r' : BufferRegistry) (h h' : HashMap Block) (ts : ℕ → Thread) (i : ℕ) (t : Thread)
    (p : ℕ) (g : Guards r h ts) (c : ChangesAt r r' h h' ts i t p) where
  there : update ts i t i ≡ t
  there = rw (==-true i i refl) refl

  elsewhere : (j : ℕ) → i ≢ j → update ts i t j ≡ ts j
  elsewhere j ne = rw (==-false i j ne) refl

  -- Another thread does not hold `p`.
  away : (j a : ℕ) → i ≢ j → owner (ts j) ≡ some a → p ≢ a
  away j a ne o e = ne (sym (c.mine j (o ∙ ap some (sym e))))

  keeps_Relies : (j : ℕ) → Relies r' h' (update ts i t j)
  keeps_Relies j = elim (ℕ_discrete i j) [
    | yes e ↦ subst (λ k. Relies r' h' (update ts i t k)) e (rw there c.relies)
    | no ne ↦ rw (elsewhere j ne) (
        Relies-away r r' h h' (ts j)
          (λ a o. (c.entries a (away j a ne o), c.blocks a (away j a ne o))) (g.relies j))
  ]

  owner_after :
      (j a : ℕ)
      → owner (update ts i t j) ≡ some a
      → ((i ≡ j) × (a ≡ p)) ⊎ ((i ≢ j) × (owner (ts j) ≡ some a))
  owner_after j a o = elim (ℕ_discrete i j) [
    | yes e ↦ inl (e, c.holds a (ap owner (sym there ∙ ap (update ts i t) e) ∙ o))
    | no ne ↦ inr (ne, ap owner (sym (elsewhere j ne)) ∙ o)
  ]

  keeps_alone :
      (j k a : ℕ) → owner (update ts i t j) ≡ some a → owner (update ts i t k) ≡ some a → j ≡ k
  keeps_alone j k a oj ok = both (owner_after j a oj) (owner_after k a ok)
    where
      both :
          ((i ≡ j) × (a ≡ p)) ⊎ ((i ≢ j) × (owner (ts j) ≡ some a))
          → ((i ≡ k) × (a ≡ p)) ⊎ ((i ≢ k) × (owner (ts k) ≡ some a))
          → j ≡ k
      both (inl (ej, _)) (inl (ek, _)) = sym ej ∙ ek
      both (inl (_, ap_)) (inr (ne, o)) = absurd (away k a ne o (sym ap_))
      both (inr (ne, o)) (inl (_, ap_)) = absurd (away j a ne o (sym ap_))
      both (inr (_, oj')) (inr (_, ok')) = g.alone j k a oj' ok'

  keeps_no_leak :
      (a : ℕ) (b : Block)
      → get a h' ≡ some b
      → tracked r' a ≡ none
      → (j : ℕ) × (owner (update ts i t j) ≡ some a)
  keeps_no_leak a b live loose = elim (ℕ_discrete p a) [
    | yes e ↦ (
      i,
      ap owner there
          ∙ c.no_leak b (ap (λ x. get x h') e ∙ live) (ap (tracked r') e ∙ loose)
          ∙ ap some e,
    )
    | no ne ↦
        let (j, o) = g.no_leak a b (sym (c.blocks a ne) ∙ live) (sym (c.entries a ne) ∙ loose) in
        (j, ap owner (elsewhere j (λ e. ne (sym (c.held a (ap (λ k. owner (ts k)) e ∙ o))))) ∙ o)
  ]

  -- The agreement is kept.
  pub ChangesAt-Guards : Guards r' h' (update ts i t)
  ChangesAt-Guards = record {
    valid = c.valid;
    distinct = c.distinct;
    no_null = c.no_null;
    backed = λ a. elim (ℕ_discrete p a) [
      | yes e ↦ subst (λ x. Backed (tracked r' x) (get x h')) e c.backed
      | no ne ↦ rw (c.entries a ne, c.blocks a ne) (g.backed a)
    ];
    relies = keeps_Relies;
    alone = keeps_alone;
    no_leak = keeps_no_leak;
  }
