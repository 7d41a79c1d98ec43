-- ===== src/Session/Ledger.antt =====
-- The host's view of src/decode.rs: which addresses are live and of what size, which address each
-- struct holds, and whether the lock is poisoned. No registry and no contents of blocks.
use imageglass_ithmb_plugin.Prelude.{
  ℕ, ◌≡◌, ◌≢◌, ◌⊎◌, List, [], ◌∷◌, Option, none, some, Bool, true, false, ◌==◌, if◌then◌else◌,
}
use imageglass_ithmb_plugin.Types.{IgStatus}
use imageglass_ithmb_plugin.World.{World, update}
use imageglass_ithmb_plugin.Session.Steps.{
  Step, decodes, frees, queries, writes, poisons, Reach, here, next,
}

pub record Ledger : Type 0 where
  pub live : ℕ → Option ℕ
  pub held : ℕ → ℕ
  pub poisoned : Bool

-- A block that was not live comes alive and its address goes to the struct.
abbrev pub acquire : ℕ → ℕ → ℕ → Ledger → Ledger
acquire buffer p size v = record v {
  live = update v.live p (some size);
  held = update v.held buffer p;
}

-- The struct's address is cleared; with a healthy lock, what it named is no longer live.
abbrev pub release : ℕ → Ledger → Ledger
release buffer v = if buffer == 0 then v else record v {
  live = if v.poisoned then v.live else update v.live (v.held buffer) none;
  held = update v.held buffer 0;
}

abbrev pub write : ℕ → ℕ → Ledger → Ledger
write buffer p v = record v { held = update v.held buffer p }

-- What a step of a session does to the ledger.
pub data Action : Type 0 where
  decoding : ℕ → IgStatus → Action
  releasing : ℕ → Action
  writing : ℕ → ℕ → Action
  poisoning : Action
  querying : Action

pub record Acquires (buffer : ℕ) (v u : Ledger) : Type 0 where
  pub address : ℕ
  pub size : ℕ
  pub not_null : address ≢ 0
  pub was_dead : v.live address ≡ none
  pub healthy : v.poisoned ≡ false
  pub ends : u ≡ acquire buffer address size v

-- A decode acquires a block if it returns Ok and else nothing; all else is determined.
abbrev pub Moves : Action → Ledger → Ledger → Type 0
Moves (decoding buffer status) v u =
    ((status ≡ IgStatus.ok) × Acquires buffer v u) ⊎ ((status ≢ IgStatus.ok) × (u ≡ v))
Moves (releasing buffer) v u = u ≡ release buffer v
Moves (writing buffer p) v u = u ≡ write buffer p v
Moves poisoning v u = u ≡ record v { poisoned = true }
Moves querying v u = u ≡ v

-- The actions one after the other, the last one first in the list.
abbrev pub Runs : List Action → Ledger → Ledger → Type 0
Runs [] v u = u ≡ v
Runs (a ∷ before) v u = (m : Ledger) × Runs before v m × Moves a m u

abbrev pub action : {w w' : World} → Step w w' → Action
action (decodes env path frame_index buffer status sane readable e) = decoding buffer status
action (frees buffer e) = releasing buffer
action (writes buffer b e) = writing buffer b.data_ptr
action (poisons r q e) = poisoning
action (queries q) = querying

abbrev pub actions : {w w' : World} → Reach w w' → List Action
actions here = []
actions (next r step) = action step ∷ actions r
