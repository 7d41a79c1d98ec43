-- ===== src/World.antt =====
-- The state that the plugin works on, and the monad of its functions: the plugin's statics
-- (src/state.rs), the C allocator's live blocks, the host's memory that the plugin writes to through
-- pointers, and the calls of the host's log function. A function returns, panics, or has undefined
-- behaviour; `catch_unwind` stops a panic and nothing stops undefined behaviour.
use imageglass_ithmb_plugin.Prelude.{
  ℕ, List, Option, none, some, ◌==◌, ltb, if◌then◌else◌, length, take,
}
use imageglass_ithmb_plugin.Prelude.Int.{ℤ}
use imageglass_ithmb_plugin.Prelude.HashMap.{HashMap}
use imageglass_ithmb_plugin.Types.{
  Ptr, null, ref, IgStringRef, IgPixelBuffer, IgImageInfo, IgCodecCapability, IgHostApi, IgCodecApi,
  IgPluginApi,
}
use imageglass_ithmb_plugin.Registry.{BufferRegistry}

-- `PluginState`.
pub record PluginState : Type 0 where
  pub plugin_id : List ℕ
  pub plugin_name : List ℕ
  pub plugin_version : List ℕ
  pub cap_name : List ℕ
  pub codec_api : IgCodecApi
  pub plugin_api : IgPluginApi

-- One call of the host's log function: the function, the level and the message.
pub record LogCall : Type 0 where
  pub log_fn : ℕ
  pub level : ℤ
  pub message : IgStringRef

-- The bytes of a live block; a byte that nobody has written is `none`.
abbrev pub Block : Type 0
Block = List (Option ℕ)

-- Each `OnceLock` is an option. The slots are the host's variables, by address.
pub record World : Type 0 where
  pub plugin_extensions : Option (List IgStringRef)
  pub plugin_state : Option PluginState
  pub capability : Option IgCodecCapability
  pub host_api : Option (Ptr IgHostApi)
  pub buffer_registry : Option BufferRegistry
  pub heap : HashMap Block
  pub pixel_buffers : ℕ → IgPixelBuffer
  pub image_infos : ℕ → IgImageInfo
  pub capability_slots : ℕ → Ptr IgCodecCapability
  pub codec_slots : ℕ → Ptr IgCodecApi
  pub log_calls : List LogCall

-- A write through a pointer into the host's memory.
abbrev pub update {ℓ} : {A : Type ℓ} → (ℕ → A) → ℕ → A → ℕ → A
update f p v q = if p == q then v else f q

pub data Outcome {ℓ} (A : Type ℓ) : Type ℓ where
  done : A → World → Outcome A
  panicked : World → Outcome A
  undefined : Outcome A

abbrev pub Run {ℓ} : Type ℓ → Type ℓ
Run A = World → Outcome A

abbrev pub pure {ℓ} : {A : Type ℓ} → A → Run A
pure a w = done a w

infixl 5 ◌>>=◌ ◌>>◌
abbrev pub ◌>>=◌ {ℓ κ} : {A : Type ℓ} {B : Type κ} → Run A → (A → Run B) → Run B
◌>>=◌ m f w = elim (m w) [ done a w' ↦ f a w' | panicked w' ↦ panicked w' | undefined ↦ undefined ]

abbrev pub ◌>>◌ {ℓ} : {B : Type ℓ} → Run (Unit {0}) → Run B → Run B
m >> k = m >>= λ _. k

-- The state that a function leaves, and what it returns.
abbrev pub ask {ℓ} : {A : Type ℓ} → (World → A) → Run A
ask f w = done (f w) w

abbrev pub modify : (World → World) → Run (Unit {0})
modify f w = done tt (f w)

abbrev pub panic {ℓ} : {A : Type ℓ} → Run A
panic w = panicked w

abbrev pub undefined_behaviour {ℓ} : {A : Type ℓ} → Run A
undefined_behaviour w = undefined

-- `catch_unwind(body).unwrap_or(default)`.
abbrev pub catch_unwind_or {ℓ} : {A : Type ℓ} → A → Run A → Run A
catch_unwind_or default body w = elim (body w) [
  | done a w' ↦ done a w'
  | panicked w' ↦ done default w'
  | undefined ↦ undefined
]

-- `Option::unwrap`.
abbrev pub unwrap {ℓ} : {A : Type ℓ} → Option A → Run A
unwrap none = panic
unwrap (some a) = pure a

-- A read through a pointer.
abbrev pub deref {ℓ} : {A : Type ℓ} → Ptr A → Run A
deref null = undefined_behaviour
deref (ref a) = pure a

-- `std::slice::from_raw_parts(data, len)`: the units must be readable.
abbrev pub from_raw_parts : Ptr (List ℕ) → ℕ → Run (List ℕ)
from_raw_parts null n = undefined_behaviour
from_raw_parts (ref units) n =
    if ltb (length units) n then undefined_behaviour else pure (take n units)
