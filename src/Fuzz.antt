-- ===== src/Fuzz.antt =====
-- src/decode.rs, `mod fuzz`: the pseudo-fuzz of the decoder, with its generator and its mutations.
-- What panics in a debug build, an index or a shift out of range or a remainder by zero, ends the
-- run with `none`, as does a failed assertion.
pub mod Generator
pub mod Mutation
pub mod Rounds
pub mod Harness
use Prim.Native.Nat.{bit_xor, min}
use imageglass_ithmb_plugin.Prelude.{
  ℕ, zero, suc, ◌+◌, ◌-◌, ◌*◌, ◌/◌, ◌%◌, ◌^◌, List, [], ◌∷◌, ◌++◌, Option, none, some, Bool, false,
  true, ◌&&◌, ◌==◌, ltb, if◌then◌else◌, length, take, get_elem?, set,
}
use imageglass_ithmb_plugin.Env.{Env, DecodeResult, decoded, failed, panics}

abbrev pub seed : ℕ
seed = 0x5EED_2026_1B8E_F00D

abbrev pub mutations : ℕ
mutations = 3000

abbrev pub max_input_len : ℕ
max_input_len = 1024

pub record XorShift64 : Type 0 where
  pub state : ℕ

-- A computation that draws from the generator.
abbrev pub Gen {ℓ} : Type ℓ → Type ℓ
Gen A = XorShift64 → Option (A × XorShift64)

abbrev pub pure {ℓ} : {A : Type ℓ} → A → Gen A
pure a rng = some (a, rng)

abbrev pub panic {ℓ} : {A : Type ℓ} → Gen A
panic rng = none

infixl 5 ◌>>=◌
abbrev pub ◌>>=◌ {ℓ κ} : {A : Type ℓ} {B : Type κ} → Gen A → (A → Gen B) → Gen B
◌>>=◌ m f rng = elim (m rng) [ none ↦ none | some (a, rng') ↦ f a rng' ]

-- `x ^= x << 13; x ^= x >> 7; x ^= x << 17`, on `u64`.
unfoldable pub xorshift : ℕ → ℕ
xorshift x =
    let y = bit_xor x (x * 2 ^ 13 % 2 ^ 64) in
    let z = bit_xor y (y / 2 ^ 7) in bit_xor z (z * 2 ^ 17 % 2 ^ 64)

unfoldable pub next_u64 : Gen ℕ
unfolding xorshift
next_u64 rng = let x = xorshift rng.state in some (x, record { state = x })

-- The remainder by zero panics.
unfoldable pub below : ℕ → Gen ℕ
below bound = do x ← next_u64; if bound == 0 then panic else pure (x % bound)

-- `input[i]`, and a write to it.
unfoldable pub index {ℓ} : {A : Type ℓ} → List A → ℕ → Gen A
index input i = elim (get_elem? input i) [ none ↦ panic | some b ↦ pure b ]

unfoldable pub store : List ℕ → ℕ → ℕ → Gen (List ℕ)
store input i b = if ltb i (length input) then pure (set input i b) else panic

-- `1 << n` as a `u8`.
unfoldable pub bit : ℕ → Gen ℕ
bit n = if ltb n 8 then pure (2 ^ n) else panic

-- `repeat_with(|| rng.next_u64() as u8).take(n)`.
unfoldable pub random_bytes : ℕ → Gen (List ℕ)
random_bytes zero = pure []
random_bytes (suc n) = do x ← next_u64; rest ← random_bytes n; pure ((x % 256) ∷ rest)

-- The four arms of `mutate`. The first and the last leave an empty input as it is.
unfoldable pub flip_some : List ℕ → Gen (List ℕ)
flip_some input = do
  i ← below (length input)
  n ← below 8
  mask ← bit n
  b ← index input i
  store input i (bit_xor b mask)

unfoldable pub flip_bit : List ℕ → Gen (List ℕ)
flip_bit input = if length input == 0 then pure input else flip_some input

unfoldable pub truncate : List ℕ → Gen (List ℕ)
truncate input = do new_len ← below (length input + 1); pure (take new_len input)

-- As many bytes as are drawn, and as the input may still grow by.
unfoldable pub extend_some : List ℕ → Gen (List ℕ)
extend_some input = do
  drawn ← below 32
  bytes ← random_bytes (min drawn (max_input_len - length input))
  pure (input ++ bytes)

unfoldable pub extend : List ℕ → Gen (List ℕ)
extend input = if ltb (length input) max_input_len then extend_some input else pure input

unfoldable pub overwrite_some : List ℕ → Gen (List ℕ)
overwrite_some input = do i ← below (length input); x ← next_u64; store input i (x % 256)

unfoldable pub overwrite : List ℕ → Gen (List ℕ)
overwrite input = if length input == 0 then pure input else overwrite_some input

unfoldable pub mutate : List ℕ → Gen (List ℕ)
mutate input = do
  choice ← below 4
  if choice == 0
      then flip_bit input
      else if choice == 1
      then truncate input
      else if choice == 2
      then extend input
      else overwrite input

-- `(0..n).map(|i| start.wrapping_add(i as u8))`, from `i` on.
unfoldable pub pad_from : ℕ → ℕ → ℕ → List ℕ
pad_from zero start i = []
pad_from (suc n) start i = ((start + i % 256) % 256) ∷ pad_from n start (i + 1)

unfoldable pub pad : ℕ → ℕ → List ℕ
unfolding pad_from
pad n start = pad_from n start 0

unfoldable pub seed_vectors : List (List ℕ)
unfolding pad
seed_vectors =
    []
    ∷ (0x00 ∷ [])
    ∷ (0xFF ∷ 0xD8 ∷ [])
    ∷ (0xFF ∷ 0xD8 ∷ 0xFF ∷ 0xE0 ∷ [])
    ∷ (0x00 ∷ 0x00 ∷ 0x04 ∷ 0x00 ∷ [])
    ∷ (0x00 ∷ 0x00 ∷ 0x03 ∷ 0xFB ∷ [])
    ∷ ((0x00 ∷ 0x00 ∷ 0x04 ∷ 0x00 ∷ []) ++ pad 60 0x11)
    ∷ ((0xFF ∷ 0xD8 ∷ 0xFF ∷ 0xE0 ∷ []) ++ pad 60 0x22)
    ∷ ((0x00 ∷ 0x00 ∷ 0x04 ∷ 0x45 ∷ []) ++ pad 60 0x33)
    ∷ []

-- The loop over the stacked mutations of one input.
unfoldable pub mutate_rounds : ℕ → List ℕ → Gen (List ℕ)
mutate_rounds zero input = pure input
mutate_rounds (suc n) input = do input' ← mutate input; mutate_rounds n input'

-- `seeds[rng.below(seeds.len())].clone()`, and its mutations.
unfoldable pub mutated_input : List (List ℕ) → Gen (List ℕ)
mutated_input seeds = do
  j ← below (length seeds)
  input ← index seeds j
  drawn ← below 3
  mutate_rounds (1 + drawn) input

pub record Counts : Type 0 where
  pub errors : ℕ
  pub successes : ℕ

-- A panic of the decoder is raised again.
unfoldable pub tally : DecodeResult → Counts → Gen Counts
tally (decoded img) c = pure (record c { successes = c.successes + 1 })
tally (failed e) c = pure (record c { errors = c.errors + 1 })
tally panics c = panic

-- The loop over the mutated inputs, with the rounds left.
unfoldable pub fuzz_rounds : Env → List (List ℕ) → ℕ → Counts → Gen Counts
fuzz_rounds env seeds zero c = pure c
fuzz_rounds env seeds (suc n) c = do
  input ← mutated_input seeds
  c' ← tally (env.decode_ithmb input false) c
  fuzz_rounds env seeds n c'

-- `outcome.is_ok()`.
unfoldable pub is_ok : DecodeResult → Bool
is_ok panics = false
is_ok (decoded img) = true
is_ok (failed e) = true

-- The baseline: no seed makes the decoder panic.
unfoldable pub seeds_pass : Env → List (List ℕ) → Bool
unfolding is_ok
seeds_pass env [] = true
seeds_pass env (s ∷ seeds) = is_ok (env.decode_ithmb s false) && seeds_pass env seeds

-- The two assertions at the end.
unfoldable pub asserted : Counts → Option Counts
asserted c =
    if c.errors == 0 then none else if (c.successes + c.errors) == mutations then some c else none

-- The test, with the counts that it ends with; `none` is a failed test.
unfoldable pub mutated_inputs_never_panic_the_decoder : Env → Option Counts
mutated_inputs_never_panic_the_decoder env =
    if seeds_pass env seed_vectors
    then elim (fuzz_rounds env seed_vectors mutations (record { errors = 0; successes = 0 })
        (record { state = seed })) [ none ↦ none | some (c, rng) ↦ asserted c ]
    else none
