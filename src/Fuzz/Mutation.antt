-- ===== src/Fuzz/Mutation.antt =====
-- src/decode.rs, `mutate`: no mutation panics, and the inputs stay short byte strings.
use Prim.Native.Nat.{bit_xor, min}
use imageglass_ithmb_plugin.Prelude.{
  ℕ, zero, suc, ◌+◌, ◌-◌, ◌%◌, ◌^◌, ◌≤◌, ◌<◌, ◌≡◌, ◌≢◌, refl, ap, List, [], ◌∷◌, ◌++◌, some,
  Bool-cases, inl, inr, ==-true, ==-false, ◌==◌, ltb, lt→ltb, arith, length, take, length-take,
  length-append, length-set, All, All-append, All-take, All-set, All-get_elem?, get_elem?_lt, set,
}
use imageglass_ithmb_plugin.Prelude.Bits.{bit_xor-lt}
use native.Mathlib.Nat.{pow-le-pow_right}
use native.Mathlib.Decide.{ℕ_discrete}
use imageglass_ithmb_plugin.Fuzz.{
  XorShift64, Gen, pure, ◌>>=◌, max_input_len, next_u64, below, index, store, bit, random_bytes,
  flip_some, extend_some, overwrite_some, flip_bit, truncate, extend, overwrite, mutate,
  mutate_rounds,
}

-- Whatever the generator's state, the computation returns, with a value that has the property.
abbrev pub Returns {ℓ κ} : {A : Type ℓ} → (A → Type κ) → Gen A → Type (ℓ ⊔ κ)
Returns {A} P m =
    (rng : XorShift64) → (a : A) × (rng' : XorShift64) × (m rng ≡ some (a, rng')) × P a

pub Returns-bind {ℓ κ μ ν} :
    {A : Type ℓ} {B : Type κ} (P : A → Type μ) (Q : B → Type ν) (m : Gen A) (f : A → Gen B)
    → Returns P m
    → ((a : A) → P a → Returns Q (f a))
    → Returns Q (m >>= f)
Returns-bind P Q m f first rest rng =
    let (a, rng', e, p) = first rng in
    let (b, rng'', e', q) = rest a p rng' in (b, rng'', rw (◌>>=◌, e) e', q)

pub Returns-pure {ℓ κ} : {A : Type ℓ} (P : A → Type κ) (a : A) → P a → Returns P (pure a)
Returns-pure P a p rng = (a, rng, refl, p)

-- A byte string that the harness may hand to the decoder.
abbrev pub IsShort : List ℕ → Type 0
IsShort input = (length input ≤ max_input_len) × All (λ b. b < 256) input

next_u64-Returns : Returns (λ x. Unit {0}) next_u64
unfolding next_u64
next_u64-Returns rng = (_, _, refl, tt)

pub below-Returns : (n : ℕ) → n ≢ 0 → Returns (λ x. x < n) (below n)
unfolding below
below-Returns n h =
    Returns-bind (λ x. Unit {0}) (λ x. x < n) next_u64 _ next_u64-Returns
      λ x _. rw (==-false n 0 h) (Returns-pure (λ x. x < n) (x % n) (grind (arith, h)))

pub index-Returns {ℓ κ} :
    {A : Type ℓ} (P : A → Type κ) (xs : List A) (i : ℕ)
    → i < length xs
    → All P xs
    → Returns P (index xs i)
unfolding index
index-Returns P xs i h all rng =
    let (a, e) = get_elem?_lt xs i h in (a, rng, rw (index, e) refl, All-get_elem? P xs i a all e)

store-Returns :
    (xs : List ℕ) (i b : ℕ) → i < length xs → IsShort xs → b < 256 → Returns IsShort (store xs i b)
unfolding store
store-Returns xs i b h s k rng = (
  set xs i b,
  rng,
  rw (lt→ltb i (length xs) h) refl,
  (omega (arith, length-set xs i b, s.0), All-set (λ x. x < 256) xs i b s.1 k),
)

bit-lt : (n : ℕ) → n < 8 → 2 ^ n < 256
bit-lt n h =
    let top : 2 ^ n ≤ 2 ^ 7 = pow-le-pow_right (omega arith) {j = 7} (omega arith) in
    omega (arith, top)

bit-Returns : (n : ℕ) → n < 8 → Returns (λ x. x < 256) (bit n)
unfolding bit
bit-Returns n h rng = (2 ^ n, rng, rw (lt→ltb n 8 h) refl, bit-lt n h)

byte_xor-lt : (a b : ℕ) → a < 256 → b < 256 → bit_xor a b < 256
byte_xor-lt a b h k = bit_xor-lt 8 a b (omega arith) (omega arith) (omega arith)

abbrev pub AreBytes : ℕ → List ℕ → Type 0
AreBytes n bytes = (length bytes ≡ n) × All (λ b. b < 256) bytes

random_bytes-Returns : (n : ℕ) → Returns (AreBytes n) (random_bytes n)
unfolding random_bytes
random_bytes-Returns zero = Returns-pure (AreBytes 0) [] (refl, tt)
random_bytes-Returns (suc n) =
    Returns-bind (λ x. Unit {0}) (AreBytes (suc n)) next_u64 _ next_u64-Returns
      λ x _.
        Returns-bind (AreBytes n) (AreBytes (suc n)) (random_bytes n) _ (random_bytes-Returns n)
          λ rest k.
            Returns-pure (AreBytes (suc n)) ((x % 256) ∷ rest) (ap suc k.0, (omega arith, k.1))

flip_some-Returns :
    (input : List ℕ) → length input ≢ 0 → IsShort input → Returns IsShort (flip_some input)
unfolding flip_some
flip_some-Returns input h s =
    Returns-bind (λ i. i < length input) IsShort (below (length input)) _
      (below-Returns (length input) h)
      λ i hi.
        Returns-bind (λ n. n < 8) IsShort (below 8) _ (below-Returns 8 (omega arith))
          λ n hn.
            Returns-bind (λ x. x < 256) IsShort (bit n) _ (bit-Returns n hn)
              λ mask hm.
                Returns-bind (λ x. x < 256) IsShort (index input i) _
                  (index-Returns (λ x. x < 256) input i hi s.1)
                  λ b hb. store-Returns input i (bit_xor b mask) hi s (byte_xor-lt b mask hb hm)

overwrite_some-Returns :
    (input : List ℕ) → length input ≢ 0 → IsShort input → Returns IsShort (overwrite_some input)
unfolding overwrite_some
overwrite_some-Returns input h s =
    Returns-bind (λ i. i < length input) IsShort (below (length input)) _
      (below-Returns (length input) h)
      λ i hi.
        Returns-bind (λ x. Unit {0}) IsShort next_u64 _ next_u64-Returns
          λ x _. store-Returns input i (x % 256) hi s (omega arith)

truncate-Returns : (input : List ℕ) → IsShort input → Returns IsShort (truncate input)
unfolding truncate
truncate-Returns input s =
    Returns-bind (λ n. n < length input + 1) IsShort (below (length input + 1)) _
      (below-Returns (length input + 1) (omega arith))
      λ n hn.
        Returns-pure IsShort (take n input)
          (omega (arith, length-take n input, s.0), All-take (λ b. b < 256) n input s.1)

extend_some-Returns : (input : List ℕ) → IsShort input → Returns IsShort (extend_some input)
unfolding extend_some
extend_some-Returns input s =
    Returns-bind (λ n. n < 32) IsShort (below 32) _ (below-Returns 32 (omega arith))
      λ drawn hd.
        let n = min drawn (max_input_len - length input) in
        Returns-bind (AreBytes n) IsShort (random_bytes n) _ (random_bytes-Returns n) λ bytes k.
          Returns-pure IsShort (input ++ bytes) (
            omega (arith, length-append input bytes, k.0, s.0),
            All-append (λ b. b < 256) input bytes s.1 k.1,
          )

-- Each arm, with its guard.
flip_bit-Returns : (input : List ℕ) → IsShort input → Returns IsShort (flip_bit input)
unfolding flip_bit
flip_bit-Returns input s = elim (ℕ_discrete (length input) 0) [
  | yes e ↦ rw (==-true _ _ e) (Returns-pure IsShort input s)
  | no ne ↦ rw (==-false _ _ ne) (flip_some-Returns input ne s)
]

overwrite-Returns : (input : List ℕ) → IsShort input → Returns IsShort (overwrite input)
unfolding overwrite
overwrite-Returns input s = elim (ℕ_discrete (length input) 0) [
  | yes e ↦ rw (==-true _ _ e) (Returns-pure IsShort input s)
  | no ne ↦ rw (==-false _ _ ne) (overwrite_some-Returns input ne s)
]

extend-Returns : (input : List ℕ) → IsShort input → Returns IsShort (extend input)
unfolding extend
extend-Returns input s = elim (Bool-cases (ltb (length input) max_input_len)) [
  | inl room ↦ rw room (extend_some-Returns input s)
  | inr full ↦ rw full (Returns-pure IsShort input s)
]

-- Whatever the generator's state, a mutation of a byte string of at most 1024 bytes does not
-- panic, and yields such a byte string again.
pub mutate-Returns : (input : List ℕ) → IsShort input → Returns IsShort (mutate input)
unfolding mutate
mutate-Returns input s =
    Returns-bind (λ c. c < 4) IsShort (below 4) _ (below-Returns 4 (omega arith))
      λ c hc. elim (Bool-cases (c == 0)) [
        | inl e ↦ rw e (flip_bit-Returns input s)
        | inr ne ↦ rw ne (elim (Bool-cases (c == 1)) [
          | inl e ↦ rw e (truncate-Returns input s)
          | inr ne ↦ rw ne (elim (Bool-cases (c == 2)) [
            | inl e ↦ rw e (extend-Returns input s)
            | inr ne ↦ rw ne (overwrite-Returns input s)
          ])
        ])
      ]

pub mutate_rounds-Returns :
    (n : ℕ) (input : List ℕ) → IsShort input → Returns IsShort (mutate_rounds n input)
unfolding mutate_rounds
mutate_rounds-Returns zero input s = Returns-pure IsShort input s
mutate_rounds-Returns (suc n) input s =
    Returns-bind IsShort IsShort (mutate input) _ (mutate-Returns input s)
      λ input' s'. mutate_rounds-Returns n input' s'
