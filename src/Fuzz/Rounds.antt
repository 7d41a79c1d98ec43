-- ===== src/Fuzz/Rounds.antt =====
-- src/decode.rs, `mutated_inputs_never_panic_the_decoder`: the rounds of the test, against the inputs
-- that the generator draws whatever the decoder does.
use imageglass_ithmb_plugin.Prelude.{
  ℕ, zero, suc, ◌+◌, ◌<◌, ◌≡◌, ◌≢◌, inl, inr, refl, ap, ◌∙◌, List, [], ◌∷◌, some, Option-cases,
  false, arith, length, All,
}
use imageglass_ithmb_plugin.Env.{Env, DecodeResult, decoded, failed, panics}
use imageglass_ithmb_plugin.Fuzz.{
  XorShift64, Gen, pure, ◌>>=◌, below, index, mutated_input, Counts, tally, fuzz_rounds,
}
use imageglass_ithmb_plugin.Fuzz.Mutation.{
  Returns, Returns-bind, Returns-pure, IsShort, below-Returns, index-Returns, mutate_rounds-Returns,
}

-- The decoder returns on the input, with an image or an error.
abbrev pub Decodes : Env → List ℕ → Type 0
Decodes env input = env.decode_ithmb input false ≢ panics

mutated_input-Returns :
    (seeds : List (List ℕ))
    → length seeds ≢ 0
    → All IsShort seeds
    → Returns IsShort (mutated_input seeds)
unfolding mutated_input
mutated_input-Returns seeds h s =
    Returns-bind (λ j. j < length seeds) IsShort (below (length seeds)) _
      (below-Returns (length seeds) h)
      λ j hj.
        Returns-bind IsShort IsShort (index seeds j) _ (index-Returns IsShort seeds j hj s)
          λ input i.
            Returns-bind (λ n. n < 3) IsShort (below 3) _ (below-Returns 3 (omega arith))
              λ drawn hd. mutate_rounds-Returns (1 + drawn) input i

-- After so many more rounds.
abbrev IsCounted : ℕ → Counts → Counts → Type 0
IsCounted n c c' = c'.errors + c'.successes ≡ c.errors + c.successes + n

tally-Returns : (r : DecodeResult) (c : Counts) → r ≢ panics → Returns (IsCounted 1 c) (tally r c)
unfolding tally
tally-Returns (decoded img) c h = Returns-pure (IsCounted 1 c) _ (omega arith)
tally-Returns (failed e) c h = Returns-pure (IsCounted 1 c) _ (omega arith)
tally-Returns panics c h = absurd (h refl)

pub fuzz_rounds-Returns :
    (env : Env) (seeds : List (List ℕ))
    → ((input : List ℕ) → IsShort input → Decodes env input)
    → length seeds ≢ 0
    → All IsShort seeds
    → (n : ℕ) (c : Counts) → Returns (IsCounted n c) (fuzz_rounds env seeds n c)
unfolding fuzz_rounds
fuzz_rounds-Returns env seeds d h s zero c = Returns-pure (IsCounted 0 c) c (omega arith)
fuzz_rounds-Returns env seeds d h s (suc n) c =
    Returns-bind IsShort (IsCounted (suc n) c) (mutated_input seeds) _
      (mutated_input-Returns seeds h s)
      λ input i.
        Returns-bind (IsCounted 1 c) (IsCounted (suc n) c) (tally (env.decode_ithmb input false) c)
          _ (tally-Returns _ c (d input i))
          λ c' e rng.
            let (c'', rng', e', k) = fuzz_rounds-Returns env seeds d h s n c' rng in
            (c'', rng', e', omega (arith, e, k))

-- The inputs of so many rounds, which do not depend on the decoder.
unfoldable pub inputs : List (List ℕ) → ℕ → Gen (List (List ℕ))
inputs seeds zero = pure []
inputs seeds (suc n) = do input ← mutated_input seeds; rest ← inputs seeds n; pure (input ∷ rest)

abbrev pub AreInputs : ℕ → List (List ℕ) → Type 0
AreInputs n xs = (length xs ≡ n) × All IsShort xs

pub inputs-Returns :
    (seeds : List (List ℕ))
    → length seeds ≢ 0
    → All IsShort seeds
    → (n : ℕ) → Returns (AreInputs n) (inputs seeds n)
unfolding inputs
inputs-Returns seeds h s zero = Returns-pure (AreInputs 0) [] (refl, tt)
inputs-Returns seeds h s (suc n) =
    Returns-bind IsShort (AreInputs (suc n)) (mutated_input seeds) _
      (mutated_input-Returns seeds h s)
      λ input i.
        Returns-bind (AreInputs n) (AreInputs (suc n)) (inputs seeds n) _
          (inputs-Returns seeds h s n)
          λ rest k. Returns-pure (AreInputs (suc n)) (input ∷ rest) (ap suc k.0, (i, k.1))

-- One more where the decoder returns an error.
abbrev counted : DecodeResult → ℕ → ℕ
counted (failed e) n = suc n
counted (decoded img) n = n
counted panics n = n

-- The number of the inputs on which the decoder returns an error.
unfoldable pub failures : Env → List (List ℕ) → ℕ
failures env [] = 0
failures env (input ∷ inputs) = counted (env.decode_ithmb input false) (failures env inputs)

-- What a chain of draws has drawn when it returns.
taken {ℓ κ} :
    {A : Type ℓ} {B : Type κ} (m : Gen A) (f : A → Gen B) (rng rng'' : XorShift64) (b : B)
    → (m >>= f) rng ≡ some (b, rng'')
    → (a : A) × (rng' : XorShift64) × (m rng ≡ some (a, rng')) × (f a rng' ≡ some (b, rng''))
taken m f rng rng'' b e = elim (Option-cases (m rng)) [
  | inl z ↦ absurd (cc (rw (◌>>=◌, z) at e))
  | inr ((a, rng'), z) ↦ (a, rng', z, rw (◌>>=◌, z) at e)
]

tally-returned :
    (r : DecodeResult) (c c' : Counts) (rng rng' : XorShift64) (n : ℕ)
    → tally r c rng ≡ some (c', rng')
    → (r ≢ panics) × (rng ≡ rng') × (c.errors + counted r n ≡ c'.errors + n)
unfolding tally
tally-returned (decoded img) c c' rng rng' n e =
    (λ z. cc z, cc e, let k : c.errors ≡ c'.errors = cc e in omega (arith, k))
tally-returned (failed m) c c' rng rng' n e =
    (λ z. cc z, cc e, let k : c.errors + 1 ≡ c'.errors = cc e in omega (arith, k))
tally-returned panics c c' rng rng' n e = absurd (cc e)

-- The rounds return just when the decoder returns on each of the inputs drawn.
pub fuzz_rounds-returned :
    (env : Env) (seeds : List (List ℕ)) (n : ℕ) (c c' : Counts) (rng rng' : XorShift64)
    → fuzz_rounds env seeds n c rng ≡ some (c', rng')
    → (xs : List (List ℕ)) × (inputs seeds n rng ≡ some (xs, rng'))
      × All (Decodes env) xs
      × (c'.errors ≡ c.errors + failures env xs)
unfolding fuzz_rounds inputs failures
fuzz_rounds-returned env seeds zero c c' rng rng' e =
    let k : c.errors ≡ c'.errors = cc e in ([], cc e, tt, omega (arith, k))
fuzz_rounds-returned env seeds (suc n) c c' rng rng'' e =
    let (input, rng1, e1, e2) = taken (mutated_input seeds) _ rng rng'' c' e in
    let (c1, rng2, e3, e4) = taken (tally (env.decode_ithmb input false) c) _ rng1 rng'' c' e2 in
    let (xs, e5, all, k) = fuzz_rounds-returned env seeds n c1 c' rng2 rng'' e4 in
    let (d, same, k') =
      tally-returned (env.decode_ithmb input false) c c1 rng1 rng2 (failures env xs) e3 in
    let drawn : inputs seeds n rng1 ≡ some (xs, rng'') = ap (inputs seeds n) same ∙ e5 in
    (input ∷ xs, rw (◌>>=◌, e1, drawn) refl, (d, all), omega (arith, k, k'))
