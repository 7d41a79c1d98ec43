-- ===== src/Fuzz/Harness.antt =====
-- src/decode.rs, `mutated_inputs_never_panic_the_decoder`: what a passed test says of the decoder,
-- and what a decoder that never panics does to the test.
use imageglass_ithmb_plugin.Prelude.{
  ℕ, zero, suc, ◌+◌, ◌<◌, ◌≡◌, ◌≢◌, ◌↔◌, ◌⊎◌, inl, inr, refl, ap, sym, ◌∙◌, List, [], ◌∷◌, ◌++◌,
  none, some, Bool-cases, Option-cases, and_true, true, ==-true, ==-false, ◌==◌, arith, length, All,
  length-append, All-append,
}
use mathlib.Core.Path.{subst}
use native.Mathlib.Decide.{ℕ_discrete}
use imageglass_ithmb_plugin.Env.{Env, DecodeResult, decoded, failed, panics}
use imageglass_ithmb_plugin.Fuzz.{
  XorShift64, Counts, fuzz_rounds, is_ok, asserted, seeds_pass, pad_from, pad, seed_vectors, seed,
  mutations, mutated_inputs_never_panic_the_decoder,
}
use imageglass_ithmb_plugin.Fuzz.Mutation.{IsShort, AreBytes}
use imageglass_ithmb_plugin.Fuzz.Rounds.{
  Decodes, AreInputs, inputs, failures, inputs-Returns, fuzz_rounds-Returns, fuzz_rounds-returned,
}

abbrev pub start : XorShift64
start = record { state = seed }

abbrev no_counts : Counts
no_counts = record { errors = 0; successes = 0 }

is_ok_sound : (r : DecodeResult) → is_ok r ≡ true → r ≢ panics
unfolding is_ok
is_ok_sound (decoded img) e z = cc z
is_ok_sound (failed m) e z = cc z
is_ok_sound panics e z = cc e

is_ok_complete : (r : DecodeResult) → r ≢ panics → is_ok r ≡ true
unfolding is_ok
is_ok_complete (decoded img) d = refl
is_ok_complete (failed m) d = refl
is_ok_complete panics d = absurd (d refl)

seeds_pass_iff :
    (env : Env) (seeds : List (List ℕ)) → (seeds_pass env seeds ≡ true) ↔ All (Decodes env) seeds
unfolding seeds_pass
seeds_pass_iff env [] = (λ _. tt, λ _. refl)
seeds_pass_iff env (s ∷ seeds) = (
  λ e. let (d, rest) = and_true _ _ e in (is_ok_sound _ d, (seeds_pass_iff env seeds).0 rest),
  λ d. rw (is_ok_complete _ d.0) ((seeds_pass_iff env seeds).1 d.1),
)

asserted_sound : (c c' : Counts) → asserted c ≡ some c' → (c ≡ c') × (0 < c.errors)
unfolding asserted
asserted_sound c c' e = elim (ℕ_discrete c.errors 0) [
  | yes z ↦ absurd (cc (rw (==-true _ _ z) at e))
  | no nz ↦ elim (Bool-cases ((c.successes + c.errors) == mutations)) [
    | inl k ↦ let e' = rw (==-false _ _ nz, k) at e in (cc e', omega (arith, nz))
    | inr k ↦ absurd (cc (rw (==-false _ _ nz, k) at e))
  ]
]

asserted_complete :
    (c : Counts) → c.errors ≢ 0 → c.errors + c.successes ≡ mutations → asserted c ≡ some c
unfolding asserted
asserted_complete c h k =
    let k' : c.successes + c.errors ≡ mutations = omega (arith, k) in
    rw (==-false _ _ h, ==-true _ _ k') refl

pad_from-AreBytes : (n start i : ℕ) → AreBytes n (pad_from n start i)
unfolding pad_from
pad_from-AreBytes zero start i = (refl, tt)
pad_from-AreBytes (suc n) start i =
    let (len, all) = pad_from-AreBytes n start (i + 1) in (ap suc len, (omega arith, all))

-- A header, padded.
padded-IsShort :
    (header : List ℕ) (start : ℕ)
    → (length header ≡ 4) × All (λ b. b < 256) header
    → IsShort (header ++ pad 60 start)
unfolding pad
padded-IsShort header start (four, all) =
    let (len, all') = pad_from-AreBytes 60 start 0 in
    (
      omega (arith, length-append header (pad_from 60 start 0), len, four),
      All-append (λ b. b < 256) header (pad_from 60 start 0) all all',
    )

seed_vectors-IsShort : All IsShort seed_vectors
unfolding seed_vectors
seed_vectors-IsShort =
    let head = padded-IsShort (0x00 ∷ 0x00 ∷ 0x04 ∷ 0x00 ∷ []) 0x11 (refl, ground arith) in
    let jpeg = padded-IsShort (0xFF ∷ 0xD8 ∷ 0xFF ∷ 0xE0 ∷ []) 0x22 (refl, ground arith) in
    let other = padded-IsShort (0x00 ∷ 0x00 ∷ 0x04 ∷ 0x45 ∷ []) 0x33 (refl, ground arith) in
    (
      ground arith,
      (
        ground arith,
        (ground arith, (ground arith, (ground arith, (ground arith, (head, (jpeg, (other, tt))))))),
      ),
    )

-- If the fuzz test passes, then the decoder panics on no seed vector and on none of the 3000
-- inputs that the generator draws, and the errors that the test counts are those of these
-- inputs, at least one.
pub fuzz_sound :
    (env : Env) (c : Counts)
    → mutated_inputs_never_panic_the_decoder env ≡ some c
    → All (Decodes env) seed_vectors
      × (xs : List (List ℕ)) × (rng : XorShift64) × (inputs seed_vectors mutations start
          ≡ some (xs, rng))
      × All (Decodes env) xs
      × (c.errors ≡ failures env xs)
      × (0 < c.errors)
unfolding mutated_inputs_never_panic_the_decoder
fuzz_sound env c e = elim (Bool-cases (seeds_pass env seed_vectors)) [
  | inr k ↦ absurd (cc (rw k at e))
  | inl k ↦
      let run = fuzz_rounds env seed_vectors mutations no_counts start in
      elim (Option-cases run) [
        | inl z ↦ absurd (cc (rw (k, z) at e))
        | inr ((c', rng), z) ↦
            let (same, pos) = asserted_sound c' c (rw (k, z) at e) in
            let (xs, drawn, all, count) =
              fuzz_rounds-returned env seed_vectors mutations _ c' start rng z in
            (
              (seeds_pass_iff env seed_vectors).0 k,
              xs,
              rng,
              drawn,
              all,
              omega (arith, count, ap (λ x. x.errors) same),
              omega (arith, pos, ap (λ x. x.errors) same),
            )
      ]
]

seeded : length seed_vectors ≢ 0
unfolding seed_vectors
seeded e = cc e

All-Decodes :
    (env : Env) (xs : List (List ℕ))
    → ((input : List ℕ) → IsShort input → Decodes env input)
    → All IsShort xs
    → All (Decodes env) xs
All-Decodes env [] d s = tt
All-Decodes env (x ∷ xs) d s = (d x s.0, All-Decodes env xs d s.1)

-- If the decoder panics on no byte string of at most 1024 bytes, then the 3000 inputs are drawn,
-- each of at most 1024 bytes, and the fuzz test passes, with its errors counted and its counts
-- adding up to 3000, or no input is an error and the test fails.
pub fuzz_complete :
    (env : Env)
    → ((input : List ℕ) → IsShort input → Decodes env input)
    → (xs : List (List ℕ)) × (rng : XorShift64) × (inputs seed_vectors mutations start
        ≡ some (xs, rng))
      × AreInputs mutations xs
      × (((c : Counts) × (mutated_inputs_never_panic_the_decoder env ≡ some c)
            × (c.errors ≡ failures env xs)
            × (c.errors + c.successes ≡ mutations))
          ⊎ ((failures env xs ≡ 0) × (mutated_inputs_never_panic_the_decoder env ≡ none)))
unfolding mutated_inputs_never_panic_the_decoder asserted
fuzz_complete env d =
    let (c, rng, e, total) =
      fuzz_rounds-Returns env seed_vectors d seeded seed_vectors-IsShort mutations no_counts
        start in
    let (xs, drawn, all, count) =
      fuzz_rounds-returned env seed_vectors mutations no_counts c start rng e in
    let (xs', rng', drawn', are) =
      inputs-Returns seed_vectors seeded seed_vectors-IsShort mutations start in
    let same : xs' ≡ xs = cc (sym drawn' ∙ drawn) in
    let k = (seeds_pass_iff env seed_vectors).1 (All-Decodes env _ d seed_vectors-IsShort) in
    (
      xs,
      rng,
      drawn,
      subst (AreInputs mutations) same are,
      elim (ℕ_discrete c.errors 0) [
        | yes z ↦ inr (omega (arith, count, z), rw (k, e, asserted, ==-true _ _ z) refl)
        | no nz ↦ inl (c, rw (k, e) (asserted_complete c nz total), omega (arith, count), total)
      ],
    )
