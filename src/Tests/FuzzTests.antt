-- ===== src/Tests/FuzzTests.antt =====
-- The generator at two states, a mutation of a JPEG header, and the test on a decoder that knows no
-- format.
use imageglass_ithmb_plugin.Prelude.{
  ℕ, ◌+◌, ◌<◌, ◌≡◌, ◌⊎◌, suc, refl, ap, inl, inr, List, [], ◌∷◌, none, some, length, All, arith,
}
use imageglass_ithmb_plugin.Types.{DecodeError}
use imageglass_ithmb_plugin.Env.{Env, failed}
use imageglass_ithmb_plugin.Fuzz.{
  XorShift64, xorshift, mutate, Counts, mutations, seed_vectors,
  mutated_inputs_never_panic_the_decoder,
}
use imageglass_ithmb_plugin.Fuzz.Mutation.{Returns, IsShort, mutate-Returns}
use imageglass_ithmb_plugin.Fuzz.Rounds.{Decodes, AreInputs, inputs, failures}
use imageglass_ithmb_plugin.Fuzz.Harness.{start, fuzz_sound, fuzz_complete}
use imageglass_ithmb_plugin.Tests.Fixtures.{test_env}

xorshift_1 : xorshift 1 ≡ 1082269761
unfolding xorshift
xorshift_1 = refl

mutate-Returns_example : Returns IsShort (mutate (0xFF ∷ 0xD8 ∷ 0xFF ∷ 0xE0 ∷ []))
mutate-Returns_example = mutate-Returns (0xFF ∷ 0xD8 ∷ 0xFF ∷ 0xE0 ∷ []) (omega arith, ground arith)

-- No format is known.
abbrev rejecting_env : Env
rejecting_env = record test_env { decode_ithmb = λ bytes canceled. failed DecodeError.unsupported }

rejecting_env-Decodes : (input : List ℕ) → IsShort input → Decodes rejecting_env input
rejecting_env-Decodes input s e = cc e

failures_all : (xs : List (List ℕ)) → failures rejecting_env xs ≡ length xs
unfolding failures
failures_all [] = refl
failures_all (x ∷ xs) = ap suc (failures_all xs)

fuzz_complete_example :
    (xs : List (List ℕ)) × (rng : XorShift64) × (inputs seed_vectors mutations start
      ≡ some (xs, rng))
    × AreInputs mutations xs
    × (((c : Counts) × (mutated_inputs_never_panic_the_decoder rejecting_env ≡ some c)
          × (c.errors ≡ failures rejecting_env xs)
          × (c.errors + c.successes ≡ mutations))
        ⊎ ((failures rejecting_env xs ≡ 0)
            × (mutated_inputs_never_panic_the_decoder rejecting_env ≡ none)))
fuzz_complete_example = fuzz_complete rejecting_env rejecting_env-Decodes

abbrev Passed : Env → Type 0
Passed env = (c : Counts) × (mutated_inputs_never_panic_the_decoder env ≡ some c)

rejecting_env-Passed : Passed rejecting_env
rejecting_env-Passed =
    let (xs, rng, drawn, are, ends) = fuzz_complete rejecting_env rejecting_env-Decodes in
    elim ends [
      | inl (c, e, errors, total) ↦ (c, e)
      | inr (z, e) ↦ absurd (omega (arith, z, failures_all xs, are.0))
    ]

fuzz_sound_example :
    All (Decodes rejecting_env) seed_vectors
    × (xs : List (List ℕ)) × (rng : XorShift64) × (inputs seed_vectors mutations start
        ≡ some (xs, rng))
    × All (Decodes rejecting_env) xs
    × (rejecting_env-Passed.0.errors ≡ failures rejecting_env xs)
    × (0 < rejecting_env-Passed.0.errors)
fuzz_sound_example = fuzz_sound rejecting_env rejecting_env-Passed.0 rejecting_env-Passed.1
