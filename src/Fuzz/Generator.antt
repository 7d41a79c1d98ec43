-- ===== src/Fuzz/Generator.antt =====
-- src/decode.rs, `XorShift64`: one step of the generator loses nothing.
use Prim.Native.Nat.{bit_xor}
use imageglass_ithmb_plugin.Prelude.{
  ℕ, ◌*◌, ◌/◌, ◌%◌, ◌^◌, ◌<◌, ◌≡◌, ◌≢◌, refl, sym, ap, ◌∙◌, arith,
}
use imageglass_ithmb_plugin.Prelude.Bits.{
  eq_of_bit_xor, bit_xor_self, bit_xor_middle, bit_xor_left, bit_xor_right, bit_xor_mod, bit_xor-lt,
}
use imageglass_ithmb_plugin.Fuzz.{xorshift}

-- A shift that goes through the exclusive or, and moves every word but 0.
record IsShift (shift : ℕ → ℕ) : Type 0 where
  pub linear : (a b : ℕ) → shift (bit_xor a b) ≡ bit_xor (shift a) (shift b)
  pub moves : (a : ℕ) → a < 2 ^ 64 → a ≡ shift a → a ≡ 0
  pub bounded : (a : ℕ) → a < 2 ^ 64 → shift a < 2 ^ 64

left-IsShift :
    (k : ℕ)
    → ((a : ℕ) → a < 2 ^ 64 → a ≡ a * 2 ^ k % 2 ^ 64 → a ≡ 0)
    → IsShift (λ a. a * 2 ^ k % 2 ^ 64)
left-IsShift k moves = record {
  linear = λ a b.
      ap (λ (x : ℕ). x % 2 ^ 64) (sym (bit_xor_left k a b))
      ∙ bit_xor_mod 64 (a * 2 ^ k) (b * 2 ^ k);
  moves = moves;
  bounded = λ a h. omega arith;
}

left_13 : IsShift (λ a. a * 2 ^ 13 % 2 ^ 64)
left_13 = left-IsShift 13 (λ a h e. omega arith)

left_17 : IsShift (λ a. a * 2 ^ 17 % 2 ^ 64)
left_17 = left-IsShift 17 (λ a h e. omega arith)

right_7 : IsShift (λ a. a / 2 ^ 7)
right_7 = record {
  linear = bit_xor_right 7;
  moves = λ a h e. omega arith;
  bounded = λ a h. omega arith;
}

word_xor-lt : (a b : ℕ) → a < 2 ^ 64 → b < 2 ^ 64 → bit_xor a b < 2 ^ 64
word_xor-lt a b h k = bit_xor-lt 64 a b (omega arith) (omega arith) (omega arith)

-- `x ^= shift x` takes different words to different words.
module _ (shift : ℕ → ℕ) (s : IsShift shift) where
  turn-lt : (a : ℕ) → a < 2 ^ 64 → bit_xor a (shift a) < 2 ^ 64
  turn-lt a h = word_xor-lt a (shift a) h (s.bounded a h)

  turn_injective :
      (a b : ℕ) → a < 2 ^ 64 → b < 2 ^ 64 → bit_xor a (shift a) ≡ bit_xor b (shift b) → a ≡ b
  turn_injective a b h k e =
      let d = bit_xor a b in
      let equal : bit_xor (bit_xor a (shift a)) (bit_xor b (shift b)) ≡ 0 =
        ap (λ (x : ℕ). bit_xor x (bit_xor b (shift b))) e ∙ bit_xor_self (bit_xor b (shift b)) in
      let fixed : bit_xor d (shift d) ≡ 0 =
        ap (bit_xor d) (s.linear a b) ∙ bit_xor_middle a b (shift a) (shift b) ∙ equal in
      eq_of_bit_xor a b (s.moves d (word_xor-lt a b h k) (eq_of_bit_xor d (shift d) fixed))

pub xorshift-lt : (x : ℕ) → x < 2 ^ 64 → xorshift x < 2 ^ 64
unfolding xorshift
xorshift-lt x h = turn-lt _ left_17 _ (turn-lt _ right_7 _ (turn-lt _ left_13 x h))

xorshift_cancel : (a b : ℕ) → a < 2 ^ 64 → b < 2 ^ 64 → xorshift a ≡ xorshift b → a ≡ b
unfolding xorshift
xorshift_cancel a b h k e =
    let h1 = turn-lt _ left_13 a h in
    let k1 = turn-lt _ left_13 b k in
    turn_injective _ left_13 a b h k (
      turn_injective _ right_7 _ _ h1 k1
        (turn_injective _ left_17 _ _ (turn-lt _ right_7 _ h1) (turn-lt _ right_7 _ k1) e))

zero_fixed : xorshift 0 ≡ 0
unfolding xorshift
zero_fixed = refl

-- Two different 64-bit states are never followed by the same state.
pub xorshift_injective : (a b : ℕ) → a < 2 ^ 64 → b < 2 ^ 64 → a ≢ b → xorshift a ≢ xorshift b
xorshift_injective a b h k ne e = ne (xorshift_cancel a b h k e)

-- A 64-bit state other than 0 is never followed by 0.
pub xorshift-ne-zero : (x : ℕ) → x < 2 ^ 64 → x ≢ 0 → xorshift x ≢ 0
xorshift-ne-zero x h ne e = ne (xorshift_cancel x 0 h (omega arith) (e ∙ sym zero_fixed))
