-- ===== src/Prelude/Bits.antt =====
-- Laws of `^` on machine words, from the digit recursion that the native operation stands for.
use Prim.Native.Nat.{
  ℕ, zero, suc, ◌+◌, ◌*◌, ◌/◌, ◌%◌, ◌^◌, ◌≤◌, ◌<◌, bit_xor, bit_xor-bitwise, digits, differ,
}
use mathlib.Core.Path.{◌≡◌, refl, sym, ap, ap₂, ◌∙◌}
use native.Mathlib.Omega.{arith}
use native.Mathlib.Nat.{pow-suc, mod-lt, mod-add-div, div-div-eq-div-mul, mul_assoc}

abbrev xor_digits : ℕ → ℕ → ℕ → ℕ
xor_digits n a b = digits (λ y. y) differ n a b

-- Any count of rounds will do that is not below the first number.
xor_digits_rounds : (n m a b : ℕ) → a ≤ n → a ≤ m → xor_digits n a b ≡ xor_digits m a b
xor_digits_rounds zero zero a b p q = refl
xor_digits_rounds zero (suc m) zero b p q = refl
xor_digits_rounds zero (suc m) (suc a) b p q = absurd (omega arith)
xor_digits_rounds (suc n) zero zero b p q = refl
xor_digits_rounds (suc n) zero (suc a) b p q = absurd (omega arith)
xor_digits_rounds (suc n) (suc m) zero b p q = refl
xor_digits_rounds (suc n) (suc m) (suc a) b p q =
    omega (arith, xor_digits_rounds n m (suc a / 2) (b / 2) (omega arith) (omega arith))

zero-bit_xor : (b : ℕ) → bit_xor 0 b ≡ b
zero-bit_xor b = bit_xor-bitwise 0 b

differ_sum : (x y : ℕ) → x < 2 → y < 2 → differ x y ≡ (x + y) % 2
differ_sum zero y p q = omega arith
differ_sum (suc zero) zero p q = refl
differ_sum (suc zero) (suc zero) p q = refl
differ_sum (suc zero) (suc (suc y)) p q = absurd (omega arith)
differ_sum (suc (suc x)) y p q = absurd (omega arith)

-- The lowest digit, and the rest.
pub bit_xor_step : (a b : ℕ) → bit_xor a b ≡ bit_xor (a / 2) (b / 2) * 2 + (a + b) % 2
bit_xor_step zero b = omega (arith, zero-bit_xor b, zero-bit_xor (b / 2))
bit_xor_step (suc a) b = omega (
  arith,
  bit_xor-bitwise (suc a) b,
  bit_xor-bitwise (suc a / 2) (b / 2),
  xor_digits_rounds a (suc a / 2) (suc a / 2) (b / 2) (omega arith) (omega arith),
  differ_sum (suc a % 2) (b % 2) (omega arith) (omega arith),
)

-- The laws are proved for all numbers up to a bound, by halving.
eq_of_bit_xor_below : (n a b : ℕ) → a ≤ n → b ≤ n → bit_xor a b ≡ 0 → a ≡ b
eq_of_bit_xor_below zero a b p q e = omega arith
eq_of_bit_xor_below (suc n) a b p q e = omega (
  arith,
  bit_xor_step a b,
  eq_of_bit_xor_below n (a / 2) (b / 2) (omega arith) (omega arith)
      (omega (arith, bit_xor_step a b)),
)

pub eq_of_bit_xor : (a b : ℕ) → bit_xor a b ≡ 0 → a ≡ b
eq_of_bit_xor a b = eq_of_bit_xor_below (a + b) a b (omega arith) (omega arith)

self_below : (n a : ℕ) → a ≤ n → bit_xor a a ≡ 0
self_below zero zero p = refl
self_below zero (suc a) p = absurd (omega arith)
self_below (suc n) a p = omega (arith, bit_xor_step a a, self_below n (a / 2) (omega arith))

pub bit_xor_self : (a : ℕ) → bit_xor a a ≡ 0
bit_xor_self a = self_below a a (omega arith)

comm_below : (n a b : ℕ) → a ≤ n → b ≤ n → bit_xor a b ≡ bit_xor b a
comm_below zero zero zero p q = refl
comm_below zero zero (suc b) p q = absurd (omega arith)
comm_below zero (suc a) b p q = absurd (omega arith)
comm_below (suc n) a b p q = omega (
  arith,
  bit_xor_step a b,
  bit_xor_step b a,
  comm_below n (a / 2) (b / 2) (omega arith) (omega arith),
)

pub bit_xor_comm : (a b : ℕ) → bit_xor a b ≡ bit_xor b a
bit_xor_comm a b = comm_below (a + b) a b (omega arith) (omega arith)

-- The exclusive or of halves is the half of the exclusive or.
pub bit_xor_half : (a b : ℕ) → bit_xor a b / 2 ≡ bit_xor (a / 2) (b / 2)
bit_xor_half a b = omega (arith, bit_xor_step a b)

assoc_below :
    (n a b c : ℕ) → a ≤ n → b ≤ n → c ≤ n → bit_xor (bit_xor a b) c ≡ bit_xor a (bit_xor b c)
assoc_below zero zero zero zero p q r = refl
assoc_below zero zero zero (suc c) p q r = absurd (omega arith)
assoc_below zero zero (suc b) c p q r = absurd (omega arith)
assoc_below zero (suc a) b c p q r = absurd (omega arith)
assoc_below (suc n) a b c p q r = omega (
  arith,
  bit_xor_step (bit_xor a b) c,
  bit_xor_step a (bit_xor b c),
  bit_xor_step a b,
  bit_xor_step b c,
  ap (λ (x : ℕ). bit_xor x (c / 2)) (bit_xor_half a b),
  ap (λ (x : ℕ). bit_xor (a / 2) x) (bit_xor_half b c),
  assoc_below n (a / 2) (b / 2) (c / 2) (omega arith) (omega arith) (omega arith),
)

pub bit_xor_assoc : (a b c : ℕ) → bit_xor (bit_xor a b) c ≡ bit_xor a (bit_xor b c)
bit_xor_assoc a b c = assoc_below (a + b + c) a b c (omega arith) (omega arith) (omega arith)

-- A swap of the middle two of four.
pub bit_xor_middle :
    (a b c d : ℕ) → bit_xor (bit_xor a b) (bit_xor c d) ≡ bit_xor (bit_xor a c) (bit_xor b d)
bit_xor_middle a b c d =
    bit_xor_assoc a b (bit_xor c d)
    ∙ ap (bit_xor a) (
        sym (bit_xor_assoc b c d)
        ∙ ap (λ (x : ℕ). bit_xor x d) (bit_xor_comm b c)
        ∙ bit_xor_assoc c b d)
    ∙ sym (bit_xor_assoc a c (bit_xor b d))

mod_step : (k a : ℕ) → a % 2 ^ suc k ≡ a / 2 % 2 ^ k * 2 + a % 2
mod_step k a =
    let m = 2 ^ k in
    let q = a / 2 / m in
    let whole : a % (2 * m) + 2 * m * (a / (2 * m)) ≡ a = mod-add-div a (2 * m) in
    let half : a / 2 % m + m * q ≡ a / 2 = mod-add-div (a / 2) m in
    let quotient : a / (2 * m) ≡ q = sym (div-div-eq-div-mul a 2 m) in
    let power : 2 ^ suc k ≡ 2 * m = omega (arith, pow-suc 2 k) in
    rw power (omega (arith, whole, half, ap (λ (x : ℕ). 2 * m * x) quotient, mul_assoc 2 m q))

-- Shifts go through: to the left, to the right, and where the high bits are cut off.
double : (a b : ℕ) → bit_xor (a * 2) (b * 2) ≡ bit_xor a b * 2
double a b =
    let ha : a * 2 / 2 ≡ a = omega arith in
    let hb : b * 2 / 2 ≡ b = omega arith in
    omega (arith, bit_xor_step (a * 2) (b * 2), ap₂ bit_xor ha hb)

pub bit_xor_left : (k a b : ℕ) → bit_xor (a * 2 ^ k) (b * 2 ^ k) ≡ bit_xor a b * 2 ^ k
bit_xor_left zero a b =
    let ha : a * 2 ^ 0 ≡ a = omega arith in
    let hb : b * 2 ^ 0 ≡ b = omega arith in ap₂ bit_xor ha hb ∙ omega arith
bit_xor_left (suc k) a b =
    let power = λ (x : ℕ). ap (λ (y : ℕ). x * y) (pow-suc 2 k) ∙ sym (mul_assoc x (2 ^ k) 2) in
    ap₂ bit_xor (power a) (power b)
    ∙ double (a * 2 ^ k) (b * 2 ^ k)
    ∙ ap (λ (x : ℕ). x * 2) (bit_xor_left k a b)
    ∙ sym (power (bit_xor a b))

pub bit_xor_right : (k a b : ℕ) → bit_xor a b / 2 ^ k ≡ bit_xor (a / 2 ^ k) (b / 2 ^ k)
bit_xor_right zero a b =
    let ha : a / 2 ^ 0 ≡ a = omega arith in
    let hb : b / 2 ^ 0 ≡ b = omega arith in omega arith ∙ ap₂ bit_xor (sym ha) (sym hb)
bit_xor_right (suc k) a b =
    let power =
      λ (x : ℕ). ap (λ (y : ℕ). x / y) (pow-suc 2 k) ∙ sym (div-div-eq-div-mul x (2 ^ k) 2) in
    power (bit_xor a b)
    ∙ ap (λ (x : ℕ). x / 2) (bit_xor_right k a b)
    ∙ bit_xor_half (a / 2 ^ k) (b / 2 ^ k)
    ∙ sym (ap₂ bit_xor (power a) (power b))

pub bit_xor_mod : (k a b : ℕ) → bit_xor a b % 2 ^ k ≡ bit_xor (a % 2 ^ k) (b % 2 ^ k)
bit_xor_mod zero a b =
    let ha : a % 2 ^ 0 ≡ 0 = omega arith in
    let hb : b % 2 ^ 0 ≡ 0 = omega arith in omega arith ∙ sym (ap₂ bit_xor ha hb)
bit_xor_mod (suc k) a b =
    let a' = a % 2 ^ suc k in
    let b' = b % 2 ^ suc k in
    let ha : a' / 2 ≡ a / 2 % 2 ^ k = omega (arith, mod_step k a) in
    let hb : b' / 2 ≡ b / 2 % 2 ^ k = omega (arith, mod_step k b) in
    omega (
      arith,
      mod_step k (bit_xor a b),
      mod_step k a,
      mod_step k b,
      bit_xor_step a' b',
      bit_xor_step a b,
      ap (λ (x : ℕ). x % 2 ^ k) (bit_xor_half a b),
      bit_xor_mod k (a / 2) (b / 2),
      ap₂ bit_xor ha hb,
    )

-- The exclusive or of two words is a word.
pub bit_xor-lt : (k a b : ℕ) → 0 < 2 ^ k → a % 2 ^ k ≡ a → b % 2 ^ k ≡ b → bit_xor a b < 2 ^ k
bit_xor-lt k a b h ha hb = rw (bit_xor_mod k a b ∙ ap₂ bit_xor ha hb) at (mod-lt (bit_xor a b) h)
