-- ===== src/Codec/Trimming.antt =====
-- src/codec.rs: what `trim`, `find` and `take_while` leave of a profile's description.
use mathlib.Core.List.{reverse, reverse-cons, reverse-append, reverse-reverse}
use imageglass_ithmb_plugin.Prelude.{
  ℕ, ◌≡◌, ◌≢◌, refl, sym, ◌∙◌, ap, [], ◌∷◌, ◌++◌, some, none, true, false, arith, All, All-append,
  ==-false, Bool-cases, inl, inr, ==-true, Option,
}
use native.Mathlib.Decide.{ℕ_discrete}
use imageglass_ithmb_plugin.Strings.{Str}
use imageglass_ithmb_plugin.Codec.Dimensions.{
  ◌>>=◌, cross, is_ascii_digit, is_whitespace, trim_start, trim, split_cross, take_digits,
}
use imageglass_ithmb_plugin.Codec.Parsing.{IsDigit, NoDigit}

abbrev pub IsBlank : ℕ → Type 0
IsBlank c = is_whitespace c ≡ true

abbrev pub IsInk : ℕ → Type 0
IsInk c = is_whitespace c ≡ false

abbrev pub IsOther : ℕ → Type 0
IsOther c = c ≢ cross

All-reversed : (P : ℕ → Type 0) (s : Str) → All P s → All P (reverse s)
All-reversed P [] h = tt
All-reversed P (c ∷ s) h =
    rw (reverse-cons c s) (All-append P (reverse s) (c ∷ []) (All-reversed P s h.1) (h.0, tt))

-- `trim_start` takes blanks away, and no more.
trim_start_split : (s : Str) → (lead : Str) × (s ≡ lead ++ trim_start s) × All IsBlank lead
unfolding trim_start
trim_start_split [] = ([], refl, tt)
trim_start_split (c ∷ s) = elim (Bool-cases (is_whitespace c)) [
  | inl blank ↦
      let (lead, e, h) = trim_start_split s in
      (c ∷ lead, rw blank (ap (λ (t : Str). c ∷ t) e), (blank, h))
  | inr ink ↦ ([], rw ink refl, tt)
]

trim_start_skips : (lead s : Str) → All IsBlank lead → trim_start (lead ++ s) ≡ trim_start s
unfolding trim_start
trim_start_skips [] s h = refl
trim_start_skips (c ∷ lead) s h = rw h.0 (trim_start_skips lead s h.1)

trim_start_ink : (s : Str) → All IsInk s → trim_start s ≡ s
unfolding trim_start
trim_start_ink [] h = refl
trim_start_ink (c ∷ s) h = rw h.0 refl

trim_start_stays : (c : ℕ) (s : Str) → IsInk c → trim_start (c ∷ s) ≡ c ∷ s
unfolding trim_start
trim_start_stays c s h = rw h refl

-- A text is its trimmed form between blanks.
pub trim_split :
    (s : Str)
    → (lead trail : Str) × (s ≡ lead ++ (trim s ++ trail)) × All IsBlank lead × All IsBlank trail
unfolding trim
trim_split s =
    let (lead, e, h) = trim_start_split s in
    let (behind, f, k) = trim_start_split (reverse (trim_start s)) in
    let core = trim_start (reverse (trim_start s)) in
    let inner : trim_start s ≡ reverse core ++ reverse behind =
      sym (reverse-reverse (trim_start s)) ∙ ap reverse f ∙ reverse-append behind core in
    (lead, reverse behind, e ∙ ap (λ (t : Str). lead ++ t) inner, h, All-reversed IsBlank behind k)

-- What has no blank in it, and is not empty, is the trimmed form of itself between blanks.
pub trim_between :
    (lead core trail : Str)
    → core ≢ []
    → All IsBlank lead
    → All IsInk core
    → All IsBlank trail
    → trim (lead ++ (core ++ trail)) ≡ core
unfolding trim
trim_between lead [] trail ne h k l = absurd (ne refl)
trim_between lead (c ∷ core) trail ne h k l =
    rw
      (
        trim,
        trim_start_skips lead (c ∷ core ++ trail) h,
        trim_start_stays c (core ++ trail) k.0,
        reverse-append (c ∷ core) trail,
        trim_start_skips (reverse trail) (reverse (c ∷ core)) (All-reversed IsBlank trail l),
        trim_start_ink (reverse (c ∷ core)) (All-reversed IsInk (c ∷ core) k),
      )
      (reverse-reverse (c ∷ core))

-- `split_cross` splits at the first cross.
-- The text before and behind it, where there is a cross.
abbrev pub Splits : Str → Option (Str × Str) → Type 0
Splits s none = Unit {0}
Splits s (some p) = (s ≡ p.0 ++ (cross ∷ p.1)) × All IsOther p.0

split_further :
    (c : ℕ) (s : Str) (o : Option (Str × Str))
    → c ≢ cross
    → Splits s o
    → Splits (c ∷ s) (o >>= λ p. some (c ∷ p.0, p.1))
split_further c s none ne h = tt
split_further c s (some p) ne h = (ap (λ (t : Str). c ∷ t) h.0, (ne, h.1))

pub split_found : (s : Str) → Splits s (split_cross s)
unfolding split_cross
split_found [] = tt
split_found (c ∷ s) = elim (ℕ_discrete c cross) [
  | yes same ↦ rw (==-true c cross same) (ap (λ d. d ∷ s) same, tt)
  | no other ↦ rw (==-false c cross other) (split_further c s (split_cross s) other (split_found s))
]

pub split_at : (a b : Str) → All IsOther a → split_cross (a ++ cross ∷ b) ≡ some (a, b)
unfolding split_cross
split_at [] b h = refl
split_at (c ∷ a) b h = rw (split_at a b h.1, ==-false c cross h.0) refl

pub digits_split :
    (s : Str)
    → (rest : Str) × (s ≡ take_digits s ++ rest) × All IsDigit (take_digits s) × NoDigit rest
unfolding take_digits
digits_split [] = ([], refl, tt, tt)
digits_split (c ∷ s) = elim (Bool-cases (is_ascii_digit c)) [
  | inl digit ↦
      let (rest, e, h, stop) = digits_split s in
      (rest, rw digit (ap (λ (t : Str). c ∷ t) e), rw digit (ground (arith, digit), h), stop)
  | inr other ↦ (c ∷ s, rw other refl, rw other tt, other)
]
