-- ===== src/Codec/Parsing.antt =====
-- src/codec.rs: which dimensions `parse_dimensions` reads.
use mathlib.Core.List.{reverse, reverse-cons, reverse-reverse}
use imageglass_ithmb_plugin.Prelude.{
  ℕ, ◌+◌, ◌-◌, ◌*◌, ◌^◌, ◌≤◌, ◌<◌, ◌≡◌, ◌≢◌, refl, [], ◌∷◌, ◌++◌, some, true, false, arith, All,
  lt→ltb, ==-false,
}
use imageglass_ithmb_plugin.Strings.{Str}
use imageglass_ithmb_plugin.Codec.Dimensions.{
  ◌>>=◌, cross, is_ascii_digit, is_whitespace, trim_start, trim, scan_digits, parse_usize,
  split_cross, take_digits, parse_dimensions,
}

abbrev pub IsDigit : ℕ → Type 0
IsDigit c = (0x30 ≤ c) × (c ≤ 0x39)

-- The number that decimal digits write, behind the number `n`.
abbrev pub value_behind : ℕ → Str → ℕ
value_behind n [] = n
value_behind n (c ∷ s) = value_behind (n * 10 + (c - 0x30)) s

abbrev pub value : Str → ℕ
value = value_behind 0

-- Text that does not go on with a digit.
abbrev pub NoDigit : Str → Type 0
NoDigit [] = Unit {0}
NoDigit (c ∷ s) = is_ascii_digit c ≡ false

digit_true : (c : ℕ) → IsDigit c → is_ascii_digit c ≡ true
digit_true c h = ground (arith, h.0, h.1)

value_grows : (n : ℕ) (s : Str) → n ≤ value_behind n s
value_grows n [] = omega arith
value_grows n (c ∷ s) = omega (arith, value_grows (n * 10 + (c - 0x30)) s)

pub scan_value :
    (n : ℕ) (s : Str)
    → All IsDigit s
    → value_behind n s < 2 ^ 64
    → scan_digits n s ≡ some (value_behind n s)
unfolding scan_digits
scan_value n [] h small = refl
scan_value n (c ∷ s) h small =
    let next = n * 10 + (c - 0x30) in
    rw
      (
        scan_value next s h.1 small,
        digit_true c h.0,
        lt→ltb next (2 ^ 64) (omega (arith, value_grows next s)),
      )
      refl

pub parse_value :
    (s : Str) → s ≢ [] → All IsDigit s → value s < 2 ^ 64 → parse_usize s ≡ some (value s)
unfolding parse_usize
parse_value [] ne h small = absurd (ne refl)
parse_value (c ∷ []) ne h small =
    rw (==-false c b'+' (λ e. omega (arith, e, h.0)), scan_value 0 (c ∷ []) h small) refl
parse_value (c ∷ d ∷ s) ne h small =
    rw (==-false c b'+' (λ e. omega (arith, e, h.0)), scan_value 0 (c ∷ d ∷ s) h small) refl

pub digits_taken : (s rest : Str) → All IsDigit s → NoDigit rest → take_digits (s ++ rest) ≡ s
unfolding take_digits
digits_taken [] [] h stop = refl
digits_taken [] (c ∷ rest) h stop = rw stop refl
digits_taken (c ∷ s) rest h stop = rw (digit_true c h.0, digits_taken s rest h.1 stop) refl

split_first : (s rest : Str) → All IsDigit s → split_cross (s ++ cross ∷ rest) ≡ some (s, rest)
unfolding split_cross
split_first [] rest h = refl
split_first (c ∷ s) rest h =
    rw (split_first s rest h.1, ==-false c cross (λ e. omega (arith, e, h.0))) refl

not_white : (c : ℕ) → IsDigit c → is_whitespace c ≡ false
not_white c h = ground (arith, h.0, h.1)

trim_start_digits : (s : Str) → All IsDigit s → trim_start s ≡ s
unfolding trim_start
trim_start_digits [] h = refl
trim_start_digits (c ∷ s) h = rw (not_white c h.0) refl

All-append : (s t : Str) → All IsDigit s → All IsDigit t → All IsDigit (s ++ t)
All-append [] t h k = k
All-append (c ∷ s) t h k = (h.0, All-append s t h.1 k)

All-reverse : (s : Str) → All IsDigit s → All IsDigit (reverse s)
All-reverse [] h = tt
All-reverse (c ∷ s) h =
    rw (reverse-cons c s) (All-append (reverse s) (c ∷ []) (All-reverse s h.1) (h.0, tt))

trim_digits : (s : Str) → All IsDigit s → trim s ≡ s
unfolding trim
trim_digits s h =
    rw (trim, trim_start_digits s h, trim_start_digits (reverse s) (All-reverse s h))
      (reverse-reverse s)

-- Non-empty decimal digits, the multiplication sign and non-empty decimal digits again are read
-- as the two numbers that they write, whatever text follows that does not go on with a digit, as
-- long as both numbers are below 2 ^ 64.
pub parse_dimensions-value :
    (ws hs rest : Str)
    → ws ≢ []
    → hs ≢ []
    → All IsDigit ws
    → All IsDigit hs
    → NoDigit rest
    → value ws < 2 ^ 64
    → value hs < 2 ^ 64
    → parse_dimensions (ws ++ (cross ∷ (hs ++ rest))) ≡ some (value ws, value hs)
unfolding parse_dimensions
parse_dimensions-value ws hs rest wne hne wd hd stop wsmall hsmall =
    rw
      (
        parse_dimensions,
        ◌>>=◌,
        split_first ws (hs ++ rest) wd,
        trim_digits ws wd,
        parse_value ws wne wd wsmall,
        digits_taken hs rest hd stop,
        parse_value hs hne hd hsmall,
      )
      refl
