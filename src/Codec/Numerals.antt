-- ===== src/Codec/Numerals.antt =====
-- src/codec.rs: the numbers that `str::parse::<usize>` reads.
use imageglass_ithmb_plugin.Prelude.{
  ℕ, ◌+◌, ◌-◌, ◌*◌, ◌^◌, ◌<◌, ◌≡◌, ◌≢◌, ◌⊎◌, inl, inr, refl, sym, ◌∙◌, ap, [], ◌∷◌, ◌++◌, some,
  none, true, false, arith, All, ==-false, ==-true, Option, Bool, Bool-cases, ◌&&◌, ltb, ◌==◌,
  if◌then◌else◌,
}
use mathlib.Core.Path.{subst}
use native.Mathlib.Decide.{ℕ_discrete}
use imageglass_ithmb_plugin.Strings.{Str}
use imageglass_ithmb_plugin.Codec.Dimensions.{is_ascii_digit, scan_digits, parse_usize}
use imageglass_ithmb_plugin.Codec.Parsing.{IsDigit, value_behind, value, scan_value, parse_value}

-- Digits that write the number `v`, which a `usize` holds.
pub record IsNumeral (s : Str) (v : ℕ) : Type 0 where
  pub not_empty : s ≢ []
  pub digits : All IsDigit s
  pub valued : value s ≡ v
  pub small : v < 2 ^ 64

abbrev pub IsSign : Str → Type 0
IsSign s = (s ≡ []) ⊎ (s ≡ b'+' ∷ [])

-- The digits that are left, and the value of all.
abbrev Scans : ℕ → Str → Option ℕ → Type 0
Scans n s none = Unit {0}
Scans n s (some v) = All IsDigit s × (value_behind n s ≡ v) × (v < 2 ^ 64)

scan_further :
    (n c : ℕ) (s : Str) (o : Option ℕ) (b : Bool)
    → (is_ascii_digit c && ltb (n * 10 + (c - 0x30)) (2 ^ 64)) ≡ b
    → ((n * 10 + (c - 0x30)) < 2 ^ 64 → Scans (n * 10 + (c - 0x30)) s o)
    → Scans n (c ∷ s) (if b then o else none)
scan_further n c s o false e h = tt
scan_further n c s none true e h = tt
scan_further n c s (some v) true e h =
    let (digits, valued, small) = h (ground (arith, e)) in
    ((ground (arith, e), digits), valued, small)

scanned : (n : ℕ) (s : Str) → n < 2 ^ 64 → Scans n s (scan_digits n s)
unfolding scan_digits
scanned n [] h = (tt, refl, h)
scanned n (c ∷ s) h =
    scan_further n c s (scan_digits (n * 10 + (c - 0x30)) s) _ refl
      (scanned (n * 10 + (c - 0x30)) s)

-- What is parsed is a numeral behind a plus sign or none.
pub record IsSigned (s : Str) (v : ℕ) : Type 0 where
  pub sign : Str
  pub digits : Str
  pub text : s ≡ sign ++ digits
  pub signed : IsSign sign
  pub numeral : IsNumeral digits v

scanned-IsNumeral : (c : ℕ) (s : Str) (v : ℕ) → scan_digits 0 (c ∷ s) ≡ some v → IsNumeral (c ∷ s) v
scanned-IsNumeral c s v e =
    let (digits, valued, small) = subst (Scans 0 (c ∷ s)) e (scanned 0 (c ∷ s) (omega arith)) in
    record { not_empty = λ q. cc q; digits = digits; valued = valued; small = small }

unsigned : (c : ℕ) (s : Str) (v : ℕ) → scan_digits 0 (c ∷ s) ≡ some v → IsSigned (c ∷ s) v
unsigned c s v e = record {
  sign = [];
  digits = c ∷ s;
  text = refl;
  signed = inl refl;
  numeral = scanned-IsNumeral c s v e;
}

pub parse_sound : (s : Str) (v : ℕ) → parse_usize s ≡ some v → IsSigned s v
unfolding parse_usize
parse_sound [] v e = absurd (cc e)
parse_sound (c ∷ []) v e = elim (Bool-cases (c == b'+')) [
  | inl plus ↦ absurd (cc (rw plus at e))
  | inr other ↦ unsigned c [] v (rw other at e)
]
parse_sound (c ∷ d ∷ s) v e = elim (ℕ_discrete c b'+') [
  | yes plus ↦ record {
    sign = b'+' ∷ [];
    digits = d ∷ s;
    text = ap (λ a. a ∷ d ∷ s) plus;
    signed = inr refl;
    numeral = scanned-IsNumeral d s v (rw (==-true c b'+' plus) at e);
  }
  | no other ↦ unsigned c (d ∷ s) v (rw (==-false c b'+' other) at e)
]

parse_plus :
    (s : Str) → s ≢ [] → All IsDigit s → value s < 2 ^ 64 → parse_usize (b'+' ∷ s) ≡ some (value s)
unfolding parse_usize
parse_plus [] ne h small = absurd (ne refl)
parse_plus (c ∷ s) ne h small = scan_value 0 (c ∷ s) h small

pub parse_signed :
    (sign digits : Str) (v : ℕ)
    → IsSign sign
    → IsNumeral digits v
    → parse_usize (sign ++ digits) ≡ some v
parse_signed sign digits v (inl e) n =
    rw (e, sym n.valued)
      (parse_value digits n.not_empty n.digits (subst (λ a. a < 2 ^ 64) (sym n.valued) n.small))
parse_signed sign digits v (inr e) n =
    rw (e, sym n.valued)
      (parse_plus digits n.not_empty n.digits (subst (λ a. a < 2 ^ 64) (sym n.valued) n.small))

no_sign : (s digits : Str) (v : ℕ) → s ≡ b'+' ∷ digits → All IsDigit s → IsNumeral s v
no_sign s digits v e h =
    let digit : IsDigit b'+' = (subst (All IsDigit) e h).0 in absurd (omega (arith, digit.0))

signed_digits : (s : Str) (v : ℕ) → All IsDigit s → IsSigned s v → IsNumeral s v
signed_digits s v h p = elim p.signed [
  | inl none_there ↦
      subst (λ t. IsNumeral t v) (sym (p.text ∙ ap (λ t. t ++ p.digits) none_there)) p.numeral
  | inr plus ↦ no_sign s p.digits v (p.text ∙ ap (λ t. t ++ p.digits) plus) h
]

pub digits-IsNumeral : (s : Str) (v : ℕ) → All IsDigit s → parse_usize s ≡ some v → IsNumeral s v
digits-IsNumeral s v h e = signed_digits s v h (parse_sound s v e)
