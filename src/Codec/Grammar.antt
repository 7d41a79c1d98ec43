-- ===== src/Codec/Grammar.antt =====
-- src/codec.rs: the descriptions of which `parse_dimensions` reads dimensions, as a grammar.
use imageglass_ithmb_plugin.Prelude.{
  ℕ, ◌≡◌, ◌≢◌, ◌↔◌, inl, inr, refl, ◌∙◌, ap, [], ◌∷◌, ◌++◌, some, arith, All, All-append,
  Option-cases,
}
use mathlib.Core.Path.{subst}
use imageglass_ithmb_plugin.Strings.{Str}
use imageglass_ithmb_plugin.Codec.Dimensions.{
  ◌>>=◌, cross, is_whitespace, parse_usize, trim, split_cross, take_digits, parse_dimensions,
}
use imageglass_ithmb_plugin.Codec.Parsing.{IsDigit, NoDigit, digits_taken}
use imageglass_ithmb_plugin.Codec.Trimming.{
  IsBlank, IsInk, IsOther, trim_split, trim_between, Splits, split_found, split_at, digits_split,
}
use imageglass_ithmb_plugin.Codec.Numerals.{
  IsNumeral, IsSign, parse_signed, parse_sound, digits-IsNumeral,
}

-- Blanks, a plus sign or not, the width, blanks, the cross, the height, and more text.
pub record IsDescription (desc : Str) (width height : ℕ) : Type 0 where
  pub lead : Str
  pub sign : Str
  pub columns : Str
  pub trail : Str
  pub rows : Str
  pub rest : Str
  pub text : desc ≡ (lead ++ ((sign ++ columns) ++ trail)) ++ (cross ∷ (rows ++ rest))
  pub blank_lead : All IsBlank lead
  pub blank_trail : All IsBlank trail
  pub signed : IsSign sign
  pub wide : IsNumeral columns width
  pub high : IsNumeral rows height
  pub stop : NoDigit rest

digit-IsInk : (c : ℕ) → IsDigit c → IsInk c
digit-IsInk c h = ground (arith, h.0, h.1)

digit-IsOther : (c : ℕ) → IsDigit c → IsOther c
digit-IsOther c h e = omega (arith, h.0, h.1, e)

blank-IsOther : (c : ℕ) → IsBlank c → IsOther c
blank-IsOther c h e = cc (h, ap is_whitespace e)

All-implies : (P Q : ℕ → Type 0) (s : Str) → ((c : ℕ) → P c → Q c) → All P s → All Q s
All-implies P Q [] f h = tt
All-implies P Q (c ∷ s) f h = (f c h.0, All-implies P Q s f h.1)

sign-All : (P : ℕ → Type 0) (s : Str) → P b'+' → IsSign s → All P s
sign-All P s h (inl e) = rw e tt
sign-All P s h (inr e) = rw e (h, tt)

core_not_empty : (sign digits : Str) → digits ≢ [] → sign ++ digits ≢ []
core_not_empty [] digits ne e = ne e
core_not_empty (c ∷ sign) digits ne e = cc e

module _ (desc : Str) (width height : ℕ) where
  IsDescription-sound :
      (parts : Str × Str)
      → split_cross desc ≡ some parts
      → parse_usize (trim parts.0) ≡ some width
      → parse_usize (take_digits parts.1) ≡ some height
      → IsDescription desc width height
  IsDescription-sound parts split wide high =
      let found = subst (Splits desc) split (split_found desc) in
      let (lead, trail, between, blank_lead, blank_trail) = trim_split parts.0 in
      let w = parse_sound (trim parts.0) width wide in
      let (rest, taken, digits, stop) = digits_split parts.1 in
      record {
        lead = lead;
        sign = w.sign;
        columns = w.digits;
        trail = trail;
        rows = take_digits parts.1;
        rest = rest;
        text =
            found.0
            ∙ ap (λ (a : Str). a ++ (cross ∷ parts.1))
                (between ∙ ap (λ (t : Str). lead ++ (t ++ trail)) w.text)
            ∙ ap (λ (b : Str). (lead ++ ((w.sign ++ w.digits) ++ trail)) ++ (cross ∷ b)) taken;
        blank_lead = blank_lead;
        blank_trail = blank_trail;
        signed = w.signed;
        wide = w.numeral;
        high = digits-IsNumeral (take_digits parts.1) height digits high;
        stop = stop;
      }

  parsed_parts :
      parse_dimensions desc ≡ some (width, height)
      → (parts : Str × Str) × (split_cross desc ≡ some parts)
        × (parse_usize (trim parts.0) ≡ some width)
        × (parse_usize (take_digits parts.1) ≡ some height)
  unfolding parse_dimensions
  parsed_parts e = elim (Option-cases (split_cross desc)) [
    | inl no_cross ↦ absurd (cc (rw (◌>>=◌, no_cross) at e))
    | inr (parts, split) ↦ elim (Option-cases (parse_usize (trim parts.0))) [
      | inl bad ↦ absurd (cc (rw (◌>>=◌, split, bad) at e))
      | inr (w, wide) ↦ elim (Option-cases (parse_usize (take_digits parts.1))) [
        | inl bad ↦ absurd (cc (rw (◌>>=◌, split, wide, bad) at e))
        | inr (h, high) ↦
            let same : some (w, h) ≡ some (width, height) = rw (◌>>=◌, split, wide, high) at e in
            (parts, split, cc (wide, same), cc (high, same))
      ]
    ]
  ]

  description-IsOther :
      (d : IsDescription desc width height)
      → All IsOther (d.lead ++ ((d.sign ++ d.columns) ++ d.trail))
  description-IsOther d =
      All-append IsOther d.lead ((d.sign ++ d.columns) ++ d.trail)
        (All-implies IsBlank IsOther d.lead blank-IsOther d.blank_lead)
        (All-append IsOther (d.sign ++ d.columns) d.trail
          (All-append IsOther d.sign d.columns (sign-All IsOther d.sign (λ e. cc e) d.signed)
            (All-implies IsDigit IsOther d.columns digit-IsOther d.wide.digits))
          (All-implies IsBlank IsOther d.trail blank-IsOther d.blank_trail))

  description-IsInk : (d : IsDescription desc width height) → All IsInk (d.sign ++ d.columns)
  description-IsInk d =
      All-append IsInk d.sign d.columns (sign-All IsInk d.sign refl d.signed)
        (All-implies IsDigit IsInk d.columns digit-IsInk d.wide.digits)

  IsDescription-complete :
      (d : IsDescription desc width height) → parse_dimensions desc ≡ some (width, height)
  unfolding parse_dimensions
  IsDescription-complete d =
      let core = d.sign ++ d.columns in
      rw
        (
          d.text,
          parse_dimensions,
          ◌>>=◌,
          split_at (d.lead ++ (core ++ d.trail)) (d.rows ++ d.rest) (description-IsOther d),
          trim_between d.lead core d.trail (core_not_empty d.sign d.columns d.wide.not_empty)
              d.blank_lead (description-IsInk d) d.blank_trail,
          parse_signed d.sign d.columns width d.signed d.wide,
          digits_taken d.rows d.rest d.high.digits d.stop,
          parse_signed [] d.rows height (inl refl) d.high,
        )
        refl

  -- A description yields the two numbers exactly when it reads as one: blanks, a plus sign or
  -- none, digits of the first number, blanks, the first multiplication sign, digits of the
  -- second number, and text that does not go on with a digit, where both numbers are below 2 ^
  -- 64.
  pub parse_dimensions_iff :
      (parse_dimensions desc ≡ some (width, height)) ↔ IsDescription desc width height
  parse_dimensions_iff = (
    λ e.
        let (parts, split, wide, high) = parsed_parts e in
        IsDescription-sound parts split wide high,
    IsDescription-complete,
  )
