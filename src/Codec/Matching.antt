-- ===== src/Codec/Matching.antt =====
-- src/codec.rs: which extensions `codec_can_handle_extension` accepts.
use imageglass_ithmb_plugin.Prelude.{
  ℕ, suc, ◌%◌, ◌^◌, ◌<◌, ◌≡◌, ◌≢◌, refl, ap, sym, ◌∙◌, ◌⊎◌, inl, inr, ◌↔◌, [], ◌∷◌, List, map, take,
  length, some, Bool, true, false, arith, Bool-cases, All, ◌&&◌, ◌==◌, ==_iff, ==-true, le→ltb,
  take-length, length-take, if◌then◌else◌,
}
use native.Mathlib.Nat.{le_refl}
use imageglass_ithmb_plugin.Prelude.Int.{ℤ, pos, eqb_ℤ}
use imageglass_ithmb_plugin.Types.{ref, IgStringRef}
use imageglass_ithmb_plugin.World.{
  World, LogCall, Outcome, done, pure, ◌>>=◌, ◌>>◌, from_raw_parts, catch_unwind_or,
}
use imageglass_ithmb_plugin.State.{string_ref_of, ext_ithmb_data, ext_ipm_data, extensions_array}
use imageglass_ithmb_plugin.Logging.Effect.{IsHosted}
use imageglass_ithmb_plugin.Prelude.Machine.{as_usize, as_i32_self}
use imageglass_ithmb_plugin.Codec.{
  to_ascii_lowercase, all_match, match_extensions, log_extension, codec_can_handle_extension,
}
use imageglass_ithmb_plugin.Codec.LogText.{
  HasUnits, IsLoggable, as_usize_small, unfold_present, log_extension-OnlyLogs,
}

-- The low bytes of the units, in lower case.
abbrev pub lowered : List ℕ → List ℕ
lowered = map (λ u. to_ascii_lowercase (u % 256))

-- The two extensions, up to the case of their letters and the high bytes of their units.
abbrev pub IsKnown : List ℕ → Type 0
IsKnown units = (lowered units ≡ ext_ithmb_data) ⊎ (lowered units ≡ ext_ipm_data)

and-parts : (a b : Bool) → (a && b) ≡ true → (a ≡ true) × (b ≡ true)
and-parts a b h = (ground arith, ground arith)

cons-injective : (x y : ℕ) (xs ys : List ℕ) → x ∷ xs ≡ y ∷ ys → (x ≡ y) × (xs ≡ ys)
cons-injective x y xs ys e = (cc e, cc e)

all_match-lowered :
    (xs ys : List ℕ) → length xs ≡ length ys → (all_match xs ys ≡ true) ↔ (lowered xs ≡ lowered ys)
unfolding all_match
all_match-lowered [] [] e = (λ h. refl, λ h. refl)
all_match-lowered [] (y ∷ ys) e = absurd (omega (arith, e))
all_match-lowered (x ∷ xs) [] e = absurd (omega (arith, e))
all_match-lowered (x ∷ xs) (y ∷ ys) e =
    let ih = all_match-lowered xs ys (omega (arith, e)) in
    let a = to_ascii_lowercase (x % 256) in
    let b = to_ascii_lowercase (y % 256) in
    (
      λ h.
          let (head, tail) = and-parts (a == b) (all_match xs ys) h in
          λ i. (==_iff a b).0 head i ∷ ih.0 tail i,
      λ h.
          let (head, tail) = cons-injective a b (lowered xs) (lowered ys) h in
          rw (==-true a b head, ih.1 tail) refl,
    )

length-lowered : (xs : List ℕ) → length (lowered xs) ≡ length xs
length-lowered [] = refl
length-lowered (x ∷ xs) = ap suc (length-lowered xs)

-- The reference that the plugin keeps of a known extension.
known_ref :
    (d : List ℕ)
    → length d < 2 ^ 31
    → string_ref_of d ≡ record { data_ptr = ref d; length = pos (length d) }
known_ref d small = λ i. record { data_ptr = ref d; length = as_i32_self (pos (length d)) small i }

known_slice :
    (d : List ℕ) (w : World)
    → length d < 2 ^ 31
    → from_raw_parts (ref d) (as_usize (pos (length d))) w ≡ done d w
known_slice d w small =
    rw (as_usize_small (length d) small, le→ltb (length d) (length d) (le_refl _), take-length d)
      refl

eqb_same : (a b : ℕ) → a ≡ b → eqb_ℤ (pos a) (pos b) ≡ true
eqb_same a b e = ground (arith, e)

eqb_other : (a b : ℕ) → a ≢ b → eqb_ℤ (pos a) (pos b) ≡ false
eqb_other a b e = ground (arith, e)

module _ (d : List ℕ) (rest : List IgStringRef) (xs : List ℕ) (w : World)
    (small : length d < 2 ^ 31) where
  at_ref :
      match_extensions (string_ref_of d ∷ rest) (pos (length xs)) xs w
      ≡ match_extensions
          (record { data_ptr = ref d; length = pos (length d) } ∷ rest)
          (pos (length xs))
          xs
          w
  at_ref =
      ap (λ (k : IgStringRef). match_extensions (k ∷ rest) (pos (length xs)) xs w)
        (known_ref d small)

  same_length :
      length d ≡ length xs
      → match_extensions (string_ref_of d ∷ rest) (pos (length xs)) xs w
        ≡ (if all_match xs d then pure (pos 1) else match_extensions rest (pos (length xs)) xs) w
  unfolding match_extensions
  same_length e =
      at_ref
      ∙ rw (match_extensions, eqb_same (length d) (length xs) e, ◌>>=◌, known_slice d w small) refl

  other_length :
      length d ≢ length xs
      → match_extensions (string_ref_of d ∷ rest) (pos (length xs)) xs w
        ≡ match_extensions rest (pos (length xs)) xs w
  unfolding match_extensions
  other_length h = at_ref ∙ rw (match_extensions, eqb_other (length d) (length xs) h) refl

  step_hit :
      lowered xs ≡ lowered d
      → match_extensions (string_ref_of d ∷ rest) (pos (length xs)) xs w ≡ done (pos 1) w
  step_hit h =
      let e : length d ≡ length xs =
        sym (length-lowered d) ∙ ap length (sym h) ∙ length-lowered xs in
      same_length e ∙ rw ((all_match-lowered xs d (sym e)).1 h) refl

  step_miss :
      ¬ (lowered xs ≡ lowered d)
      → match_extensions (string_ref_of d ∷ rest) (pos (length xs)) xs w
        ≡ match_extensions rest (pos (length xs)) xs w
  step_miss h = elim (Bool-cases (length d == length xs)) [
    | inl same ↦
        let e = (==_iff (length d) (length xs)).0 same in same_length e ∙ rw (no_match e) refl
    | inr other ↦ other_length (λ e. cc (==-true (length d) (length xs) e, other))
  ]
    where
      no_match : length d ≡ length xs → all_match xs d ≡ false
      no_match e = elim (Bool-cases (all_match xs d)) [
        | inl matched ↦ absurd (h ((all_match-lowered xs d (sym e)).0 matched))
        | inr unmatched ↦ unmatched
      ]

-- The answer on the units `xs`, behind some log calls.
pub data Decides (xs : List ℕ) (w : World) (o : Outcome ℤ) : Type 0 where
  handled :
      IsKnown xs
      → (calls : List LogCall) → o ≡ done (pos 1) (record w { log_calls = calls })
      → Decides xs w o
  unhandled :
      ¬ IsKnown xs
      → (calls : List LogCall) → o ≡ done (pos 0) (record w { log_calls = calls })
      → Decides xs w o

lowered-cases : (xs d : List ℕ) → (lowered xs ≡ lowered d) ⊎ (¬ (lowered xs ≡ lowered d))
lowered-cases xs d = elim (Bool-cases (length xs == length d)) [
  | inl same ↦
      let e = (==_iff (length xs) (length d)).0 same in
      elim (Bool-cases (all_match xs d)) [
        | inl matched ↦ inl ((all_match-lowered xs d e).0 matched)
        | inr unmatched ↦ inr (λ h. cc ((all_match-lowered xs d e).1 h, unmatched))
      ]
  | inr other ↦ inr (λ h. cc (
    ==-true (length xs) (length d) (sym (length-lowered xs) ∙ ap length h ∙ length-lowered d),
    other,
  ))
]

no_more : (xs : List ℕ) (w : World) → match_extensions [] (pos (length xs)) xs w ≡ done (pos 0) w
unfolding match_extensions
no_more xs w = refl

list_cases :
    (xs : List ℕ) (w : World)
    → (IsKnown xs × (match_extensions extensions_array (pos (length xs)) xs w ≡ done (pos 1) w))
      ⊎ ((¬ IsKnown xs)
          × (match_extensions extensions_array (pos (length xs)) xs w ≡ done (pos 0) w))
list_cases xs w =
    let ithmb_fits : length ext_ithmb_data < 2 ^ 31 = omega arith in
    let ipm_fits : length ext_ipm_data < 2 ^ 31 = omega arith in
    elim (lowered-cases xs ext_ithmb_data) [
      | inl h ↦ inl (inl h, step_hit ext_ithmb_data _ xs w ithmb_fits h)
      | inr first ↦
          let passed =
            step_miss ext_ithmb_data (string_ref_of ext_ipm_data ∷ []) xs w ithmb_fits first in
          elim (lowered-cases xs ext_ipm_data) [
            | inl h ↦ inl (inr h, passed ∙ step_hit ext_ipm_data [] xs w ipm_fits h)
            | inr second ↦ inr (
              λ k. elim k [ inl a ↦ first a | inr b ↦ second b ],
              passed ∙ step_miss ext_ipm_data [] xs w ipm_fits second ∙ no_more xs w,
            )
          ]
    ]

run_logged :
    (ext : IgStringRef) (xs : List ℕ) (w : World) (calls : List LogCall) (answer : ℤ)
    → HasUnits ext xs
    → w.plugin_extensions ≡ some extensions_array
    → log_extension ext w ≡ done tt (record w { log_calls = calls })
    → match_extensions extensions_array ext.length xs (record w { log_calls = calls })
      ≡ done answer (record w { log_calls = calls })
    → codec_can_handle_extension ext w ≡ done answer (record w { log_calls = calls })
unfolding codec_can_handle_extension
run_logged ext xs w calls answer h exts logged matched =
    let (present, read) =
      unfold_present ext xs
        (record w { plugin_extensions = some extensions_array; log_calls = calls }) h in
    let matched_caught = ap (λ (o : Outcome ℤ). catch_unwind_or (pos 0) (λ v. o) w) matched in
    rw (codec_can_handle_extension, ◌>>=◌, ◌>>◌, catch_unwind_or, logged, present, exts, read)
      (rw exts at matched_caught)

length-units : (ext : IgStringRef) (xs : List ℕ) → HasUnits ext xs → ext.length ≡ pos (length xs)
length-units ext xs h =
    rw (h.counted, h.shown, length-take h.n h.units) (ap pos (omega (arith, h.readable)))

-- For an extension of readable units, of which the log message can show the first 32 (none in
-- 0x80..0xff), with no null host table and the known extensions in place: the answer is 1 when
-- the low bytes of the units are `.ithmb` or `.ipm` up to the case of ASCII letters, and 0
-- otherwise; only the record of log calls changes.
pub codec_can_handle_extension-Decides :
    (ext : IgStringRef) (xs : List ℕ) (w : World)
    → HasUnits ext xs
    → All IsLoggable (take 32 xs)
    → IsHosted w
    → w.plugin_extensions ≡ some extensions_array
    → Decides xs w (codec_can_handle_extension ext w)
codec_can_handle_extension-Decides ext xs w h loggable hosted exts =
    let (calls, logged) = log_extension-OnlyLogs ext xs w h loggable hosted in
    let w' = record w { log_calls = calls } in
    let counted_length =
      ap (λ (k : ℤ). match_extensions extensions_array k xs w') (length-units ext xs h) in
    elim (list_cases xs w') [
      | inl (known, e) ↦
          handled known calls (run_logged ext xs w calls (pos 1) h exts logged (counted_length ∙ e))
      | inr (unknown, e) ↦
          unhandled unknown calls
            (run_logged ext xs w calls (pos 0) h exts logged (counted_length ∙ e))
    ]
