-- ===== src/Codec/Dimensions.antt =====
-- src/codec.rs: `parse_dimensions`, with the pieces of the standard library that it uses.
use imageglass_ithmb_plugin.Prelude.{
  ℕ, ◌+◌, ◌-◌, ◌*◌, ◌^◌, [], ◌∷◌, Option, none, some, Bool, ◌&&◌, ◌||◌, ◌==◌, ltb, leb,
  if◌then◌else◌,
}
use mathlib.Core.List.{reverse}
use imageglass_ithmb_plugin.Strings.{Str}

infixl 5 ◌>>=◌
abbrev pub ◌>>=◌ {ℓ κ} : {A : Type ℓ} {B : Type κ} → Option A → (A → Option B) → Option B
none >>= f = none
some a >>= f = f a

-- The multiplication sign.
abbrev pub cross : ℕ
cross = 0xd7

abbrev pub is_ascii_digit : ℕ → Bool
is_ascii_digit c = leb b'0' c && leb c b'9'

-- `char::is_whitespace`: the code points with the property White_Space.
abbrev pub is_whitespace : ℕ → Bool
is_whitespace c =
    (leb 0x9 c && leb c 0xd)
    || (c == 0x20)
    || (c == 0x85)
    || (c == 0xa0)
    || (c == 0x1680)
    || (leb 0x2000 c && leb c 0x200a)
    || (c == 0x2028)
    || (c == 0x2029)
    || (c == 0x202f)
    || (c == 0x205f)
    || (c == 0x3000)

unfoldable pub trim_start : Str → Str
trim_start [] = []
trim_start (c ∷ s) = if is_whitespace c then trim_start s else c ∷ s

-- `str::trim`.
unfoldable pub trim : Str → Str
unfolding trim_start
trim s = reverse (trim_start (reverse (trim_start s)))

-- The digits that are left, behind the value of those read: `checked_mul` and `checked_add`.
unfoldable pub scan_digits : ℕ → Str → Option ℕ
scan_digits n [] = some n
scan_digits n (c ∷ s) =
    let next = n * 10 + (c - b'0') in
    let rest = scan_digits next s in if is_ascii_digit c && ltb next (2 ^ 64) then rest else none

-- `str::parse::<usize>`: one or more digits, behind a plus sign or not, below 2 ^ 64.
unfoldable pub parse_usize : Str → Option ℕ
unfolding scan_digits
parse_usize [] = none
parse_usize (c ∷ []) = if c == b'+' then none else scan_digits 0 (c ∷ [])
parse_usize (c ∷ d ∷ s) = if c == b'+' then scan_digits 0 (d ∷ s) else scan_digits 0 (c ∷ d ∷ s)

-- `desc.find('×')`, and the text before and behind the first one.
unfoldable pub split_cross : Str → Option (Str × Str)
split_cross [] = none
split_cross (c ∷ s) =
    let rest = split_cross s in
    if c == cross then some ([], s) else (do p ← rest; some (c ∷ p.0, p.1))

unfoldable pub take_digits : Str → Str
take_digits [] = []
take_digits (c ∷ s) = let rest = take_digits s in if is_ascii_digit c then c ∷ rest else []

unfoldable pub parse_dimensions : Str → Option (ℕ × ℕ)
unfolding split_cross trim parse_usize take_digits
parse_dimensions desc = do
  parts ← split_cross desc
  width ← parse_usize (trim parts.0)
  height ← parse_usize (take_digits parts.1)
  some (width, height)
