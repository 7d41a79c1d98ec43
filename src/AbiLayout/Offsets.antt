-- ===== src/AbiLayout/Offsets.antt =====
-- src/types.rs: where the fields of a `#[repr(C)]` struct lie.
use native.Mathlib.Nat.{mod-lt, mod-add-div, mul_comm, mul-mod_left}
use imageglass_ithmb_plugin.Prelude.{
  ℕ, ◌+◌, ◌-◌, ◌*◌, ◌/◌, ◌%◌, ◌≤◌, ◌<◌, ◌≡◌, refl, List, [], ◌∷◌, arith, All,
}
use imageglass_ithmb_plugin.AbiLayout.{
  CType, align_up, offsets, fields_end, fields_align, struct, size_of,
}

-- An offset is the next one behind `low` that is a multiple of the alignment.
pub record IsNext (low align offset : ℕ) : Type 0 where
  pub behind : low ≤ offset
  pub aligned : offset % align ≡ 0
  pub tight : offset < low + align

-- The fields lie one behind the other, from `low` on and up to `high`, each at the next offset of
-- its alignment.
abbrev pub Fits : ℕ → List CType → List ℕ → ℕ → Type 0
Fits low [] [] high = low ≡ high
Fits low [] (o ∷ os) high = ⊥
Fits low (t ∷ ts) [] high = ⊥
Fits low (t ∷ ts) (o ∷ os) high = IsNext low t.align o × Fits (o + t.size) ts os high

align_up-IsNext : (o a : ℕ) → 0 < a → IsNext o a (align_up o a)
unfolding align_up
align_up-IsNext o a h =
    let x = o + (a - 1) in
    let whole : x % a + a * (x / a) ≡ x = mod-add-div x a in
    let part : x % a < a = mod-lt x h in
    let swap : x / a * a ≡ a * (x / a) = mul_comm (x / a) a in
    record {
      behind = omega (arith, whole, part, swap);
      aligned = mul-mod_left (x / a) a;
      tight = omega (arith, whole, part, swap);
    }

offsets-Fits :
    (low : ℕ) (ts : List CType)
    → All (λ t. 0 < t.align) ts
    → Fits low ts (offsets low ts) (fields_end low ts)
unfolding offsets fields_end
offsets-Fits low [] h = refl
offsets-Fits low (t ∷ ts) h =
    (align_up-IsNext low t.align h.0, offsets-Fits (align_up low t.align + t.size) ts h.1)

fields_align_positive : (ts : List CType) → 0 < fields_align ts
unfolding fields_align
fields_align_positive [] = omega arith
fields_align_positive (t ∷ ts) = ground (arith, fields_align_positive ts)

below_larger :
    (a b : ℕ) (ts : List CType) → a ≤ b → All (λ t. t.align ≤ a) ts → All (λ t. t.align ≤ b) ts
below_larger a b [] h all = tt
below_larger a b (t ∷ ts) h all = (omega (arith, h, all.0), below_larger a b ts h all.1)

fields_align_bound : (ts : List CType) → All (λ t. t.align ≤ fields_align ts) ts
unfolding fields_align
fields_align_bound [] = tt
fields_align_bound (t ∷ ts) =
    (ground arith, below_larger (fields_align ts) _ ts (ground arith) (fields_align_bound ts))

-- A struct has room for its fields, each of them at a multiple of its alignment and none over
-- another, and its own alignment, of which its size is a multiple, is no less than theirs.
abbrev pub IsLaidOut : List CType → Type 0
IsLaidOut ts =
    (end : ℕ) × Fits 0 ts (offsets 0 ts) end
    × IsNext end (struct ts).align (size_of ts)
    × All (λ t. t.align ≤ (struct ts).align) ts

pub struct-IsLaidOut : (ts : List CType) → All (λ t. 0 < t.align) ts → IsLaidOut ts
unfolding struct size_of
struct-IsLaidOut ts h = (
  fields_end 0 ts,
  offsets-Fits 0 ts h,
  align_up-IsNext (fields_end 0 ts) (fields_align ts) (fields_align_positive ts),
  fields_align_bound ts,
)

-- The offsets of the fields of each struct of the ABI, and its size.
abbrev pub abi_layouts : List (List ℕ × ℕ)
abi_layouts =
    (0 ∷ 8 ∷ [], 16)
    ∷ (0 ∷ 8 ∷ 12 ∷ 16 ∷ 20 ∷ 24 ∷ [], 32)
    ∷ (0 ∷ 4 ∷ 8 ∷ 12 ∷ 16 ∷ 20 ∷ 24 ∷ 28 ∷ 32 ∷ 40 ∷ 48 ∷ [], 56)
    ∷ (0 ∷ 4 ∷ [], 8)
    ∷ (0 ∷ 4 ∷ 8 ∷ [], 16)
    ∷ (0 ∷ 4 ∷ 8 ∷ 12 ∷ 16 ∷ 32 ∷ 40 ∷ [], 48)
    ∷ (0 ∷ 4 ∷ 8 ∷ 12 ∷ 16 ∷ 20 ∷ [], 24)
    ∷ (0 ∷ 4 ∷ 8 ∷ 12 ∷ [], 16)
    ∷ (0 ∷ 8 ∷ 24 ∷ 40 ∷ 44 ∷ 48 ∷ 52 ∷ 56 ∷ 60 ∷ 64 ∷ 72 ∷ 80 ∷ 84 ∷ 88 ∷ 92 ∷ 96 ∷ [], 104)
    ∷ (0 ∷ 16 ∷ 32 ∷ 48 ∷ 52 ∷ [], 56)
    ∷ (0 ∷ 8 ∷ 16 ∷ 24 ∷ 32 ∷ [], 40)
    ∷ (0 ∷ 4 ∷ 8 ∷ [], 16)
    ∷ (0 ∷ 8 ∷ 16 ∷ 24 ∷ 32 ∷ 40 ∷ 48 ∷ 56 ∷ 64 ∷ 72 ∷ 80 ∷ 88 ∷ 96 ∷ 104 ∷ [], 112)
    ∷ (0 ∷ 4 ∷ 8 ∷ 64 ∷ 72 ∷ 80 ∷ 88 ∷ [], 96)
    ∷ []
