-- ===== src/Prelude/Machine.antt =====
-- Machine integers of a 64-bit target: an `i32` or `i64` is the ℤ that it stands for, a `usize`
-- or `u64` a number below 2 ^ 64, and the casts and checked operations of Rust are written out.
use Prim.Native.Nat.{ℕ, ◌+◌, ◌-◌, ◌*◌, ◌%◌, ◌^◌, ◌<◌}
use mathlib.Core.Path.{◌≡◌, refl}
use mathlib.Core.Bool.{Bool}
use mathlib.Core.Option.{Option, none, some}
use native.Mathlib.Omega.{arith}
use imageglass_ithmb_plugin.Prelude.Tests.{ltb, if◌then◌else◌}
use imageglass_ithmb_plugin.Prelude.Int.{ℤ, pos, negsuc, ◌*ℤ◌}

-- An integer in the range of `i32`.
abbrev pub IsI32 : ℤ → Type 0
IsI32 (pos n) = n < 2 ^ 31
IsI32 (negsuc n) = n < 2 ^ 31

abbrev pub fits_i32 : ℤ → Bool
fits_i32 (pos n) = ltb n (2 ^ 31)
fits_i32 (negsuc n) = ltb n (2 ^ 31)

-- Two's complement: the low bits of an integer, and the signed number that they stand for.
abbrev pub low_bits : ℕ → ℤ → ℕ
low_bits m (pos n) = n % m
low_bits m (negsuc n) = m - 1 - n % m

abbrev pub signed : ℕ → ℕ → ℤ
signed h w = if ltb w h then pos w else negsuc (h + h - 1 - w)

-- `x as i32`, `x as i64` and `x as usize`, from any integer type.
abbrev pub as_i32 : ℤ → ℤ
as_i32 z = signed (2 ^ 31) (low_bits (2 ^ 32) z)

abbrev pub as_i64 : ℤ → ℤ
as_i64 z = signed (2 ^ 63) (low_bits (2 ^ 64) z)

abbrev pub as_usize : ℤ → ℕ
as_usize z = low_bits (2 ^ 64) z

-- `i32::checked_mul` and `usize::checked_mul`.
abbrev pub i32_checked_mul : ℤ → ℤ → Option ℤ
i32_checked_mul a b = let c = a *ℤ b in if fits_i32 c then some c else none

abbrev pub usize_checked_mul : ℕ → ℕ → Option ℕ
usize_checked_mul a b = let c = a * b in if ltb c (2 ^ 64) then some c else none

pub as_i32-IsI32 : (z : ℤ) → IsI32 (as_i32 z)
as_i32-IsI32 (pos n) = ground arith
as_i32-IsI32 (negsuc n) = ground arith

-- A cast of a number in range changes nothing.
pub as_i32_self : (z : ℤ) → IsI32 z → as_i32 z ≡ z
as_i32_self (pos n) h = ground arith
as_i32_self (negsuc n) h = ground arith

wraps : as_i32 (pos (2 ^ 32 - 1)) ≡ negsuc 0
wraps = refl
