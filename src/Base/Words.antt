-- ===== src/Base/Words.antt =====
-- Unsigned words as native numbers: sums and differences wrap as in a release build, or saturate.
use Prim.Native.Nat.{ℕ, ◌+◌, ◌-◌, ◌/◌, ◌%◌, ◌^◌, min}
use mathlib.Core.Bool.{Bool}
use uniproc_windows_agent.Base.Tests.{eqb, negb}

abbrev pub u32_mod : ℕ
u32_mod = 2 ^ 32

abbrev pub u64_mod : ℕ
u64_mod = 2 ^ 64

abbrev pub u32_max : ℕ
u32_max = 0xffff_ffff

abbrev pub u64_max : ℕ
u64_max = 0xffff_ffff_ffff_ffff

-- `+` and `-` of a `u64`, or of a `usize` on a 64-bit machine.
unfoldable pub add64 : ℕ → ℕ → ℕ
add64 a b = (a + b) % u64_mod

unfoldable pub sub64 : ℕ → ℕ → ℕ
sub64 a b = (a + u64_mod - b) % u64_mod

-- `u32::saturating_add`; on numbers below 2 ^ 64 the saturating difference is `-`.
unfoldable pub saturating_add32 : ℕ → ℕ → ℕ
saturating_add32 a b = min (a + b) u32_max

-- `u32::try_from(n).unwrap_or(u32::MAX)`
unfoldable pub saturate32 : ℕ → ℕ
saturate32 n = min n u32_max

-- `f64::is_finite` of a number's bits: its exponent is not all ones.
unfoldable pub is_finite : ℕ → Bool
is_finite bits = negb (eqb ((bits / 2 ^ 52) % 2048) 2047)

unfoldable pub saturating_add64 : ℕ → ℕ → ℕ
saturating_add64 a b = min (a + b) u64_max
