-- ===== src/Prelude/Words.antt =====
-- Machine words: `u64` and the 64-bit `usize` of the targets, whose sums wrap in release builds.
use Prim.Native.Nat.{ℕ, ◌+◌, ◌-◌, ◌%◌, ◌^◌, ◌<◌}
use mathlib.Core.Path.{◌≡◌}
use native.Mathlib.Omega.{arith}

abbrev pub u64_mod : ℕ
u64_mod = 2 ^ 64

-- `a + b` on `u64` or `usize`
abbrev pub add64 : ℕ → ℕ → ℕ
add64 a b = (a + b) % u64_mod

-- `a - b` on `u64` or `usize`
abbrev pub sub64 : ℕ → ℕ → ℕ
sub64 a b = (a + u64_mod - b) % u64_mod

pub add64-eq : (a b : ℕ) → a + b < u64_mod → add64 a b ≡ a + b
add64-eq a b h = omega arith

-- `a + b` on `u32`
abbrev pub add32 : ℕ → ℕ → ℕ
add32 a b = (a + b) % 4294967296
