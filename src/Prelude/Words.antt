-- ===== src/Prelude/Words.antt =====
-- Machine words. A release build of the workspace sets no `overflow-checks`, so `+` on u64 wraps.
use Prim.Native.Nat.{ℕ, ◌+◌, ◌-◌, ◌%◌, ◌^◌, ◌<◌}
use mathlib.Core.Path.{◌≡◌}
use native.Mathlib.Omega.{arith}

abbrev pub u64_mod : ℕ
u64_mod = 2 ^ 64

abbrev pub wrapping_add : ℕ → ℕ → ℕ
wrapping_add a b = (a + b) % u64_mod

-- `a.saturating_sub(b)`, which is subtraction on ℕ.
abbrev pub saturating_sub : ℕ → ℕ → ℕ
saturating_sub a b = a - b

pub wrapping_add_exact : (a b : ℕ) → a + b < u64_mod → wrapping_add a b ≡ a + b
wrapping_add_exact a b h = omega arith
