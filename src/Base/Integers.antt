-- ===== src/Base/Integers.antt =====
-- The integers over the native numbers, as far as the limits of a configuration use them.
use Prim.Native.Nat.{ℕ, suc, ◌+◌, ◌-◌}
use mathlib.Core.Bool.{Bool, true, false}
use vip_real_time_collaborat.Base.Tests.{ltb, leb, ◌==◌, if◌then◌else◌}

-- `negsuc n` is -(n + 1).
pub data ℤ : Type 0 where
  pos : ℕ → ℤ
  negsuc : ℕ → ℤ

abbrev pub ltb_ℤ : ℤ → ℤ → Bool
ltb_ℤ (pos a) (pos b) = ltb a b
ltb_ℤ (pos a) (negsuc b) = false
ltb_ℤ (negsuc a) (pos b) = true
ltb_ℤ (negsuc a) (negsuc b) = ltb b a

abbrev pub is_minus_one : ℤ → Bool
is_minus_one (pos a) = false
is_minus_one (negsuc a) = a == 0

abbrev difference : ℕ → ℕ → ℤ
difference a b = if leb b a then pos (a - b) else negsuc (b - suc a)

abbrev pub minus_ℤ : ℤ → ℤ → ℤ
minus_ℤ (pos a) (pos b) = difference a b
minus_ℤ (pos a) (negsuc b) = pos (a + suc b)
minus_ℤ (negsuc a) (pos b) = negsuc (a + b)
minus_ℤ (negsuc a) (negsuc b) = difference b a

abbrev pub double_ℤ : ℤ → ℤ
double_ℤ (pos a) = pos (a + a)
double_ℤ (negsuc a) = negsuc (suc (a + a))
