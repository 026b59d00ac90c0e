-- ===== src/Common/Int.antt =====
-- C's signed `int`, for the few places where a negative value is computed with.
use Prim.Native.Nat.{ℕ, zero, suc, ◌-◌, ◌/◌, ◌^◌, compare, Ordering}
use maer_os.Common.Tests.{ltb, if◌then◌else◌}

-- `negsuc n` is -(n + 1).
pub data ℤ : Type 0 where
  pos : ℕ → ℤ
  negsuc : ℕ → ℤ

abbrev pub neg : ℕ → ℤ
neg zero = pos 0
neg (suc n) = negsuc n

-- The division of a word read as an `int` rounds towards 0.
abbrev pub int_div : ℕ → ℕ → ℤ
int_div d k = if ltb d (2 ^ 31) then pos (d / k) else neg ((2 ^ 32 - d) / k)

-- The difference of two unsigned numbers that fit an `int`.
abbrev pub diff : ℕ → ℕ → ℤ
diff a b = elim (compare a b) [ Ordering.lt ↦ negsuc (b - a - 1) | _ ↦ pos (a - b) ]
