-- ===== src/Base/Int.antt =====
-- Integers over the native numbers: C's `int` and `long` where a value can be negative.
use Prim.Native.Nat.{ℕ, ◌+◌, ◌-◌, ◌^◌}
use goofyos.Base.Tests.{leb, ltb, if◌then◌else◌}

-- `negsuc n` is -(n + 1).
pub data ℤ : Type 0 where
  pos : ℕ → ℤ
  negsuc : ℕ → ℤ

-- a - b, as an integer.
abbrev pub sub_ℕ : ℕ → ℕ → ℤ
sub_ℕ a b = if leb b a then pos (a - b) else negsuc (b - a - 1)

-- -a, as an integer.
abbrev pub neg_ℕ : ℕ → ℤ
neg_ℕ a = sub_ℕ 0 a

-- The `int` that a bit pattern below 2 ^ 32 stands for.
abbrev pub signed32 : ℕ → ℤ
signed32 w = if ltb w (2 ^ 31) then pos w else negsuc (2 ^ 32 - w - 1)

-- |a|, as a number of any size.
abbrev pub abs : ℤ → ℕ
abs (pos n) = n
abs (negsuc n) = n + 1
