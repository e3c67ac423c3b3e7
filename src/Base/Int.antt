-- ===== src/Base/Int.antt =====
-- Signed numbers over the native ones, and `(int)` of an unsigned number.
use Prim.Native.Nat.{ℕ, zero, suc, ◌-◌, ◌/◌, ◌^◌}
use mathlib.Core.Bool.{Bool, true, false}
use rcu.Base.Tests.{ltb, if◌then◌else◌, u32}

pub data ℤ : Type 0 where
  pos : ℕ → ℤ
  negsuc : ℕ → ℤ

-- `-n`.
abbrev pub neg : ℕ → ℤ
neg zero = pos 0
neg (suc n) = negsuc n

abbrev pub opposite : ℤ → ℤ
opposite (pos n) = neg n
opposite (negsuc n) = pos (suc n)

abbrev pub ltz : ℤ → ℤ → Bool
ltz (pos a) (pos b) = ltb a b
ltz (pos a) (negsuc b) = false
ltz (negsuc a) (pos b) = true
ltz (negsuc a) (negsuc b) = ltb b a

-- Division by a positive constant, towards 0.
abbrev pub div_towards_zero : ℤ → ℕ → ℤ
div_towards_zero (pos a) d = pos (a / d)
div_towards_zero (negsuc a) d = neg (suc a / d)

-- `(int)`: the low 32 bits, from -2 ^ 31 to 2 ^ 31 - 1.
abbrev pub s32 : ℕ → ℤ
s32 n = let low = u32 n in if ltb low (2 ^ 31) then pos low else neg (2 ^ 32 - low)
