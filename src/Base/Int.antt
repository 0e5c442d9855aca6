-- ===== src/Base/Int.antt =====
-- Signed integers over the native numbers: `negsuc n` is -(n + 1).
use Prim.Native.Nat.{ℕ, suc, ◌+◌, ◌-◌, ◌%◌, ◌^◌}
use mathlib.Core.Path.{◌≡◌, ap}
use mathlib.Core.Bool.{Bool, true, false}
use native.Mathlib.Omega.{arith}
use ibctl.Base.Test.{◌==◌, ltb, if◌then◌else◌}

pub data ℤ : Type 0 where
  pos : ℕ → ℤ
  negsuc : ℕ → ℤ

abbrev pub pos_part : ℤ → ℕ
pos_part (pos n) = n
pos_part (negsuc n) = 0

abbrev pub neg_part : ℤ → ℕ
neg_part (pos n) = 0
neg_part (negsuc n) = suc n

-- `(a - b).max(0) as u64`
abbrev pub clamped_sub : ℤ → ℤ → ℕ
clamped_sub a b = pos_part a + neg_part b - (pos_part b + neg_part a)

-- `u32 as i8`
abbrev pub as_i8 : ℕ → ℤ
as_i8 n = let r = n % 2 ^ 8 in if ltb r 128 then pos r else negsuc (255 - r)

unfoldable pub int_eq : ℤ → ℤ → Bool
int_eq (pos m) (pos n) = m == n
int_eq (negsuc m) (negsuc n) = m == n
int_eq (pos m) (negsuc n) = false
int_eq (negsuc m) (pos n) = false

pub int_eq→eq : (a b : ℤ) → int_eq a b ≡ true → a ≡ b
unfolding int_eq
int_eq→eq (pos m) (pos n) h = ap pos (ground arith)
int_eq→eq (negsuc m) (negsuc n) h = ap negsuc (ground arith)
int_eq→eq (pos m) (negsuc n) h = ground arith
int_eq→eq (negsuc m) (pos n) h = ground arith

pub int_eq_self : (a : ℤ) → int_eq a a ≡ true
unfolding int_eq
int_eq_self (pos n) = ground arith
int_eq_self (negsuc n) = ground arith
