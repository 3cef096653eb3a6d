-- ===== src/Base/Int.antt =====
-- Signed integers over the native numbers, with what the program does to a C++ `int`.
use Prim.Native.Nat.{ℕ, zero, suc, ◌+◌}
use mathlib.Core.Path.{◌≡◌}
use mathlib.Core.Bool.{Bool, true, false}
use mathlib.Core.Option.{Option, none, some}
use native.Mathlib.Omega.{arith}
use operating_systems.Base.Tests.{ltb, ◌==◌, ==_refl, if◌then◌else◌}

-- `negsuc n` is -(n + 1).
pub data ℤ : Type 0 where
  pos : ℕ → ℤ
  negsuc : ℕ → ℤ

abbrev pub pos_part : ℤ → ℕ
pos_part (pos n) = n
pos_part (negsuc n) = 0

abbrev pub neg_part : ℤ → ℕ
neg_part (pos n) = 0
neg_part (negsuc n) = suc n

abbrev pub ltb_ℤ : ℤ → ℤ → Bool
ltb_ℤ a b = ltb (pos_part a + neg_part b) (pos_part b + neg_part a)

infix 50 ◌==ℤ◌
abbrev pub ◌==ℤ◌ : ℤ → ℤ → Bool
pos a ==ℤ pos b = a == b
pos a ==ℤ negsuc b = false
negsuc a ==ℤ pos b = false
negsuc a ==ℤ negsuc b = a == b

-- `a + 1` and `a - 1`, without overflow.
abbrev pub suc_ℤ : ℤ → ℤ
suc_ℤ (pos n) = pos (suc n)
suc_ℤ (negsuc zero) = pos 0
suc_ℤ (negsuc (suc n)) = negsuc n

abbrev pub pred_ℤ : ℤ → ℤ
pred_ℤ (pos zero) = negsuc 0
pred_ℤ (pos (suc n)) = pos n
pred_ℤ (negsuc n) = negsuc (suc n)

-- The greatest value of a 32-bit `int`, and `a + 1`, which is undefined for it.
abbrev pub int_max : ℤ
int_max = pos 2147483647

abbrev pub succ_int : ℤ → Option ℤ
succ_int a = if a ==ℤ int_max then none else some (suc_ℤ a)

pub ==ℤ_refl : (a : ℤ) → (a ==ℤ a) ≡ true
==ℤ_refl (pos n) = ==_refl n
==ℤ_refl (negsuc n) = ==_refl n

pub ==ℤ→eq : (a b : ℤ) → (a ==ℤ b) ≡ true → a ≡ b
==ℤ→eq (pos a) (pos b) h = ground arith
==ℤ→eq (pos a) (negsuc b) h = cc
==ℤ→eq (negsuc a) (pos b) h = cc
==ℤ→eq (negsuc a) (negsuc b) h = ground arith

pub eq→==ℤ : (a b : ℤ) → a ≡ b → (a ==ℤ b) ≡ true
eq→==ℤ a b h = ground (arith, ==ℤ_refl a)
