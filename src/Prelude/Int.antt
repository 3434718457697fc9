-- ===== src/Prelude/Int.antt =====
-- Python's unbounded integers over the native numbers.
use Prim.Native.Nat.{ℕ, zero, suc, ◌+◌, ◌-◌, ◌*◌, ◌/◌, ◌%◌}
use mathlib.Core.Path.{◌≡◌}
use mathlib.Core.Bool.{Bool, true, false}
use native.Mathlib.Omega.{arith}
use zksync_python.Prelude.Tests.{ltb, leb, ◌==◌, if◌then◌else◌}

-- `negsuc n` is -(n + 1).
pub data ℤ : Type 0 where
  pos : ℕ → ℤ
  negsuc : ℕ → ℤ

-- a - b, as an integer.
abbrev pub sub_ℕ : ℕ → ℕ → ℤ
sub_ℕ a b = if leb b a then pos (a - b) else negsuc (b - a - 1)

-- -n
abbrev pub neg_ℕ : ℕ → ℤ
neg_ℕ zero = pos 0
neg_ℕ (suc n) = negsuc n

infixl 65 ◌-ℤ◌ ◌+ℤ◌
infixl 70 ◌*ℤ◌
abbrev pub ◌+ℤ◌ : ℤ → ℤ → ℤ
pos a +ℤ pos b = pos (a + b)
pos a +ℤ negsuc b = sub_ℕ a (suc b)
negsuc a +ℤ pos b = sub_ℕ b (suc a)
negsuc a +ℤ negsuc b = negsuc (suc (a + b))

abbrev pub ◌-ℤ◌ : ℤ → ℤ → ℤ
pos a -ℤ pos b = sub_ℕ a b
pos a -ℤ negsuc b = pos (a + suc b)
negsuc a -ℤ pos b = negsuc (a + b)
negsuc a -ℤ negsuc b = sub_ℕ b a

abbrev pub ◌*ℤ◌ : ℤ → ℤ → ℤ
pos a *ℤ pos b = pos (a * b)
pos a *ℤ negsuc b = neg_ℕ (a * suc b)
negsuc a *ℤ pos b = neg_ℕ (suc a * b)
negsuc a *ℤ negsuc b = pos (suc a * suc b)

-- `a < b`, `a == b`
abbrev pub ltb_ℤ : ℤ → ℤ → Bool
ltb_ℤ (pos a) (pos b) = ltb a b
ltb_ℤ (pos a) (negsuc b) = false
ltb_ℤ (negsuc a) (pos b) = true
ltb_ℤ (negsuc a) (negsuc b) = ltb b a

abbrev pub eqb_ℤ : ℤ → ℤ → Bool
eqb_ℤ (pos a) (pos b) = a == b
eqb_ℤ (pos a) (negsuc b) = false
eqb_ℤ (negsuc a) (pos b) = false
eqb_ℤ (negsuc a) (negsuc b) = a == b

-- `a // d` for a positive divisor: Python rounds down.
abbrev pub floor_div : ℤ → ℕ → ℤ
floor_div (pos n) d = pos (n / d)
floor_div (negsuc n) d = negsuc (n / d)

-- `a & 1` in two's complement of unbounded width.
abbrev pub low_bit : ℤ → ℕ
low_bit (pos n) = n % 2
low_bit (negsuc n) = 1 - n % 2

pub eqb_ℤ_sound : (a b : ℤ) → eqb_ℤ a b ≡ true → a ≡ b
eqb_ℤ_sound (pos m) (pos n) h = ground arith
eqb_ℤ_sound (pos m) (negsuc n) h = ground arith
eqb_ℤ_sound (negsuc m) (pos n) h = ground arith
eqb_ℤ_sound (negsuc m) (negsuc n) h = ground arith

pub eqb_ℤ_refl : (a : ℤ) → eqb_ℤ a a ≡ true
eqb_ℤ_refl (pos n) = ground arith
eqb_ℤ_refl (negsuc n) = ground arith

pub pos-injective : (m n : ℕ) → pos m ≡ pos n → m ≡ n
pos-injective m n h = cc
