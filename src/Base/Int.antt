-- ===== src/Base/Int.antt =====
-- Signed machine integers (`int64`, `int32`): values over the native numbers, with Go's comparison
-- and remainder. Ranges are hypotheses where a theorem needs them.
use Prim.Native.Nat.{ℕ, suc, ◌%◌, ◌+◌}
use mathlib.Core.Path.{◌≡◌}
use mathlib.Core.Logic.{◌↔◌}
use mathlib.Core.Bool.{Bool, true, false}
use native.Mathlib.Omega.{arith}
use truenas_scale_csi.Base.Tests.{ltb, nat_eq}

-- `negsuc n` is -(n + 1).
pub data ℤ : Type 0 where
  pos : ℕ → ℤ
  negsuc : ℕ → ℤ

abbrev pub ltb_ℤ : ℤ → ℤ → Bool
ltb_ℤ (pos a) (pos b) = ltb a b
ltb_ℤ (pos a) (negsuc b) = false
ltb_ℤ (negsuc a) (pos b) = true
ltb_ℤ (negsuc a) (negsuc b) = ltb b a

abbrev pub eq_ℤ : ℤ → ℤ → Bool
eq_ℤ (pos a) (pos b) = nat_eq a b
eq_ℤ (pos a) (negsuc b) = false
eq_ℤ (negsuc a) (pos b) = false
eq_ℤ (negsuc a) (negsuc b) = nat_eq a b

-- The negation of a number, as an integer.
abbrev pub neg : ℕ → ℤ
neg ℕ.zero = pos 0
neg (suc n) = negsuc n

-- Go's `%` by a positive constant: the sign is that of the dividend.
abbrev pub rem_ℤ : ℤ → ℕ → ℤ
rem_ℤ (pos a) m = pos (a % m)
rem_ℤ (negsuc a) m = neg ((a + 1) % m)

pub eq_ℤ_iff : (a b : ℤ) → (eq_ℤ a b ≡ true) ↔ (a ≡ b)
eq_ℤ_iff (pos a) (pos b) = ground arith
eq_ℤ_iff (pos a) (negsuc b) = ground arith
eq_ℤ_iff (negsuc a) (pos b) = ground arith
eq_ℤ_iff (negsuc a) (negsuc b) = ground arith
