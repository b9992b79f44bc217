-- ===== src/Base/Int.antt =====
-- Signed integers: `int64` fields that the source only stores and compares.
use Prim.Native.Nat.{ℕ}
use mathlib.Core.Path.{◌≡◌, refl}
use mathlib.Core.Logic.{◌↔◌}
use mathlib.Core.Bool.{Bool, true, false}
use native.Mathlib.Omega.{arith}
use ptp_operator_upstream.Base.Tests.{ltb, ◌==◌}

-- `negsuc n` is -(n + 1).
pub data ℤ : Type 0 where
  pos : ℕ → ℤ
  negsuc : ℕ → ℤ

-- `a < b`.
unfoldable pub lt_ℤ : ℤ → ℤ → Bool
lt_ℤ (pos a) (pos b) = ltb a b
lt_ℤ (pos a) (negsuc b) = false
lt_ℤ (negsuc a) (pos b) = true
lt_ℤ (negsuc a) (negsuc b) = ltb b a

-- `a == b`.
unfoldable pub eq_ℤ : ℤ → ℤ → Bool
eq_ℤ (pos a) (pos b) = a == b
eq_ℤ (negsuc a) (negsuc b) = a == b
eq_ℤ _ _ = false

pub eq_ℤ_iff : (a b : ℤ) → (eq_ℤ a b ≡ true) ↔ (a ≡ b)
unfolding eq_ℤ
eq_ℤ_iff (pos a) (pos b) = ground arith
eq_ℤ_iff (negsuc a) (negsuc b) = ground arith
eq_ℤ_iff (pos a) (negsuc b) = ground arith
eq_ℤ_iff (negsuc a) (pos b) = ground arith

pub lt_ℤ_irrefl : (a : ℤ) → lt_ℤ a a ≡ false
unfolding lt_ℤ
lt_ℤ_irrefl (pos a) = ground arith
lt_ℤ_irrefl (negsuc a) = ground arith

-- "not greater" is transitive.
pub not_gt_trans : (a b c : ℤ) → lt_ℤ b a ≡ false → lt_ℤ c b ≡ false → lt_ℤ c a ≡ false
unfolding lt_ℤ
not_gt_trans (pos a) (pos b) (pos c) h k = ground arith
not_gt_trans (negsuc a) (negsuc b) (negsuc c) h k = ground arith
not_gt_trans _ _ _ h k = ground arith

pub lt_ℤ_asymm : (a b : ℤ) → lt_ℤ a b ≡ true → lt_ℤ b a ≡ false
unfolding lt_ℤ
lt_ℤ_asymm (pos a) (pos b) h = ground arith
lt_ℤ_asymm (negsuc a) (negsuc b) h = ground arith
lt_ℤ_asymm (negsuc a) (pos b) h = refl
lt_ℤ_asymm (pos a) (negsuc b) h = cc

pub eq_of_not_lt : (a b : ℤ) → lt_ℤ a b ≡ false → lt_ℤ b a ≡ false → a ≡ b
unfolding lt_ℤ
eq_of_not_lt (pos a) (pos b) h k = ground arith
eq_of_not_lt (negsuc a) (negsuc b) h k = ground arith
eq_of_not_lt (negsuc a) (pos b) h k = cc
eq_of_not_lt (pos a) (negsuc b) h k = cc
