-- ===== src/Base/Text/Order.antt =====
-- The order of strings.
use mathlib.Core.Path.{◌≡◌, refl}
use mathlib.Core.Bool.{true, false}
use mathlib.Core.List.{[], ◌∷◌}
use native.Mathlib.Omega.{arith}
use ptp_operator_upstream.Base.Text.{Text, before}

pub before_asymm : (a b : Text) → before a b ≡ true → before b a ≡ false
unfolding before
before_asymm [] [] h = cc
before_asymm [] (y ∷ b) h = refl
before_asymm (x ∷ a) [] h = cc
before_asymm (x ∷ a) (y ∷ b) h = ground (arith, before_asymm a b)

-- "not in front of" is transitive.
pub not_before_trans : (a b c : Text) → before b a ≡ false → before c b ≡ false → before c a ≡ false
unfolding before
not_before_trans [] [] c h k = k
not_before_trans [] (y ∷ b) [] h k = refl
not_before_trans [] (y ∷ b) (z ∷ c) h k = refl
not_before_trans (x ∷ a) [] c h k = cc
not_before_trans (x ∷ a) (y ∷ b) [] h k = cc
not_before_trans (x ∷ a) (y ∷ b) (z ∷ c) h k = ground (arith, not_before_trans a b c)
