-- ===== src/Manager/Setup/Order.antt =====
-- The order of the set-up, and where it stops.
use ptp_operator_upstream.Base.{
  answer-cases, Option, none, some, List, [], ◌∷◌, ◌++◌, ◌≡◌, refl, Result, ok, fail, inl, inr,
}
use ptp_operator_upstream.Base.Text.{codes}
use ptp_operator_upstream.Controllers.OperatorController.Steps.{◌and_then◌}
use ptp_operator_upstream.Manager.Options.{ManagerOptions}
use ptp_operator_upstream.Manager.Setup.{
  Part, operator_config_controller, ptp_config_controller, ptp_config_webhook,
  operator_config_webhook, healthz_check, readyz_check, ManagerLibrary, ExitReason,
  unable_to_start_manager, unable_to_add, add_or_exit, set_up_parts, with_manager, set_up,
}

-- The calls of a set-up that meets no error.
abbrev all_parts : List Part
all_parts =
    operator_config_controller
    ∷ ptp_config_controller
    ∷ ptp_config_webhook
    ∷ operator_config_webhook
    ∷ healthz_check (codes "healthz")
    ∷ readyz_check (codes "readyz")
    ∷ []

module _ {W M E : Type 0} (k : ManagerLibrary W M E) where
  -- The parts are added in this order until one of them cannot be: `AddsUntil parts m w w' reason`
  -- leads from `w` to `w'`, and `reason` is that of the part that failed.
  pub data AddsUntil (m : M) : List Part → W → W → Option (ExitReason E) → Type 0 where
    all_added : {w : W} → AddsUntil m [] w w none
    then_next :
        {part : Part} {parts : List Part} {w v w' : W} {reason : Option (ExitReason E)}
        → k.add_part part m w ≡ (v, none)
        → AddsUntil m parts v w' reason
        → AddsUntil m (part ∷ parts) w w' reason
    stopped_at :
        {part : Part} {parts : List Part} {w w' : W} {e : E}
        → k.add_part part m w ≡ (w', some e)
        → AddsUntil m (part ∷ parts) w w' (some (unable_to_add part e))

  -- One part, whether it can be added or not.
  AddsUntil-one :
      (m : M) (part : Part) (w : W)
      → AddsUntil m (part ∷ []) w (add_or_exit k part m w).0 (add_or_exit k part m w).1
  unfolding add_or_exit
  AddsUntil-one m part w = elim (answer-cases (k.add_part part m w)) [
    | inl (v, h) ↦ rw h (then_next h all_added)
    | inr (v, e, h) ↦ rw h (stopped_at h)
  ]

  -- One part more, if the parts in front of it could be added.
  AddsUntil-last :
      {m : M} {parts : List Part} {w w' : W} {reason : Option (ExitReason E)} (part : Part)
      → AddsUntil m parts w w' reason
      → AddsUntil m
          (parts ++ part ∷ [])
          w
          ((w', reason) and_then add_or_exit k part m).0
          ((w', reason) and_then add_or_exit k part m).1
  AddsUntil-last {m = m} {w = w} part all_added = AddsUntil-one m part w
  AddsUntil-last part (then_next h rest) = then_next h (AddsUntil-last part rest)
  AddsUntil-last part (stopped_at h) = stopped_at h

  set_up_parts-AddsUntil :
      (m : M) (w : W) → AddsUntil m all_parts w (set_up_parts k m w).0 (set_up_parts k m w).1
  unfolding set_up_parts
  set_up_parts-AddsUntil m w = AddsUntil-last (readyz_check (codes "readyz")) (
      AddsUntil-last (healthz_check (codes "healthz")) (
        AddsUntil-last operator_config_webhook (
          AddsUntil-last ptp_config_webhook
            (AddsUntil-last ptp_config_controller (AddsUntil-one m operator_config_controller w)))))

-- What a set-up that ends in the state `w'` has done.
abbrev pub IsSetUp :
    {W M E : Type 0}
    → ManagerLibrary W M E
    → ManagerOptions
    → W
    → W × Result (ExitReason E) M
    → Type 0
IsSetUp {W = W} {M = M} {E = E} k options w (w', ok m) =
    (v : W) × (k.new_manager options w ≡ (v, ok m)) × AddsUntil k m all_parts v w' none
IsSetUp {W = W} {M = M} {E = E} k options w (w', fail (unable_to_start_manager e)) =
    k.new_manager options w ≡ (w', fail e)
IsSetUp {W = W} {M = M} {E = E} k options w (w', fail (unable_to_add part e)) =
    (v : W) × (m : M) × (k.new_manager options w ≡ (v, ok m))
    × AddsUntil k m all_parts v w' (some (unable_to_add part e))

module _ {W M E : Type 0} (k : ManagerLibrary W M E) where
  AddsUntil-part :
      {m : M} {parts : List Part} {w w' : W} {e : E}
      → AddsUntil k m parts w w' (some (unable_to_start_manager e))
      → ⊥
  AddsUntil-part (then_next h rest) = AddsUntil-part rest

  with_manager-IsSetUp :
      (options : ManagerOptions) (w : W) (made : W × Result E M)
      → k.new_manager options w ≡ made
      → IsSetUp k options w (with_manager k made)
  unfolding with_manager
  with_manager-IsSetUp options w (v, fail e) h = h
  with_manager-IsSetUp options w (v, ok m) h =
      concluded (set_up_parts k m v) (set_up_parts-AddsUntil k m v)
    where
      concluded :
          (p : W × Option (ExitReason E))
          → AddsUntil k m all_parts v p.0 p.1
          → IsSetUp k options w (elim p.1 [ none ↦ (p.0, ok m) | some r ↦ (p.0, fail r) ])
      concluded (w', none) a = (v, h, a)
      concluded (w', some (unable_to_start_manager e)) a = absurd (AddsUntil-part a)
      concluded (w', some (unable_to_add part e)) a = (v, m, h, a)

-- Where the set-up returns a manager, it was made and all six parts were added, in the order of the
-- source; where it returns a reason to exit, this is the error of the first call that returned one,
-- all calls in front of it succeeded, and no later call is made.
pub set_up-IsSetUp :
    {W M E : Type 0} (k : ManagerLibrary W M E) (options : ManagerOptions) (w : W)
    → IsSetUp k options w (set_up k options w)
unfolding set_up
set_up-IsSetUp k options w = with_manager-IsSetUp k options w (k.new_manager options w) refl
