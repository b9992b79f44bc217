-- ===== src/Manager/Setup.antt =====
-- The part of `main` of main.go that sets the manager up, up to its start, and `setupChecks`. The
-- calls of the manager's library and the set-up methods of the controllers and webhooks are
-- parameters, which change a state `W`.
pub mod Order
use ptp_operator_upstream.Base.{Option, none, some, Result, ok, fail, wrap}
use ptp_operator_upstream.Base.Text.{Text, codes}
use ptp_operator_upstream.Controllers.OperatorController.Steps.{◌and_then◌}
use ptp_operator_upstream.Manager.Options.{ManagerOptions}

-- What is added to the manager; a check goes by its name.
pub data Part : Type 0 where
  operator_config_controller ptp_config_controller : Part
  ptp_config_webhook operator_config_webhook : Part
  healthz_check readyz_check : Text → Part

-- `ctrl.NewManager`, and the calls that add a part to a manager `M`.
pub record ManagerLibrary (W M E : Type 0) : Type 0 where
  pub new_manager : ManagerOptions → W → W × Result E M
  pub add_part : Part → M → W → W × Option E

-- Why the process exits with the status 1.
pub data ExitReason (E : Type 0) : Type 0 where
  unable_to_start_manager : E → ExitReason E
  unable_to_add : Part → E → ExitReason E

module _ {W M E : Type 0} (k : ManagerLibrary W M E) where
  unfoldable pub add_or_exit : Part → M → W → W × Option (ExitReason E)
  add_or_exit part m w = wrap (unable_to_add part) (k.add_part part m w)

  unfoldable pub set_up_parts : M → W → W × Option (ExitReason E)
  unfolding add_or_exit
  set_up_parts m w =
      add_or_exit operator_config_controller m w
      and_then add_or_exit ptp_config_controller m
      and_then add_or_exit ptp_config_webhook m
      and_then add_or_exit operator_config_webhook m
      and_then add_or_exit (healthz_check (codes "healthz")) m
      and_then add_or_exit (readyz_check (codes "readyz")) m

  unfoldable pub with_manager : W × Result E M → W × Result (ExitReason E) M
  unfolding set_up_parts
  with_manager (w, fail e) = (w, fail (unable_to_start_manager e))
  with_manager (w, ok m) =
      let (w', reason) = set_up_parts m w in
      elim reason [ none ↦ (w', ok m) | some r ↦ (w', fail r) ]

  -- The manager that is ready to be started, or the reason to exit.
  unfoldable pub set_up : ManagerOptions → W → W × Result (ExitReason E) M
  unfolding with_manager
  set_up options w = with_manager (k.new_manager options w)

  -- `setupChecks`, which `main` does not call.
  unfoldable setup_checks : M → W → W × Option (ExitReason E)
  unfolding add_or_exit
  setup_checks m w =
      add_or_exit (readyz_check (codes "webhook")) m w
      and_then add_or_exit (healthz_check (codes "webhook")) m
