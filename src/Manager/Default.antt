-- ===== src/Manager/Default.antt =====
-- `createDefaultOperatorConfig` of main.go. The client of the cluster is a parameter; the cluster is
-- an explicit state.
pub mod Settled
use ptp_operator_upstream.Base.{Option, none, some, [], Result, ok, fail, wrap}
use ptp_operator_upstream.Base.Text.{Text}
use ptp_operator_upstream.Api.OperatorConfig.{PtpOperatorConfig}
use ptp_operator_upstream.Apply.Object.{Retrieved, existing, not_found, get_failed}
use ptp_operator_upstream.Controllers.OperatorController.{
  operator_namespace, default_operator_config_name,
}

-- The client's calls on a cluster in a state `S`. A `Get` that does not find the object leaves the
-- structure that it is to fill as it is.
pub record ConfigClient (S E : Type 0) : Type 0 where
  pub get : S → Text → Text → Retrieved E PtpOperatorConfig
  pub create : S → PtpOperatorConfig → S × Option E

pub data DefaultError (E : Type 0) : Type 0 where
  no_client client_failed : E → DefaultError E

abbrev new_config : PtpOperatorConfig
new_config = record {
  name = [];
  namespace = [];
  spec = record { daemon_node_selector = []; event_config = none; enabled_plugins = none };
}

-- The configuration that is created.
abbrev pub named_config : PtpOperatorConfig
named_config = record new_config {
  namespace = operator_namespace;
  name = default_operator_config_name;
}

module _ {S E : Type 0} where
  -- What follows `Get`. After a creation without an error, the error that is returned is nil.
  unfoldable pub create_if_not_found :
      ConfigClient S E → S → Retrieved E PtpOperatorConfig → S × Option (DefaultError E)
  create_if_not_found k s (existing config) = (s, none)
  create_if_not_found k s not_found = wrap client_failed (k.create s named_config)
  create_if_not_found k s (get_failed e) = (s, some (client_failed e))

  -- The first argument is the answer of `client.New`.
  unfoldable pub create_default_operator_config :
      Result E (ConfigClient S E) → S → S × Option (DefaultError E)
  unfolding create_if_not_found
  create_default_operator_config (fail e) s = (s, some (no_client e))
  create_default_operator_config (ok k) s =
      create_if_not_found k s (k.get s operator_namespace default_operator_config_name)
