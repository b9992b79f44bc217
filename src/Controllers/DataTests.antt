-- ===== src/Controllers/DataTests.antt =====
-- What the templates of the daemon are told, and the webhook of the operator's configuration, at data.
use ptp_operator_upstream.Base.{
  ◌≢◌, Bool, true, Option, none, some, List, [], ◌∷◌, ◌≡◌, ◌↔◌, inl, inr, refl, sym, ap, subst,
  Result, ok, ok-injective, some-error≢none, arith, Bool-cases, Option-cases,
}
use ptp_operator_upstream.Base.Text.{Text, codes, same, same_iff, same_refl, trim_space}
use ptp_operator_upstream.Base.GoMap.{lookup, insertion_order, reverse_order}
use ptp_operator_upstream.Api.OperatorConfig.{
  PtpOperatorConfig, HasValidVersion, validate_operator_create, validate_operator_update,
  validate_operator_create_iff,
}
use ptp_operator_upstream.Controllers.OperatorController.{daemon_data}
use ptp_operator_upstream.Controllers.OperatorController.Joined.{two_plugins, daemon_data_varies}
use ptp_operator_upstream.Controllers.OperatorController.Data.{
  HasEventData, daemon_data-HasEventData,
}

abbrev pub publisher : PtpOperatorConfig
publisher = record {
  name = codes "default";
  namespace = codes "openshift-ptp";
  spec = record {
    daemon_node_selector = [];
    event_config = some (record {
      enable_event_publisher = true;
      transport_host = [];
      storage_type = codes "pvc";
      api_version = codes "2.0";
    });
    enabled_plugins = none;
  };
}

abbrev pub any_url : Text → Bool
any_url host = true

validate_operator_create_iff_example :
    ((validate_operator_create any_url publisher ≡ none)
      ↔ ((publisher.name ≡ codes "default") × HasValidVersion any_url publisher.spec.event_config))
    × ((validate_operator_update any_url publisher publisher ≡ none) ↔ (
        (publisher.name ≡ codes "default") × HasValidVersion any_url publisher.spec.event_config))
validate_operator_create_iff_example = validate_operator_create_iff any_url publisher publisher

abbrev pub environment : Text → Text
environment variable = variable

daemon_data-HasEventData_example :
    HasEventData any_url publisher.spec.event_config
      (daemon_data insertion_order environment any_url publisher.spec)
daemon_data-HasEventData_example =
    daemon_data-HasEventData insertion_order environment any_url publisher.spec

daemon_data_varies_example :
    lookup (codes "EnabledPlugins") (
      daemon_data insertion_order environment any_url
        (two_plugins [] none (codes "e810") none (codes "ntpfailover") none))
    ≢ lookup (codes "EnabledPlugins") (
        daemon_data reverse_order environment any_url
          (two_plugins [] none (codes "e810") none (codes "ntpfailover") none))
unfolding ptp_operator_upstream.Base.Text.contains
daemon_data_varies_example =
    daemon_data_varies environment any_url [] none (codes "e810") none (codes "ntpfailover") none
      refl refl (λ e. cc)
