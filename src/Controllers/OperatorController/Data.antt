-- ===== src/Controllers/OperatorController/Data.antt =====
-- What the templates of the daemon and of the event service are told.
use ptp_operator_upstream.Base.{
  Bool, false, Option, none, some, [], ◌≡◌, inl, inr, refl, Bool-cases, if◌then◌else◌,
}
use ptp_operator_upstream.Base.Text.{Text, codes, same}
use ptp_operator_upstream.Base.GoMap.{GoMap, lookup, put, MapRange}
use ptp_operator_upstream.Api.OperatorConfig.{PtpEventConfig, PtpOperatorConfigSpec}
use ptp_operator_upstream.Render.{Value, text, flag}
use ptp_operator_upstream.Controllers.OperatorController.{
  default_transport_host, default_storage_type, default_api_version,
  event_transport_host_availability_check, put_if_set, add_event_config, join_commas, plugin_list,
  base_data, daemon_data,
}

-- A setting of a publisher that is on, or the default.
abbrev setting_or : Text → Option PtpEventConfig → (PtpEventConfig → Text) → Text
setting_or default none field = default
setting_or default (some c) field =
    if c.enable_event_publisher then (if same (field c) [] then default else field c) else default

abbrev expected_publisher : Option PtpEventConfig → Bool
expected_publisher none = false
expected_publisher (some c) = c.enable_event_publisher

-- No host without an event configuration; the host as it is configured if the publisher is off;
-- the default in place of a host that is empty or no URL if it is on.
abbrev expected_host : (Text → Bool) → Option PtpEventConfig → Option Value
expected_host parses none = none
expected_host parses (some c) =
    if c.enable_event_publisher
    then some (
        text (
          if same c.transport_host []
          then default_transport_host
          else if parses c.transport_host
          then c.transport_host
          else default_transport_host))
    else some (text c.transport_host)

abbrev pub HasEventData : (Text → Bool) → Option PtpEventConfig → GoMap Value → Type 0
HasEventData parses event entries =
    (lookup (codes "EnableEventPublisher") entries ≡ some (flag (expected_publisher event)))
    × (lookup (codes "EventTransportHost") entries ≡ expected_host parses event)
    × (lookup (codes "StorageType") entries
        ≡ some (text (setting_or default_storage_type event (λ c. c.storage_type))))
    × (lookup (codes "EventApiVersion") entries
        ≡ some (text (setting_or default_api_version event (λ c. c.api_version))))

available_host :
    (parses : Text → Bool) (host : Text)
    → event_transport_host_availability_check parses host ≡ (
        if same host []
        then default_transport_host
        else if parses host
        then host
        else default_transport_host)
unfolding event_transport_host_availability_check
available_host parses host = elim (Bool-cases (parses host)) [ inl e ↦ rw e | inr e ↦ rw e ]

add_event_config-HasEventData :
    (plugins : Text) (env : Text → Text) (parses : Text → Bool) (event : Option PtpEventConfig)
    → HasEventData parses event (
        put (codes "EnabledPlugins") (text plugins) (add_event_config parses event (base_data env)))
unfolding add_event_config base_data put_if_set put lookup same
add_event_config-HasEventData plugins env parses none = (refl, refl, refl, refl)
add_event_config-HasEventData plugins env parses (some c) =
    elim (Bool-cases c.enable_event_publisher) [
      | inr off ↦ rw off (refl, refl, refl, refl)
      | inl on ↦ elim (Bool-cases (same c.storage_type [])) [
        | inl no_type ↦ elim (Bool-cases (same c.api_version [])) [
          | inl no_version ↦
              rw (on, no_type, no_version, ← available_host parses c.transport_host)
                (refl, refl, refl, refl)
          | inr version ↦
              rw (on, no_type, version, ← available_host parses c.transport_host)
                (refl, refl, refl, refl)
        ]
        | inr type ↦ elim (Bool-cases (same c.api_version [])) [
          | inl no_version ↦
              rw (on, type, no_version, ← available_host parses c.transport_host)
                (refl, refl, refl, refl)
          | inr version ↦
              rw (on, type, version, ← available_host parses c.transport_host)
                (refl, refl, refl, refl)
        ]
      ]
    ]

-- For every order of the maps, the data say whether the publisher is on, and have the storage type and
-- the API version that a publisher that is on sets, or else the defaults. Without an event
-- configuration they have no transport host; with a publisher that is off they have the configured
-- host as it is, be it empty or no URL; with one that is on they have the configured host, or the
-- default one if it is empty or no URL.
pub daemon_data-HasEventData :
    (r : MapRange) (env : Text → Text) (parses : Text → Bool) (spec : PtpOperatorConfigSpec)
    → HasEventData parses spec.event_config (daemon_data r env parses spec)
unfolding daemon_data
daemon_data-HasEventData r env parses spec =
    add_event_config-HasEventData (join_commas (plugin_list r spec.enabled_plugins)) env parses
      spec.event_config
