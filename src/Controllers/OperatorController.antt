-- ===== src/Controllers/OperatorController.antt =====
-- controllers/ptpoperatorconfig_controller.go: the operator's own objects. The cluster, its client,
-- the environment, the URL parser and the conversion of daemon sets are parameters; the cluster is
-- an explicit state.
pub mod Steps
pub mod Data
pub mod Joined
pub mod Created
pub mod Provisioned
use ptp_operator_upstream.Base.{
  Bool, true, false, not, ◌&&◌, Option, none, some, List, [], ◌∷◌, ◌++◌, ◌≡◌, Result, ok, fail,
  ◌then◌, ltb, length, if◌then◌else◌,
}
use ptp_operator_upstream.Base.Text.{Text, codes, same, until}
use ptp_operator_upstream.Base.GoMap.{GoMap, keys, put, MapRange}
use ptp_operator_upstream.Api.OperatorConfig.{
  PtpEventConfig, PtpOperatorConfigSpec, PtpOperatorConfig,
}
use ptp_operator_upstream.Apply.Unstructured.{View, Unstructured}
use ptp_operator_upstream.Apply.Object.{Retrieved, existing, not_found, get_failed, ApplyError}
use ptp_operator_upstream.Render.{Value, text, flag, RenderError}
use ptp_operator_upstream.Controllers.Recommend.{Node}

abbrev pub default_transport_host : Text
default_transport_host =
    codes "http://ptp-event-publisher-service-NODE_NAME.openshift-ptp.svc.cluster.local:9043"

abbrev pub default_storage_type : Text
default_storage_type = codes "emptyDir"

abbrev pub default_api_version : Text
default_api_version = codes "1.0"

-- pkg/names/names.go.
abbrev pub operator_namespace : Text
operator_namespace = codes "openshift-ptp"

abbrev pub default_ptp_config_map_name : Text
default_ptp_config_map_name = codes "ptp-configmap"

abbrev pub default_leap_config_map_name : Text
default_leap_config_map_name = codes "leap-configmap"

abbrev pub default_operator_config_name : Text
default_operator_config_name = codes "default"

-- `EventTransportHostAvailabilityCheck`, which returns no error. `parses` is `url.Parse`.
unfoldable pub event_transport_host_availability_check : (Text → Bool) → Text → Text
event_transport_host_availability_check parses host =
    if same host []
    then default_transport_host
    else if not (parses host)
    then default_transport_host
    else host

-- `if value != "" { data[key] = value }`.
unfoldable pub put_if_set : Text → Text → GoMap Value → GoMap Value
put_if_set key value entries = if not (same value []) then put key (text value) entries else entries

-- What the event configuration adds to the data.
unfoldable pub add_event_config : (Text → Bool) → Option PtpEventConfig → GoMap Value → GoMap Value
add_event_config parses none entries = put (codes "EnableEventPublisher") (flag false) entries
add_event_config parses (some c) entries =
    let published =
      put (codes "EventTransportHost") (text c.transport_host)
        (put (codes "EnableEventPublisher") (flag c.enable_event_publisher) entries) in
    if c.enable_event_publisher
    then put_if_set (codes "EventApiVersion") c.api_version (
        put_if_set (codes "StorageType") c.storage_type (
          put (codes "EventTransportHost")
            (text (event_transport_host_availability_check parses c.transport_host)) published))
    else published

-- `strings.Join(l, ",")`.
unfoldable pub join_commas : List Text → Text
join_commas [] = []
join_commas (x ∷ []) = x
join_commas (x ∷ y ∷ l) = x ++ (codes "," ++ join_commas (y ∷ l))

-- The plugins that are named, or e810 if none is specified.
unfoldable pub plugin_list : MapRange → Option (GoMap (Option Text)) → List Text
plugin_list r none = codes "e810" ∷ []
plugin_list r (some plugins) = keys (r.range (Option Text) plugins)

-- What does not depend on the configuration; `env` is `os.Getenv`.
unfoldable pub base_data : (Text → Text) → GoMap Value
base_data env =
    (codes "Image", text (env (codes "LINUXPTP_DAEMON_IMAGE")))
    ∷ (codes "Namespace", text operator_namespace)
    ∷ (codes "ReleaseVersion", text (env (codes "RELEASEVERSION")))
    ∷ (codes "KubeRbacProxy", text (env (codes "KUBE_RBAC_PROXY_IMAGE")))
    ∷ (codes "SideCar", text (env (codes "SIDECAR_EVENT_IMAGE")))
    ∷ (codes "NodeName", text (env (codes "NODE_NAME")))
    ∷ (codes "StorageType", text default_storage_type)
    ∷ (codes "EventApiVersion", text default_api_version)
    ∷ []

-- The data that the manifest of the daemon is rendered with.
unfoldable pub daemon_data :
    MapRange → (Text → Text) → (Text → Bool) → PtpOperatorConfigSpec → GoMap Value
daemon_data r env parses spec =
    put (codes "EnabledPlugins") (text (join_commas (plugin_list r spec.enabled_plugins)))
      (add_event_config parses spec.event_config (base_data env))
