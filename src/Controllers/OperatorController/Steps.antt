-- ===== src/Controllers/OperatorController/Steps.antt =====
-- The steps of a reconciliation of controllers/ptpoperatorconfig_controller.go, and their order.
use ptp_operator_upstream.Base.{
  Bool, ◌&&◌, Option, none, some, List, [], ◌∷◌, Result, ok, fail, ◌then◌, wrap, ltb, length,
  if◌then◌else◌,
}
use ptp_operator_upstream.Base.Text.{Text, codes, same, until}
use ptp_operator_upstream.Base.GoMap.{GoMap, put, MapRange}
use ptp_operator_upstream.Api.OperatorConfig.{PtpEventConfig, PtpOperatorConfig}
use ptp_operator_upstream.Apply.Unstructured.{Unstructured}
use ptp_operator_upstream.Apply.Object.{
  Retrieved, existing, not_found, get_failed, ApplyError, Client, apply_object,
}
use ptp_operator_upstream.Render.{Value, text, RenderError, Engine, with_error, render_template}
use ptp_operator_upstream.Controllers.Recommend.{Node}
use ptp_operator_upstream.Controllers.OperatorController.{
  operator_namespace, default_ptp_config_map_name, default_leap_config_map_name,
  default_operator_config_name, daemon_data,
}

pub data OperatorError (E : Type 0) : Type 0 where
  config_not_retrieved config_not_created nodes_not_listed : E → OperatorError E
  device_not_retrieved device_not_created : E → OperatorError E
  map_not_retrieved map_not_owned map_not_created : E → OperatorError E
  manifest_not_rendered : RenderError E → OperatorError E
  not_converted_to_daemon_set not_converted_to_object object_not_owned : E → OperatorError E
  not_applied : ApplyError E → OperatorError E

-- The client's calls on a cluster in a state `S`, in the operator's namespace; `own` is
-- `SetControllerReference`. `N` is the type of the devices, `M` that of the config maps.
pub record OperatorCluster (S N M E : Type 0) : Type 0 where
  pub get_config : S → Text → Retrieved E PtpOperatorConfig
  pub create_config : S → PtpOperatorConfig → S × Option E
  pub list_nodes : S → Result E (List Node)
  pub get_device : S → Text → Retrieved E N
  pub create_device : S → Text → S × Option E
  pub get_map : S → Text → Retrieved E (GoMap Text)
  pub new_map : Text → GoMap Text → M
  pub own_map : PtpOperatorConfig → M → Result E M
  pub create_map : S → M → S × Option E

-- `SetControllerReference` on an object, and `scheme.Convert` to a daemon set `D` and back.
pub record DaemonSets (O D E : Type 0) : Type 0 where
  pub own_object : PtpOperatorConfig → O → Result E O
  pub to_daemon_set : O → Result E D
  pub set_node_selector : GoMap Text → D → D
  pub to_object : D → O → Result E O

-- The configuration that is created if there is none.
abbrev pub default_config : PtpOperatorConfig
default_config = record {
  name = default_operator_config_name;
  namespace = operator_namespace;
  spec = record { daemon_node_selector = []; event_config = none; enabled_plugins = none };
}

-- How a reconciliation ends: with an error, for good, or to be repeated after `ResyncPeriod`.
pub data Outcome (E : Type 0) : Type 0 where
  failed : OperatorError E → Outcome E
  finished requeued : Outcome E

abbrev pub end_with : {S E : Type 0} → Outcome E → S × Option (OperatorError E) → S × Outcome E
end_with outcome (s, none) = (s, outcome)
end_with outcome (s, some e) = (s, failed e)

-- The next step, unless this one failed.
infixl 5 ◌and_then◌
abbrev pub ◌and_then◌ : {S F : Type 0} → S × Option F → (S → S × Option F) → S × Option F
(s, none) and_then f = f s
(s, some e) and_then f = (s, some e)

module _ {S N M E : Type 0} (k : OperatorCluster S N M E) where
  -- A device for a node that has none.
  unfoldable pub create_if_missing : S → Text → Retrieved E N → S × Option (OperatorError E)
  create_if_missing s name (existing device) = (s, none)
  create_if_missing s name not_found = wrap device_not_created (k.create_device s name)
  create_if_missing s name (get_failed e) = (s, some (device_not_retrieved e))

  unfoldable pub sync_node_ptp_device : S → List Node → S × Option (OperatorError E)
  sync_node_ptp_device s [] = (s, none)
  sync_node_ptp_device s (node ∷ nodes) =
      create_if_missing s node.name (k.get_device s node.name) and_then λ s'.
      sync_node_ptp_device s' nodes

  unfoldable pub create_owned_map : S → Result E M → S × Option (OperatorError E)
  create_owned_map s (ok m) = wrap map_not_created (k.create_map s m)
  create_owned_map s (fail e) = (s, some (map_not_owned e))

  -- An empty config map, unless there is one of that name.
  unfoldable pub create_config_map :
      PtpOperatorConfig → Text → S → Retrieved E (GoMap Text) → S × Option (OperatorError E)
  create_config_map config name s (existing m) = (s, none)
  create_config_map config name s not_found =
      create_owned_map s (k.own_map config (k.new_map name []))
  create_config_map config name s (get_failed e) = (s, some (map_not_retrieved e))

  unfoldable pub create_ptp_config_map : PtpOperatorConfig → S → S × Option (OperatorError E)
  create_ptp_config_map config s =
      create_config_map config default_ptp_config_map_name s
        (k.get_map s default_ptp_config_map_name)

  unfoldable pub create_leap_config_map : PtpOperatorConfig → S → S × Option (OperatorError E)
  create_leap_config_map config s =
      create_config_map config default_leap_config_map_name s
        (k.get_map s default_leap_config_map_name)

module _ {S O D E Tm V T : Type 0} (u : Unstructured O E Tm V) (client : Client S O E)
    (deep_equal : O → O → Bool) (daemons : DaemonSets O D E) (engine : Engine T O E)
    (r : MapRange) where
  -- A daemon set gets the node selector, if there is one.
  unfoldable pub set_daemon_node_selector : GoMap Text → O → Result (OperatorError E) O
  set_daemon_node_selector selector o =
      if same (u.view o).gvk.kind (codes "DaemonSet") && ltb 0 (length selector)
      then with_error not_converted_to_daemon_set (daemons.to_daemon_set o)
      then (λ d.
          with_error not_converted_to_object
            (daemons.to_object (daemons.set_node_selector selector d) o))
      else ok o

  unfoldable pub apply_one : S → Result (OperatorError E) O → S × Option (OperatorError E)
  apply_one s (ok o) = wrap not_applied (apply_object u r client deep_equal s o)
  apply_one s (fail e) = (s, some e)

  -- The objects of the daemon's manifest.
  unfoldable pub apply_daemon : PtpOperatorConfig → S → List O → S × Option (OperatorError E)
  apply_daemon config s [] = (s, none)
  apply_daemon config s (o ∷ os) =
      apply_one s (
        set_daemon_node_selector config.spec.daemon_node_selector o then λ o'.
        with_error object_not_owned (daemons.own_object config o'))
      and_then λ s'. apply_daemon config s' os

  -- The objects of the event service's manifest.
  unfoldable pub apply_services : S → List O → S × Option (OperatorError E)
  apply_services s [] = (s, none)
  apply_services s (o ∷ os) = apply_one s (ok o) and_then λ s'. apply_services s' os

  unfoldable pub apply_rendered :
      (S → List O → S × Option (OperatorError E))
      → S
      → Result (RenderError E) (List O)
      → S × Option (OperatorError E)
  apply_rendered apply s (ok os) = apply s os
  apply_rendered apply s (fail e) = (s, some (manifest_not_rendered e))

  -- One event service for every node, which is told the first part of the node's name.
  unfoldable pub sync_services : GoMap Value → S → List Node → S × Option (OperatorError E)
  sync_services entries s [] = (s, none)
  sync_services entries s (node ∷ nodes) =
      let entries' = put (codes "NodeName") (text (until b'.' node.name)) entries in
      apply_rendered apply_services s
        (render_template engine (codes "bindata/linuxptp/event-service.yaml") entries')
      and_then λ s'. sync_services entries' s' nodes

  unfoldable pub sync_event_services :
      Option PtpEventConfig → GoMap Value → S → List Node → S × Option (OperatorError E)
  sync_event_services none entries s nodes = (s, none)
  sync_event_services (some c) entries s nodes = sync_services entries s nodes

  module _ (env : Text → Text) (parses : Text → Bool) where
    unfoldable pub sync_linuxptp_daemon :
        PtpOperatorConfig → List Node → S → S × Option (OperatorError E)
    sync_linuxptp_daemon config nodes s =
        let entries = daemon_data r env parses config.spec in
        apply_rendered (apply_daemon config) s
          (render_template engine (codes "bindata/linuxptp/ptp-daemon.yaml") entries)
        and_then λ s'. sync_event_services config.spec.event_config entries s' nodes

    module _ {N M : Type 0} (k : OperatorCluster S N M E) where
      unfoldable pub sync_all :
          PtpOperatorConfig → S → Result E (List Node) → S × Option (OperatorError E)
      sync_all config s (fail e) = (s, some (nodes_not_listed e))
      sync_all config s (ok nodes) =
          sync_node_ptp_device k s nodes
          and_then create_ptp_config_map k config
          and_then create_leap_config_map k config
          and_then sync_linuxptp_daemon config nodes

      -- The default configuration is created if it is missing.
      unfoldable pub reconcile_config : S → Retrieved E PtpOperatorConfig → S × Outcome E
      unfolding sync_all
      reconcile_config s (existing config) = end_with requeued (sync_all config s (k.list_nodes s))
      reconcile_config s (get_failed e) = (s, failed (config_not_retrieved e))
      reconcile_config s not_found =
          end_with finished (wrap config_not_created (k.create_config s default_config))

      unfoldable pub reconcile_operator : S → S × Outcome E
      unfolding reconcile_config
      reconcile_operator s = reconcile_config s (k.get_config s default_operator_config_name)
