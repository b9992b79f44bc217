-- ===== src/Controllers/OperatorController/Provisioned.antt =====
-- What a reconciliation of the operator has brought about when it ends.
use ptp_operator_upstream.Base.{
  Bool, Option, none, some, List, ◌≡◌, refl, ap, arith, Result, ok, fail, wrap, some-error≢none,
  All, All-map,
}
use ptp_operator_upstream.Base.Text.{Text}
use ptp_operator_upstream.Base.GoMap.{MapRange}
use ptp_operator_upstream.Api.OperatorConfig.{PtpOperatorConfig}
use ptp_operator_upstream.Apply.Unstructured.{Unstructured}
use ptp_operator_upstream.Apply.Object.{Retrieved, existing, not_found, get_failed, Client}
use ptp_operator_upstream.Render.{Engine}
use ptp_operator_upstream.Controllers.Recommend.{Node}
use ptp_operator_upstream.Controllers.OperatorController.{
  default_ptp_config_map_name, default_leap_config_map_name, default_operator_config_name,
}
use ptp_operator_upstream.Controllers.OperatorController.Steps.{
  OperatorError, default_config, config_not_created, nodes_not_listed, OperatorCluster, DaemonSets,
  finished, requeued, end_with, create_ptp_config_map, create_leap_config_map, sync_linuxptp_daemon,
  sync_all, reconcile_config, reconcile_operator,
}
use ptp_operator_upstream.Controllers.OperatorController.Created.{
  and_then-none, HasDevice, HasMap, Keeps, Keeps-trans, Keeps-map, Creates,
  sync_node_ptp_device-HasDevice, create_config_map-HasMap,
}

end_with-requeued :
    {S E : Type 0} (p : S × Option (OperatorError E)) (s' : S)
    → end_with requeued p ≡ (s', requeued)
    → p ≡ (s', none)
end_with-requeued (s, none) s' h = ap (λ q. (q.0, none)) h
end_with-requeued (s, some e) s' h = absurd (ground (arith, ap (λ q. q.1) h))

end_with-finished :
    {S E : Type 0} (p : S × Option (OperatorError E)) (s' : S)
    → end_with finished p ≡ (s', requeued)
    → ⊥
end_with-finished (s, none) s' h = ground (arith, ap (λ q. q.1) h)
end_with-finished (s, some e) s' h = ground (arith, ap (λ q. q.1) h)

module _ {S O D E Tm V T N M : Type 0} (u : Unstructured O E Tm V) (client : Client S O E)
    (deep_equal : O → O → Bool) (daemons : DaemonSets O D E) (engine : Engine T O E) (r : MapRange)
    (env : Text → Text) (parses : Text → Bool) (k : OperatorCluster S N M E) where
  -- In between there was a state with all that the operator provides, and the daemon was applied
  -- to it.
  abbrev pub IsProvisioned : S → PtpOperatorConfig → List Node → S → Type 0
  IsProvisioned s config nodes s' =
      (middle : S) × All (λ node. HasDevice k middle node.name) nodes
      × HasMap k middle default_ptp_config_map_name
      × HasMap k middle default_leap_config_map_name
      × Keeps k s middle
      × (sync_linuxptp_daemon u client deep_equal daemons engine r env parses config nodes middle
          ≡ (s', none))

  sync_all-IsProvisioned :
      Creates k
      → (config : PtpOperatorConfig) (s s' : S) (listed : Result E (List Node))
      → sync_all u client deep_equal daemons engine r env parses k config s listed ≡ (s', none)
      → (nodes : List Node) × (listed ≡ ok nodes) × IsProvisioned s config nodes s'
  unfolding sync_all create_ptp_config_map create_leap_config_map
  sync_all-IsProvisioned laws config s s' (fail e) h =
      absurd (some-error≢none s s' (nodes_not_listed e) h)
  sync_all-IsProvisioned laws config s s' (ok nodes) h =
      let (s3, before_daemon, daemon) = and_then-none _ _ s' h in
      let (s2, before_leap, leap) = and_then-none _ _ s3 before_daemon in
      let (s1, devices, ptp) = and_then-none _ _ s2 before_leap in
      let (has, keeps1) = sync_node_ptp_device-HasDevice k laws s s1 nodes devices in
      let (ptp_map, keeps2) =
        create_config_map-HasMap k laws config default_ptp_config_map_name s1 s2
          (k.get_map s1 default_ptp_config_map_name) refl ptp in
      let (leap_map, keeps3) =
        create_config_map-HasMap k laws config default_leap_config_map_name s2 s3
          (k.get_map s2 default_leap_config_map_name) refl leap in
      let later = Keeps-trans k s1 s2 s3 keeps2 keeps3 in
      (
        nodes,
        refl,
        (
          s3,
          All-map _ _ nodes (λ node. later.0 node.name) has,
          Keeps-map k s2 s3 default_ptp_config_map_name keeps3 ptp_map,
          leap_map,
          Keeps-trans k s s1 s3 keeps1 later,
          daemon,
        ),
      )

  reconcile_config-IsProvisioned :
      Creates k
      → (s s' : S) (got : Retrieved E PtpOperatorConfig)
      → reconcile_config u client deep_equal daemons engine r env parses k s got ≡ (s', requeued)
      → (config : PtpOperatorConfig) × (nodes : List Node) × (got ≡ existing config)
        × (k.list_nodes s ≡ ok nodes)
        × IsProvisioned s config nodes s'
  unfolding reconcile_config
  reconcile_config-IsProvisioned laws s s' (existing config) h =
      let (nodes, listed, provisioned) =
        sync_all-IsProvisioned laws config s s' (k.list_nodes s) (end_with-requeued _ s' h) in
      (config, nodes, refl, listed, provisioned)
  reconcile_config-IsProvisioned laws s s' not_found h =
      absurd (end_with-finished (wrap config_not_created (k.create_config s default_config)) s' h)
  reconcile_config-IsProvisioned laws s s' (get_failed e) h =
      absurd (ground (arith, ap (λ q. q.1) h))

  -- A reconciliation of the operator that ends to be repeated has found the default configuration
  -- and has reached a state where every listed node has a device and both config maps exist, where
  -- the devices that there were still exist and the config maps that there were are unchanged, and
  -- from which the daemon was applied without an error. That is for a cluster that keeps what there
  -- is when it creates.
  pub reconcile_operator-IsProvisioned :
      Creates k
      → (s s' : S)
      → reconcile_operator u client deep_equal daemons engine r env parses k s ≡ (s', requeued)
      → (config : PtpOperatorConfig) × (nodes : List Node) × (k.get_config s
            default_operator_config_name
          ≡ existing config)
        × (k.list_nodes s ≡ ok nodes)
        × IsProvisioned s config nodes s'
  unfolding reconcile_operator
  reconcile_operator-IsProvisioned laws s s' h =
      reconcile_config-IsProvisioned laws s s' (k.get_config s default_operator_config_name) h
