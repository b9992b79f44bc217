-- ===== src/Controllers/PtpConfigController/Synced.antt =====
-- What the config map says after a reconciliation.
use ptp_operator_upstream.Base.{
  none, List, [], ◌≡◌, ◌⊎◌, inl, inr, refl, ap, sym, ◌∙◌, ret, ret-injective, bind-ret, Result, ok,
  fail, ok-or-fail, wrap, wrap-none, some-error≢none, All,
}
use ptp_operator_upstream.Base.Distinct.{Has, Distinct}
use ptp_operator_upstream.Base.Text.{Text}
use ptp_operator_upstream.Base.GoMap.{GoMap, lookup, MapRange}
use ptp_operator_upstream.Api.PtpConfig.{PtpProfile, PtpConfig}
use ptp_operator_upstream.Controllers.Recommend.{Node, SliceSort}
use ptp_operator_upstream.Controllers.PtpConfigController.{
  map_not_retrieved, map_not_updated, configs_not_listed, nodes_not_listed, not_synced, Listed,
  items, no_resource, list_failed, Cluster, sync_nodes, store_data, sync_ptp_config,
  reconcile_nodes, reconcile_configs, reconcile,
}
use ptp_operator_upstream.Controllers.PtpConfigController.Texts.{
  node_names, HasTextOf, sync_nodes-ok,
}

module _ {S C E : Type 0} (cluster : Cluster S C E) (marshal : List PtpProfile → Result E Text)
    (r : MapRange) (s : SliceSort) where
  -- The config map was read in the first state and written with the text of every node and
  -- nothing else, which gave the second.
  abbrev pub IsSynced : S → List PtpConfig → List Node → S → Type 0
  IsSynced state configs nodes state' =
      (entries : GoMap Text) × (cm : C) × All (HasTextOf marshal r s configs entries) nodes
      × ((k : Text) → (Has k (node_names nodes) → ⊥) → lookup k entries ≡ none)
      × (cluster.get_map state ≡ ok cm)
      × (cluster.update_map state (cluster.set_data entries cm) ≡ (state', none))

  pub store_data-ok :
      (state state' : S) (entries : GoMap Text)
      → store_data cluster state (ok entries) ≡ (state', none)
      → (cm : C) × (cluster.get_map state ≡ ok cm)
        × (cluster.update_map state (cluster.set_data entries cm) ≡ (state', none))
  unfolding store_data
  store_data-ok state state' entries h = elim (ok-or-fail (cluster.get_map state)) [
    | inr (e, g) ↦
        absurd (some-error≢none state state' (map_not_retrieved e) (rw (store_data, g) at h))
    | inl (cm, g) ↦ (
      cm,
      g,
      wrap-none map_not_updated (cluster.update_map state (cluster.set_data entries cm)) state'
          (rw (store_data, g) at h),
    )
  ]

  sync_ptp_config-IsSynced :
      (state state' : S) (configs : List PtpConfig) (nodes : List Node)
      → Distinct (node_names nodes)
      → sync_ptp_config cluster marshal r s state configs nodes ≡ ret (state', none)
      → IsSynced state configs nodes state'
  unfolding sync_ptp_config lookup
  sync_ptp_config-IsSynced state state' configs nodes d h =
      let (result, e, f) =
        bind-ret (sync_nodes marshal r s configs [] nodes) (λ x. ret (store_data cluster state x))
          (state', none) h in
      elim (ok-or-fail result) [
        | inr (error, g) ↦ absurd (
            some-error≢none state state' error
              (ret-injective _ _ (unfold store_data in (rw g at f))))
        | inl (entries, g) ↦
            let (texts, others) =
              sync_nodes-ok marshal r s configs nodes [] entries d (e ∙ ap ret g) in
            let (cm, read, written) =
              store_data-ok state state' entries (ret-injective _ _ (rw g at f)) in
            (entries, cm, texts, others, read, written)
      ]

  abbrev pub IsReconciled : S → S → Listed E (List PtpConfig) → Type 0
  IsReconciled state state' listed =
      ((listed ≡ no_resource) × (state' ≡ state))
      ⊎ ((configs : List PtpConfig) × (nodes : List Node) × (listed ≡ items configs)
          × (cluster.list_nodes state ≡ ok nodes)
          × IsSynced state configs nodes state')

  reconcile_nodes-IsSynced :
      (state state' : S) (configs : List PtpConfig) (listed : Result E (List Node))
      → ((nodes : List Node) → listed ≡ ok nodes → Distinct (node_names nodes))
      → reconcile_nodes cluster marshal r s state configs listed ≡ ret (state', none)
      → (nodes : List Node) × (listed ≡ ok nodes) × IsSynced state configs nodes state'
  unfolding reconcile_nodes
  reconcile_nodes-IsSynced state state' configs (fail e) d h =
      absurd (some-error≢none state state' (nodes_not_listed e) (ret-injective _ _ h))
  reconcile_nodes-IsSynced state state' configs (ok nodes) d h =
      let (synced, e, f) =
        bind-ret (sync_ptp_config cluster marshal r s state configs nodes)
          (λ x. ret (wrap not_synced x)) (state', none) h in
      let written = wrap-none not_synced synced state' (ret-injective _ _ f) in
      (
        nodes,
        refl,
        sync_ptp_config-IsSynced state state' configs nodes (d nodes refl) (e ∙ ap ret written),
      )

  reconcile_configs-IsReconciled :
      (state state' : S) (listed : Listed E (List PtpConfig))
      → ((nodes : List Node) → cluster.list_nodes state ≡ ok nodes → Distinct (node_names nodes))
      → reconcile_configs cluster marshal r s state listed ≡ ret (state', none)
      → IsReconciled state state' listed
  unfolding reconcile_configs
  reconcile_configs-IsReconciled state state' no_resource d h =
      inl (refl, sym (ap (λ p. p.0) (ret-injective _ _ h)))
  reconcile_configs-IsReconciled state state' (list_failed e) d h =
      absurd (some-error≢none state state' (configs_not_listed e) (ret-injective _ _ h))
  reconcile_configs-IsReconciled state state' (items configs) d h =
      let (nodes, listed, synced) =
        reconcile_nodes-IsSynced state state' configs (cluster.list_nodes state) d h in
      inr (configs, nodes, refl, listed, synced)

  -- A reconciliation that succeeds has found no resource type and left the cluster alone, or it has
  -- written the config map with the recommended profiles of every node under the node's name, and
  -- no other entry. That is if the nodes that the cluster lists have different names.
  pub reconcile-IsReconciled :
      (state state' : S)
      → ((nodes : List Node) → cluster.list_nodes state ≡ ok nodes → Distinct (node_names nodes))
      → reconcile cluster marshal r s state ≡ ret (state', none)
      → IsReconciled state state' (cluster.list_configs state)
  unfolding reconcile
  reconcile-IsReconciled state state' d h =
      reconcile_configs-IsReconciled state state' (cluster.list_configs state) d h
