-- ===== src/Controllers/PtpConfigController/Stable.antt =====
-- A second reconciliation of controllers/ptpconfig_controller.go.
use ptp_operator_upstream.Base.{
  none, List, [], ◌∷◌, ◌>>=◌, ◌≡◌, refl, sym, ap, ◌∙◌, ret, ret-injective, bind-ret, Result, ok,
  fail, wrap, wrap-none, some-error≢none,
}
use ptp_operator_upstream.Base.Text.{Text}
use ptp_operator_upstream.Base.GoMap.{GoMap, put, MapRange}
use ptp_operator_upstream.Api.PtpConfig.{PtpProfile, PtpConfig}
use ptp_operator_upstream.Controllers.Recommend.{Node, SliceSort}
use ptp_operator_upstream.Controllers.Recommend.AnyOrder.{get_recommend_profiles_any_order}
use ptp_operator_upstream.Controllers.PtpConfigController.{
  SyncError, configs_not_listed, nodes_not_listed, not_synced, Listed, items, no_resource,
  list_failed, Cluster, sync_nodes, store_data, sync_ptp_config, node_data,
  get_recommend_node_ptp_profiles, reconcile_nodes, reconcile_configs, reconcile,
}
use ptp_operator_upstream.Controllers.PtpConfigController.Synced.{store_data-ok}

-- What is relied on of the client, where a config map is taken without its resource version: an update
-- is read back and keeps everything else, and the update with what is stored already is none.
pub record Settling {S C E : Type 0} (cluster : Cluster S C E) : Type 0 where
  pub set_data_twice :
      (entries : GoMap Text) (c : C)
      → cluster.set_data entries (cluster.set_data entries c) ≡ cluster.set_data entries c
  pub update_stores :
      (s s' : S) (c : C) → cluster.update_map s c ≡ (s', none) → cluster.get_map s' ≡ ok c
  pub update_keeps :
      (s s' : S) (c : C)
      → cluster.update_map s c ≡ (s', none)
      → (cluster.list_configs s' ≡ cluster.list_configs s)
        × (cluster.list_nodes s' ≡ cluster.list_nodes s)
  pub update_same : (s : S) (c : C) → cluster.get_map s ≡ ok c → cluster.update_map s c ≡ (s, none)

module _ {S C E : Type 0} (cluster : Cluster S C E) (marshal : List PtpProfile → Result E Text)
    (r : MapRange) (s : SliceSort) (settling : Settling cluster) where
  -- What has been stored is stored again.
  store_data_again :
      (state state' : S) (entries : Result (SyncError E) (GoMap Text))
      → store_data cluster state entries ≡ (state', none)
      → (store_data cluster state' entries ≡ (state', none))
        × (cluster.list_configs state' ≡ cluster.list_configs state)
        × (cluster.list_nodes state' ≡ cluster.list_nodes state)
  unfolding store_data
  store_data_again state state' (fail e) h = absurd (some-error≢none state state' e h)
  store_data_again state state' (ok entries) h =
      let (cm, read, written) = store_data-ok cluster marshal r s state state' entries h in
      let stored = settling.update_stores state state' (cluster.set_data entries cm) written in
      let kept = settling.update_keeps state state' (cluster.set_data entries cm) written in
      let same_map = settling.update_same state' (cluster.set_data entries cm) stored in
      (rw (store_data, stored, settling.set_data_twice entries cm, same_map), kept.0, kept.1)

  nodes_again :
      (state state' : S) (configs : List PtpConfig) (listed : Result E (List Node))
      → reconcile_nodes cluster marshal r s state configs listed ≡ ret (state', none)
      → (reconcile_nodes cluster marshal r s state' configs listed ≡ ret (state', none))
        × (cluster.list_configs state' ≡ cluster.list_configs state)
        × (cluster.list_nodes state' ≡ cluster.list_nodes state)
  unfolding reconcile_nodes sync_ptp_config
  nodes_again state state' configs (fail e) h =
      absurd (some-error≢none state state' (nodes_not_listed e) (ret-injective _ _ h))
  nodes_again state state' configs (ok nodes) h =
      let (synced, e, f) =
        bind-ret (sync_ptp_config cluster marshal r s state configs nodes)
          (λ x. ret (wrap not_synced x)) (state', none) h in
      let done = wrap-none not_synced synced state' (ret-injective _ _ f) in
      let (entries, g, stored) =
        bind-ret (sync_nodes marshal r s configs [] nodes) (λ x. ret (store_data cluster state x))
          (state', none) (e ∙ ap ret done) in
      let (again, same_configs, same_nodes) =
        store_data_again state state' entries (ret-injective _ _ stored) in
      (rw (reconcile_nodes, sync_ptp_config, g, again), same_configs, same_nodes)

  configs_again :
      (state state' : S) (listed : Listed E (List PtpConfig))
      → cluster.list_configs state ≡ listed
      → reconcile_configs cluster marshal r s state listed ≡ ret (state', none)
      → reconcile_configs cluster marshal r s state' (cluster.list_configs state')
        ≡ ret (state', none)
  unfolding reconcile_configs
  configs_again state state' no_resource l h =
      let same_state : state ≡ state' = ap (λ p. p.0) (ret-injective _ _ h) in rw (← same_state, l)
  configs_again state state' (list_failed e) l h =
      absurd (some-error≢none state state' (configs_not_listed e) (ret-injective _ _ h))
  configs_again state state' (items configs) l h =
      let (again, same_configs, same_nodes) =
        nodes_again state state' configs (cluster.list_nodes state) h in
      rw (same_configs, l, reconcile_configs, same_nodes) again

module _ {S C E : Type 0} (cluster : Cluster S C E) (marshal : List PtpProfile → Result E Text)
    (r r' : MapRange) (s s' : SliceSort) where
  -- The data are the same in every run.
  sync_nodes_any_order :
      (configs : List PtpConfig) (entries : GoMap Text) (nodes : List Node)
      → sync_nodes marshal r s configs entries nodes
        ≡ sync_nodes marshal r' s' configs entries nodes
  unfolding sync_nodes node_data get_recommend_node_ptp_profiles
  sync_nodes_any_order configs entries [] = refl
  sync_nodes_any_order configs entries (node ∷ nodes) =
      rw (get_recommend_profiles_any_order r r' s s' configs node) (
        ap (λ k. node_data marshal r' s' configs node >>= k)
          (λ i result. elim result [
            | fail e ↦ ret (fail e)
            | ok text ↦ sync_nodes_any_order configs (put node.name text entries) nodes i
          ]))

  nodes_any_order :
      (state : S) (configs : List PtpConfig) (listed : Result E (List Node))
      → reconcile_nodes cluster marshal r s state configs listed
        ≡ reconcile_nodes cluster marshal r' s' state configs listed
  unfolding reconcile_nodes sync_ptp_config
  nodes_any_order state configs (fail e) = refl
  nodes_any_order state configs (ok nodes) = rw (sync_nodes_any_order configs [] nodes) refl

  configs_any_order :
      (state : S) (listed : Listed E (List PtpConfig))
      → reconcile_configs cluster marshal r s state listed
        ≡ reconcile_configs cluster marshal r' s' state listed
  unfolding reconcile_configs
  configs_any_order state no_resource = refl
  configs_any_order state (list_failed e) = refl
  configs_any_order state (items configs) = nodes_any_order state configs (cluster.list_nodes state)

  reconcile_any_order :
      (state : S) → reconcile cluster marshal r s state ≡ reconcile cluster marshal r' s' state
  unfolding reconcile
  reconcile_any_order state = configs_any_order state (cluster.list_configs state)

-- If updates are read back and keep the rest of the cluster, and the update with a config map that is
-- stored already changes nothing, then one reconciliation that succeeds is enough: a second one succeeds
-- and leaves the cluster as it is, also if it meets the maps in other orders and leaves equal priorities
-- in another order than the first.
pub reconcile_twice :
    {S C E : Type 0} (cluster : Cluster S C E) (marshal : List PtpProfile → Result E Text)
    (r r' : MapRange) (s s' : SliceSort)
    → Settling cluster
    → (state state' : S) → reconcile cluster marshal r s state ≡ ret (state', none)
    → reconcile cluster marshal r' s' state' ≡ ret (state', none)
unfolding reconcile
reconcile_twice cluster marshal r r' s s' settling state state' h =
    sym (reconcile_any_order cluster marshal r r' s s' state')
    ∙ configs_again cluster marshal r s settling state state' (cluster.list_configs state) refl h
