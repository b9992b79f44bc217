-- ===== src/Controllers/PtpConfigController/Failed.antt =====
-- What a reconciliation that fails has done to the cluster.
use ptp_operator_upstream.Base.{
  Option, some, List, ◌≡◌, ◌⊎◌, inl, inr, sym, ap, ◌∙◌, ret, ret-injective, bind-ret, Result, ok,
  fail, ok-or-fail, wrap, wrap-some,
}
use ptp_operator_upstream.Base.Text.{Text}
use ptp_operator_upstream.Base.GoMap.{GoMap, MapRange}
use ptp_operator_upstream.Api.PtpConfig.{PtpProfile, PtpConfig}
use ptp_operator_upstream.Controllers.Recommend.{Node, SliceSort}
use ptp_operator_upstream.Controllers.PtpConfigController.{
  SyncError, map_not_updated, ReconcileError, not_synced, Listed, items, no_resource, list_failed,
  Cluster, sync_nodes, store_data, sync_ptp_config, reconcile_nodes, reconcile_configs, reconcile,
}

module _ {S C E : Type 0} (cluster : Cluster S C E) (marshal : List PtpProfile → Result E Text)
    (r : MapRange) (s : SliceSort) where
  -- The write of the config map itself failed, and left the second state.
  abbrev WriteFailed : S → SyncError E → S → Type 0
  WriteFailed state e state' =
      (entries : GoMap Text) × (cm : C) × (error : E) × (e ≡ map_not_updated error)
      × (cluster.update_map state (cluster.set_data entries cm) ≡ (state', some error))

  store_data-fail :
      (state state' : S) (x : Result (SyncError E) (GoMap Text)) (e : SyncError E)
      → store_data cluster state x ≡ (state', some e)
      → (state' ≡ state) ⊎ WriteFailed state e state'
  unfolding store_data
  store_data-fail state state' (fail e0) e h = inl (sym (ap (λ p. p.0) h))
  store_data-fail state state' (ok entries) e h = elim (ok-or-fail (cluster.get_map state)) [
    | inr (e0, g) ↦
        let left : Path (S × Option (SyncError E)) (state, some _) (state', some e) =
          rw (store_data, g) at h in
        inl (sym (ap (λ p. p.0) left))
    | inl (cm, g) ↦
        let (error, same_error, written) =
          wrap-some map_not_updated (cluster.update_map state (cluster.set_data entries cm)) state'
            e (rw (store_data, g) at h) in
        inr (entries, cm, error, same_error, written)
  ]

  sync_ptp_config-fail :
      (state state' : S) (configs : List PtpConfig) (nodes : List Node) (e : SyncError E)
      → sync_ptp_config cluster marshal r s state configs nodes ≡ ret (state', some e)
      → (state' ≡ state) ⊎ WriteFailed state e state'
  unfolding sync_ptp_config
  sync_ptp_config-fail state state' configs nodes e h =
      let (result, _, f) =
        bind-ret (sync_nodes marshal r s configs _ nodes) (λ x. ret (store_data cluster state x))
          (state', some e) h in
      store_data-fail state state' result e (ret-injective _ _ f)

  -- The same for the error of a reconciliation.
  abbrev pub ReconcileWriteFailed : S → ReconcileError E → S → Type 0
  ReconcileWriteFailed state e state' =
      (synced : SyncError E) × (e ≡ not_synced synced) × WriteFailed state synced state'

  reconcile_nodes-fail :
      (state state' : S) (configs : List PtpConfig) (listed : Result E (List Node))
      (e : ReconcileError E)
      → reconcile_nodes cluster marshal r s state configs listed ≡ ret (state', some e)
      → (state' ≡ state) ⊎ ReconcileWriteFailed state e state'
  unfolding reconcile_nodes
  reconcile_nodes-fail state state' configs (fail e0) e h =
      inl (sym (ap (λ p. p.0) (ret-injective _ _ h)))
  reconcile_nodes-fail state state' configs (ok nodes) e h =
      let (synced, g, f) =
        bind-ret (sync_ptp_config cluster marshal r s state configs nodes)
          (λ x. ret (wrap not_synced x)) (state', some e) h in
      let (e0, same_error, failed) = wrap-some not_synced synced state' e (ret-injective _ _ f) in
      elim (sync_ptp_config-fail state state' configs nodes e0 (g ∙ ap ret failed)) [
        | inl left ↦ inl left
        | inr write ↦ inr (e0, same_error, write)
      ]

  reconcile_configs-fail :
      (state state' : S) (listed : Listed E (List PtpConfig)) (e : ReconcileError E)
      → reconcile_configs cluster marshal r s state listed ≡ ret (state', some e)
      → (state' ≡ state) ⊎ ReconcileWriteFailed state e state'
  unfolding reconcile_configs
  reconcile_configs-fail state state' no_resource e h =
      inl (sym (ap (λ p. p.0) (ret-injective _ _ h)))
  reconcile_configs-fail state state' (list_failed e0) e h =
      inl (sym (ap (λ p. p.0) (ret-injective _ _ h)))
  reconcile_configs-fail state state' (items configs) e h =
      reconcile_nodes-fail state state' configs (cluster.list_nodes state) e h

  -- A reconciliation that returns an error has left the cluster as it was, unless the error is that
  -- of writing the config map: the data of no node is written when that of another one fails.
  pub reconcile-fail :
      (state state' : S) (e : ReconcileError E)
      → reconcile cluster marshal r s state ≡ ret (state', some e)
      → (state' ≡ state) ⊎ ReconcileWriteFailed state e state'
  unfolding reconcile
  reconcile-fail state state' e h =
      reconcile_configs-fail state state' (cluster.list_configs state) e h
