-- ===== src/Controllers/PtpConfigController/Answered.antt =====
-- When a reconciliation succeeds.
use ptp_operator_upstream.Base.{none, List, [], ◌∷◌, ◌≡◌, refl, ret, Result, ok, All}
use ptp_operator_upstream.Base.Text.{Text}
use ptp_operator_upstream.Base.GoMap.{GoMap, put, lookup, MapRange}
use ptp_operator_upstream.Api.PtpConfig.{PtpProfile, PtpConfig}
use ptp_operator_upstream.Controllers.Recommend.{Node, SliceSort}
use ptp_operator_upstream.Controllers.PtpConfigController.{
  items, Cluster, get_recommend_node_ptp_profiles, marshal_profiles, node_data, sync_nodes,
  store_data, sync_ptp_config, reconcile_nodes, reconcile_configs, reconcile,
}
use ptp_operator_upstream.Controllers.PtpConfigController.Texts.{
  node_names, IsTextOf, HasTextOf, sync_nodes-ok,
}
use ptp_operator_upstream.Controllers.PtpConfigController.Synced.{IsSynced}
use ptp_operator_upstream.Base.Distinct.{Distinct}

module _ {E : Type 0} (marshal : List PtpProfile → Result E Text) (r : MapRange) (s : SliceSort)
    (configs : List PtpConfig) where
  -- A node for which profiles are found that can be marshalled.
  abbrev HasText : Node → Type 0
  HasText node = (t : Text) × IsTextOf marshal r s configs node t

  HasText-node_data :
      (node : Node) (t : Text)
      → IsTextOf marshal r s configs node t
      → node_data marshal r s configs node ≡ ret (ok t)
  unfolding node_data get_recommend_node_ptp_profiles marshal_profiles
  HasText-node_data node t (ps, recommended, text) = rw (recommended, marshal_profiles, text) refl

  HasText-sync_nodes :
      (nodes : List Node) (before : GoMap Text)
      → All HasText nodes
      → (after : GoMap Text) × (sync_nodes marshal r s configs before nodes ≡ ret (ok after))
  unfolding sync_nodes
  HasText-sync_nodes [] before h = (before, refl)
  HasText-sync_nodes (node ∷ nodes) before ((t, h), rest) =
      let (after, e) = HasText-sync_nodes nodes (put node.name t before) rest in
      (after, rw (HasText-node_data node t h) e)

module _ {S C E : Type 0} (cluster : Cluster S C E) (marshal : List PtpProfile → Result E Text)
    (r : MapRange) (s : SliceSort) where
  -- A reconciliation returns, without an error, and it has written the recommended profiles of every
  -- node and nothing else, if the cluster lists its resources and its nodes, which have different
  -- names, if profiles that can be marshalled are found for every node, if the config map can be read,
  -- and if it can be written with every data that have these texts.
  pub HasText-reconcile :
      (state : S) (configs : List PtpConfig) (nodes : List Node) (cm : C)
      → cluster.list_configs state ≡ items configs
      → cluster.list_nodes state ≡ ok nodes
      → Distinct (node_names nodes)
      → All (HasText marshal r s configs) nodes
      → cluster.get_map state ≡ ok cm
      → ((entries : GoMap Text)
          → All (HasTextOf marshal r s configs entries) nodes
          → (state' : S) × (cluster.update_map state (cluster.set_data entries cm)
              ≡ (state', none)))
      → (state' : S) × (reconcile cluster marshal r s state ≡ ret (state', none))
        × IsSynced cluster marshal r s state configs nodes state'
  unfolding reconcile reconcile_configs reconcile_nodes sync_ptp_config store_data lookup
  HasText-reconcile state configs nodes cm listed found distinct texts read writes =
      let (entries, synced) = HasText-sync_nodes marshal r s configs nodes [] texts in
      let (stored, others) = sync_nodes-ok marshal r s configs nodes [] entries distinct synced in
      let (state', written) = writes entries stored in
      (
        state',
        rw (listed, found, synced, store_data, read, written) refl,
        (entries, cm, stored, others, read, written),
      )
