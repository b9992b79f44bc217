-- ===== src/Controllers/PtpConfigController.antt =====
-- controllers/ptpconfig_controller.go: the config map that tells every node its profiles. The
-- cluster, its client and `json.Marshal` are parameters; the cluster is an explicit state.
pub mod Texts
pub mod Synced
pub mod Stable
pub mod Failed
pub mod Answered
use ptp_operator_upstream.Base.{
  Bool, true, false, Option, none, some, List, [], ◌∷◌, ◌≡◌, Go, ret, panic, ◌>>=◌, Result, ok,
  fail, wrap,
}
use ptp_operator_upstream.Base.Text.{Text}
use ptp_operator_upstream.Base.GoMap.{GoMap, put, MapRange}
use ptp_operator_upstream.Api.PtpConfig.{PtpProfile, PtpConfig}
use ptp_operator_upstream.Controllers.Recommend.{
  Node, SliceSort, Recommended, profiles, failed_to_find_all, get_recommend_profiles,
}

pub data SyncError (E : Type 0) : Type 0 where
  not_recommended : SyncError E
  not_marshalled map_not_retrieved map_not_updated : E → SyncError E

pub data ReconcileError (E : Type 0) : Type 0 where
  configs_not_listed nodes_not_listed : E → ReconcileError E
  not_synced : SyncError E → ReconcileError E

-- The answer to a `List` of the resources: `IsNotFound` tells the second case from the third.
pub data Listed (E A : Type 0) : Type 0 where
  items : A → Listed E A
  no_resource : Listed E A
  list_failed : E → Listed E A

-- The client's calls on a cluster in a state `S`, for the one config map `C` of the operator, and
-- `cm.Data = data`.
pub record Cluster (S C E : Type 0) : Type 0 where
  pub list_configs : S → Listed E (List PtpConfig)
  pub list_nodes : S → Result E (List Node)
  pub get_map : S → Result E C
  pub set_data : GoMap Text → C → C
  pub update_map : S → C → S × Option E

unfoldable pub get_recommend_node_ptp_profiles :
    {E : Type 0}
    → MapRange
    → SliceSort
    → List PtpConfig
    → Node
    → Go (Result (SyncError E) (List PtpProfile))
get_recommend_node_ptp_profiles r s configs node = do
  recommended ← get_recommend_profiles r s configs node
  elim recommended [ profiles ps ↦ ret (ok ps) | failed_to_find_all ↦ ret (fail not_recommended) ]

module _ {E : Type 0} (marshal : List PtpProfile → Result E Text) where
  unfoldable pub marshal_profiles :
      Result (SyncError E) (List PtpProfile) → Result (SyncError E) Text
  marshal_profiles (fail e) = fail e
  marshal_profiles (ok ps) = elim (marshal ps) [
    | ok text ↦ ok text
    | fail e ↦ fail (not_marshalled e)
  ]

  -- The text for one node.
  unfoldable pub node_data :
      MapRange → SliceSort → List PtpConfig → Node → Go (Result (SyncError E) Text)
  node_data r s configs node = do
    recommended ← get_recommend_node_ptp_profiles r s configs node
    ret (marshal_profiles recommended)

  -- The loop over the nodes, which adds to `data`.
  unfoldable pub sync_nodes :
      MapRange
      → SliceSort
      → List PtpConfig
      → GoMap Text
      → List Node
      → Go (Result (SyncError E) (GoMap Text))
  sync_nodes r s configs entries [] = ret (ok entries)
  sync_nodes r s configs entries (node ∷ nodes) = do
    result ← node_data r s configs node
    elim result [
      | fail e ↦ ret (fail e)
      | ok text ↦ sync_nodes r s configs (put node.name text entries) nodes
    ]

module _ {S C E : Type 0} (cluster : Cluster S C E) where
  -- What follows the loop: the map is read, its entries replaced, and written.
  unfoldable pub store_data : S → Result (SyncError E) (GoMap Text) → S × Option (SyncError E)
  store_data state (fail e) = (state, some e)
  store_data state (ok entries) = elim (cluster.get_map state) [
    | fail e ↦ (state, some (map_not_retrieved e))
    | ok cm ↦ wrap map_not_updated (cluster.update_map state (cluster.set_data entries cm))
  ]

  module _ (marshal : List PtpProfile → Result E Text) (r : MapRange) (s : SliceSort) where
    unfoldable pub sync_ptp_config : S → List PtpConfig → List Node → Go (S × Option (SyncError E))
    sync_ptp_config state configs nodes = do
      entries ← sync_nodes marshal r s configs [] nodes
      ret (store_data state entries)

    unfoldable pub reconcile_nodes :
        S → List PtpConfig → Result E (List Node) → Go (S × Option (ReconcileError E))
    reconcile_nodes state configs (fail e) = ret (state, some (nodes_not_listed e))
    reconcile_nodes state configs (ok nodes) = do
      synced ← sync_ptp_config state configs nodes
      ret (wrap not_synced synced)

    unfoldable pub reconcile_configs :
        S → Listed E (List PtpConfig) → Go (S × Option (ReconcileError E))
    unfolding reconcile_nodes
    reconcile_configs state no_resource = ret (state, none)
    reconcile_configs state (list_failed e) = ret (state, some (configs_not_listed e))
    reconcile_configs state (items configs) =
        reconcile_nodes state configs (cluster.list_nodes state)

    unfoldable pub reconcile : S → Go (S × Option (ReconcileError E))
    unfolding reconcile_configs
    reconcile state = reconcile_configs state (cluster.list_configs state)
