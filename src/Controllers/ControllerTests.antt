-- ===== src/Controllers/ControllerTests.antt =====
-- Runs of the reconciler of controllers/ptpconfig_controller.go, and its theorems and those on
-- orders at them.
use ptp_operator_upstream.Base.{
  none, some, List, [], ◌∷◌, ◌++◌, ◌≡◌, ◌⊎◌, refl, sym, ap, subst, ret, Result, ok, ok-injective,
}
use ptp_operator_upstream.Base.Int.{lt_ℤ, eq_ℤ}
use ptp_operator_upstream.Base.Text.{Text, codes, same, before}
use ptp_operator_upstream.Base.GoMap.{GoMap, lookup, put, insertion_order, reverse_order}
use ptp_operator_upstream.Base.Distinct.{Distinct}
use ptp_operator_upstream.Api.PtpConfig.{PtpProfile, PtpConfig}
use ptp_operator_upstream.Controllers.Recommend.{
  Node, name_of, points_to, rule_matches, node_matches, all_recommend, priority_less, choose,
  recommend_round, recommend_loop, get_recommend_profiles_names, is_name_in, all_profiles,
  filter_profiles, sort_by_name, get_recommend_profiles,
}
use ptp_operator_upstream.Controllers.Recommend.AnyOrder.{get_recommend_profiles_any_order}
use ptp_operator_upstream.Controllers.Recommend.Insertion.{by_insertion, insertion_sort}
use ptp_operator_upstream.Controllers.Tests.{worker, configs, lacking, run_configs}
use ptp_operator_upstream.Controllers.PtpConfigController.Answered.{HasText-reconcile}
use ptp_operator_upstream.Controllers.PtpConfigController.{
  not_recommended, not_synced, items, Cluster, get_recommend_node_ptp_profiles, marshal_profiles,
  node_data, sync_nodes, store_data, sync_ptp_config, reconcile_nodes, reconcile_configs, reconcile,
}
use ptp_operator_upstream.Controllers.PtpConfigController.Stable.{Settling, reconcile_twice}
use ptp_operator_upstream.Controllers.PtpConfigController.Texts.{node_names}
use ptp_operator_upstream.Controllers.PtpConfigController.Synced.{
  IsSynced, IsReconciled, reconcile-IsReconciled,
}
use ptp_operator_upstream.Controllers.PtpConfigController.Failed.{
  ReconcileWriteFailed, reconcile-fail,
}

-- The names of the profiles, in place of their JSON text.
abbrev names_text : List PtpProfile → Text
names_text [] = []
names_text (p ∷ ps) = name_of p ++ names_text ps

abbrev names_only : List PtpProfile → Result Text Text
names_only ps = ok (names_text ps)

-- A cluster with one node, whose state is the data of the config map.
abbrev one_node : List PtpConfig → Cluster (GoMap Text) (GoMap Text) Text
one_node cs = record {
  list_configs = λ state. items cs;
  list_nodes = λ state. ok (worker ∷ []);
  get_map = λ state. ok state;
  set_data = λ entries cm. entries;
  update_map = λ state cm. (cm, none);
}

run_reconcile :
    reconcile (one_node configs) names_only insertion_order by_insertion []
    ≡ ret ((codes "worker-0", codes "bcslave") ∷ [], none)
unfolding reconcile reconcile_configs reconcile_nodes sync_ptp_config sync_nodes store_data
    node_data marshal_profiles get_recommend_node_ptp_profiles get_recommend_profiles
    get_recommend_profiles_names recommend_loop recommend_round choose node_matches rule_matches
    points_to all_recommend priority_less insertion_sort lt_ℤ eq_ℤ is_name_in all_profiles
    filter_profiles sort_by_name same before lookup put
run_reconcile = refl

one_name :
    (nodes : List Node)
    → Path (Result Text (List Node)) (ok (worker ∷ [])) (ok nodes)
    → Distinct (node_names nodes)
one_name nodes h =
    subst (λ l. Distinct (node_names l)) (ok-injective (worker ∷ []) nodes h) ((λ x. x), tt)

reconcile-IsReconciled_example :
    IsReconciled
      (one_node configs)
      names_only
      insertion_order
      by_insertion
      []
      ((codes "worker-0", codes "bcslave") ∷ [])
      (items configs)
reconcile-IsReconciled_example =
    reconcile-IsReconciled (one_node configs) names_only insertion_order by_insertion []
      ((codes "worker-0", codes "bcslave") ∷ []) one_name run_reconcile

run_lacking :
    reconcile (one_node lacking) names_only insertion_order by_insertion []
    ≡ ret ([], some (not_synced not_recommended))
unfolding reconcile reconcile_configs reconcile_nodes sync_ptp_config sync_nodes store_data
    node_data marshal_profiles get_recommend_node_ptp_profiles get_recommend_profiles
    get_recommend_profiles_names recommend_loop recommend_round choose node_matches rule_matches
    points_to all_recommend priority_less insertion_sort lt_ℤ eq_ℤ is_name_in all_profiles
    filter_profiles sort_by_name same before lookup put
run_lacking = refl

reconcile-fail_example :
    (Path (GoMap Text) [] [])
    ⊎ ReconcileWriteFailed
        (one_node lacking)
        names_only
        insertion_order
        by_insertion
        []
        (not_synced not_recommended)
        []
reconcile-fail_example =
    reconcile-fail (one_node lacking) names_only insertion_order by_insertion [] []
      (not_synced not_recommended) run_lacking

HasText-reconcile_example :
    (state' : GoMap Text) × (reconcile (one_node configs) names_only insertion_order by_insertion []
      ≡ ret (state', none))
    × IsSynced
        (one_node configs)
        names_only
        insertion_order
        by_insertion
        []
        configs
        (worker ∷ [])
        state'
HasText-reconcile_example =
    HasText-reconcile (one_node configs) names_only insertion_order by_insertion [] configs
      (worker ∷ []) [] refl refl ((λ x. x), tt) ((codes "bcslave", (_, run_configs, refl)), tt) refl
      (λ entries texts. (entries, refl))

one_node-Settling : Settling (one_node configs)
one_node-Settling = record {
  set_data_twice = λ entries c. refl;
  update_stores = λ s s' c h. ap ok (sym (ap (λ p. p.0) h));
  update_keeps = λ s s' c h. (refl, refl);
  update_same = λ s c h. ap (λ x. (x, none)) (sym (ok-injective s c h));
}

reconcile_twice_example :
    reconcile
      (one_node configs)
      names_only
      reverse_order
      by_insertion
      ((codes "worker-0", codes "bcslave") ∷ [])
    ≡ ret ((codes "worker-0", codes "bcslave") ∷ [], none)
reconcile_twice_example =
    reconcile_twice (one_node configs) names_only insertion_order reverse_order by_insertion
      by_insertion one_node-Settling [] ((codes "worker-0", codes "bcslave") ∷ []) run_reconcile

get_recommend_profiles_any_order_example :
    get_recommend_profiles insertion_order by_insertion configs worker
    ≡ get_recommend_profiles reverse_order by_insertion configs worker
get_recommend_profiles_any_order_example =
    get_recommend_profiles_any_order insertion_order reverse_order by_insertion by_insertion configs
      worker
