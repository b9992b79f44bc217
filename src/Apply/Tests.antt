-- ===== src/Apply/Tests.antt =====
-- Runs of package pkg/apply on small objects, and its theorems at them.
use ptp_operator_upstream.Base.{
  false, Bool, Option, none, some, [], ◌∷◌, ◌≡◌, refl, sym, ap, subst, ok, ok-injective, arith,
}
use ptp_operator_upstream.Base.Int.{pos}
use ptp_operator_upstream.Base.Text.{Text, codes, same}
use ptp_operator_upstream.Base.GoMap.{lookup, put, insertion_order}
use ptp_operator_upstream.Base.Distinct.{Distinct}
use ptp_operator_upstream.Apply.Unstructured.{found, absent, View, Unstructured}
use ptp_operator_upstream.Apply.Merge.{
  overlay, merge_annotations, merge_labels, copy_read_only, merge_metadata_for_update,
  merge_deployment_for_update, copy_cluster_ip, merge_service_for_update,
  merge_service_account_for_update, merge_object_for_update, is_object_supported,
}
use ptp_operator_upstream.Apply.Merge.Kept.{IsMergeOf, merge_object_for_update-IsMergeOf}
use ptp_operator_upstream.Apply.Object.{
  existing, not_found, Client, update_if_changed, create_or_update, apply_object,
}
use ptp_operator_upstream.Apply.Object.Applied.{Stores, Carries, IsApplied, apply_object-IsApplied}

abbrev pub Object : Type 0
Object = View Text Text Text

-- Objects that are their fields.
abbrev pub plain_objects : Unstructured Object Text Text Text
plain_objects = record {
  view = λ o. o;
  set_creation_timestamp = λ x o. record o { creation_timestamp = x };
  set_self_link = λ x o. record o { self_link = x };
  set_generation = λ x o. record o { generation = x };
  set_uid = λ x o. record o { uid = x };
  set_resource_version = λ x o. record o { resource_version = x };
  set_annotations = λ x o. record o { annotations = some x };
  set_labels = λ x o. record o { labels = some x };
  set_cluster_ip = λ x o. ok (record o { cluster_ip = found x });
  set_secrets = λ x o. record o { secrets = found x };
  set_image_pull_secrets = λ x o. record o { image_pull_secrets = found x };
  view-set_creation_timestamp = λ x o. refl;
  view-set_self_link = λ x o. refl;
  view-set_generation = λ x o. refl;
  view-set_uid = λ x o. refl;
  view-set_resource_version = λ x o. refl;
  view-set_annotations = λ x o. refl;
  view-set_labels = λ x o. refl;
  view-set_cluster_ip = λ x o o' h. sym (ok-injective _ o' h);
  view-set_secrets = λ x o. refl;
  view-set_image_pull_secrets = λ x o. refl;
}

abbrev pub daemon : Object
daemon = record {
  gvk = record { group = []; version = codes "v1"; kind = codes "Service" };
  name = codes "d";
  namespace = codes "n";
  creation_timestamp = [];
  self_link = [];
  generation = pos 0;
  uid = [];
  resource_version = [];
  annotations = none;
  labels = some ((codes "a", codes "1") ∷ (codes "b", codes "2") ∷ []);
  cluster_ip = absent;
  secrets = absent;
  image_pull_secrets = absent;
}

abbrev in_cluster : Object
in_cluster = record daemon {
  creation_timestamp = codes "t";
  uid = codes "u";
  generation = pos 4;
  resource_version = codes "9";
  labels = some ((codes "b", codes "0") ∷ (codes "c", codes "3") ∷ []);
  cluster_ip = found (codes "10.0.0.1");
}

abbrev merged_daemon : Object
merged_daemon = record in_cluster {
  annotations = some [];
  labels = some ((codes "b", codes "2") ∷ (codes "c", codes "3") ∷ (codes "a", codes "1") ∷ []);
}

daemon_labels : Distinct (codes "a" ∷ codes "b" ∷ [])
daemon_labels = ((λ h. ground (arith, h)), ((λ h. h), tt))

run_merge :
    merge_object_for_update plain_objects insertion_order in_cluster daemon ≡ ok merged_daemon
unfolding merge_object_for_update merge_service_for_update merge_deployment_for_update
    merge_service_account_for_update merge_metadata_for_update merge_annotations merge_labels
    copy_read_only copy_cluster_ip overlay same lookup put
run_merge = refl

merge_object_for_update-IsMergeOf_example : IsMergeOf in_cluster daemon merged_daemon
merge_object_for_update-IsMergeOf_example =
    merge_object_for_update-IsMergeOf plain_objects insertion_order in_cluster daemon merged_daemon
      tt daemon_labels run_merge

-- A cluster with room for one object.
abbrev slot : Client (Option Object) Object Text
slot = record {
  get = λ s gvk name namespace. elim s [ none ↦ not_found | some o ↦ existing o ];
  create = λ s o. (some o, none);
  update = λ s o. (some o, none);
}

-- A comparison that is never sure.
abbrev pub differ : Object → Object → Bool
differ a b = false

slot-Stores : Stores plain_objects slot differ
slot-Stores = record {
  created = λ s s' o h.
      subst (λ t. (e : Object) × (slot.get t o.gvk o.name o.namespace ≡ existing e) × Carries o e)
        (ap (λ q. q.0) h) (o, refl, ((λ k x e. e), (λ k x e. e)));
  updated = λ s s' o h.
      subst (λ t. (e : Object) × (slot.get t o.gvk o.name o.namespace ≡ existing e) × Carries o e)
        (ap (λ q. q.0) h) (o, refl, ((λ k x e. e), (λ k x e. e)));
  equal = λ o e h. absurd (ground (arith, h));
}

run_apply :
    apply_object plain_objects insertion_order slot differ (some in_cluster) daemon
    ≡ (some merged_daemon, none)
unfolding apply_object create_or_update update_if_changed is_object_supported same
run_apply = rw run_merge refl

apply_object-IsApplied_example :
    IsApplied plain_objects insertion_order slot differ (some merged_daemon) daemon
apply_object-IsApplied_example =
    apply_object-IsApplied plain_objects insertion_order slot differ slot-Stores (some in_cluster)
      (some merged_daemon) daemon (tt, daemon_labels) run_apply
