-- ===== src/Clients/Fakes.antt =====
-- The generated fake clients of pkg/client/clientset/versioned/typed/ptp/v1/fake, which hand an action
-- to the tracker of package testing: fake_nodeptpdevice.go, fake_ptpconfig.go and
-- fake_ptpoperatorconfig.go.
use ptp_operator_upstream.Base.{Bool, true, Option, none, some, List, [], ◌∷◌, if◌then◌else◌}
use ptp_operator_upstream.Base.Text.{Text, codes}
use ptp_operator_upstream.Clients.Types.{
  OptionTypes, GroupVersionResource, GroupVersionKind, Action, new_get_action, new_list_action,
  new_watch_action, new_create_action, new_update_action, new_update_subresource_action,
  new_delete_action, new_delete_collection_action, new_patch_subresource_action, ResourceClient,
}

abbrev pub group_version_resource : Text → GroupVersionResource
group_version_resource resource = record {
  group = codes "ptp.openshift.io";
  version = codes "v1";
  resource = resource;
}

abbrev pub group_version_kind : Text → GroupVersionKind
group_version_kind kind = record {
  group = codes "ptp.openshift.io";
  version = codes "v1";
  kind = kind;
}

module _ {v : OptionTypes} {O : Type 0} (r : GroupVersionResource) (k : GroupVersionKind)
    (ns : Text) where
  -- The fakes pass on no options but those of a list.
  unfoldable pub fake_client : ResourceClient v O (Action v O)
  fake_client = record {
    get_object = λ name options. new_get_action r ns name;
    list_objects = λ opts. new_list_action r k ns opts;
    watch_objects = λ opts. new_watch_action r ns opts;
    create_object = λ object opts. new_create_action r ns object;
    update_object = λ object opts. new_update_action r ns object;
    update_status = λ object opts. new_update_subresource_action r (codes "status") ns object;
    delete_object = λ name opts. new_delete_action r ns name;
    delete_collection = λ opts list_opts. new_delete_collection_action r ns list_opts;
    patch_object = λ name pt bytes opts subresources.
        new_patch_subresource_action r ns name pt bytes subresources;
  }

module _ {v : OptionTypes} {O : Type 0} where
  unfoldable fake_node_ptp_devices : Text → ResourceClient v O (Action v O)
  unfolding fake_client
  fake_node_ptp_devices =
      fake_client (group_version_resource (codes "nodeptpdevices"))
        (group_version_kind (codes "NodePtpDevice"))

  unfoldable pub fake_ptp_configs : Text → ResourceClient v O (Action v O)
  unfolding fake_client
  fake_ptp_configs =
      fake_client (group_version_resource (codes "ptpconfigs"))
        (group_version_kind (codes "PtpConfig"))

  unfoldable fake_ptp_operator_configs : Text → ResourceClient v O (Action v O)
  unfolding fake_client
  fake_ptp_operator_configs =
      fake_client (group_version_resource (codes "ptpoperatorconfigs"))
        (group_version_kind (codes "PtpOperatorConfig"))

-- A list of objects of a type `O`, with its metadata `L`.
pub record ObjectList (L O : Type 0) : Type 0 where
  pub list_meta : L
  pub items : List O

module _ {O : Type 0} (matches : O → Bool) where
  unfoldable pub matching : List O → List O
  matching [] = []
  matching (item ∷ items) = let rest = matching items in if matches item then item ∷ rest else rest

-- What `List` of a fake returns, from the object that the tracker gives and the label selector of the
-- options, if there is one.
module _ {L O E S : Type 0} (selects : S → O → Bool) where
  unfoldable pub list_result :
      Option S → Option (ObjectList L O) × Option E → Option (ObjectList L O) × Option E
  unfolding matching
  list_result label (none, err) = (none, err)
  list_result none (some obj, err) =
      (some (record { list_meta = obj.list_meta; items = matching (λ item. true) obj.items }), err)
  list_result (some label) (some obj, err) =
      (some (record { list_meta = obj.list_meta; items = matching (selects label) obj.items }), err)

-- What the other methods return: the tracker's object, or nil, and its error.
module _ {O E : Type 0} where
  unfoldable object_result : Option O × Option E → Option O × Option E
  object_result (none, err) = (none, err)
  object_result (some obj, err) = (some obj, err)
