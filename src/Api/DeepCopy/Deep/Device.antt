-- ===== src/Api/DeepCopy/Deep/Device.antt =====
-- The generated copies of NodePtpDevice and of the structures in it are deep.
use ptp_operator_upstream.Base.{◌≡◌, refl}
use ptp_operator_upstream.Api.DeepCopy.Memory.{pure, copy_slice}
use ptp_operator_upstream.Api.DeepCopy.Memory.Rules.{
  Rel, IsStable, IsCopy, IsDeepCopy, returned, field, Returns-map,
}
use ptp_operator_upstream.Api.DeepCopy.Memory.Elements.{
  PlainRel, pure-IsDeepCopy, SliceRel, copy_slice-IsDeepCopy,
}
use ptp_operator_upstream.Api.DeepCopy.Types.{
  Vendored, HwConfigStruct, NodePtpDeviceStruct, NodePtpDeviceListStruct, NodePtpDeviceStatusStruct,
}
use ptp_operator_upstream.Api.DeepCopy.Cells.{
  Cell, ptp_device_slice_kind, hw_config_slice_kind, node_ptp_device_slice_kind,
}
use ptp_operator_upstream.Api.DeepCopy.Copies.{VendoredCopies, copy_json}
use ptp_operator_upstream.Api.DeepCopy.Copies.Device.{
  hw_config_deep_copy_into, node_ptp_device_status_deep_copy_into, node_ptp_device_deep_copy_into,
  node_ptp_device_list_deep_copy_into,
}
use ptp_operator_upstream.Api.DeepCopy.Deep.{VendoredLaws, JsonRel, copy_json-IsDeepCopy}

-- The fields of two structures, one by one.
abbrev HwConfigRel :
    {v : Vendored} {k : VendoredCopies v} → VendoredLaws v k → Rel (Cell v) HwConfigStruct
HwConfigRel l b s c s' =
    (s'.device_id ≡ s.device_id)
    × (s'.vendor_id ≡ s.vendor_id)
    × (s'.failed ≡ s.failed)
    × (s'.status ≡ s.status)
    × (JsonRel l b s.config c s'.config)

hw_config_deep_copy_into-IsStable :
    {v : Vendored} {k : VendoredCopies v} (l : VendoredLaws v k) → IsStable (HwConfigRel l)
hw_config_deep_copy_into-IsStable {k = k} l b c d s s' e h =
    (h.0, h.1, h.2, h.3, (copy_json-IsDeepCopy l).0 b c d s.config s'.config e h.4)

hw_config_deep_copy_into-IsCopy :
    {v : Vendored} {k : VendoredCopies v} (l : VendoredLaws v k)
    → IsCopy (HwConfigRel l) (hw_config_deep_copy_into k)
unfolding hw_config_deep_copy_into
hw_config_deep_copy_into-IsCopy {v = v} {k = k} l b n h s r i =
    Returns-map n h (hw_config_deep_copy_into k s) _ (HwConfigRel l b s)
      (field (copy_json k) _ _ (copy_json-IsDeepCopy l) b n h s.config r i.4
        λ config' h0 r0. returned b n h0 _ r0)
      (λ c t q. rw q.2 (refl, refl, refl, refl, q.1))

hw_config_deep_copy_into-IsDeepCopy :
    {v : Vendored} {k : VendoredCopies v} (l : VendoredLaws v k)
    → IsDeepCopy (HwConfigRel l) (hw_config_deep_copy_into k)
hw_config_deep_copy_into-IsDeepCopy l =
    (hw_config_deep_copy_into-IsStable l, hw_config_deep_copy_into-IsCopy l)

-- The fields of two structures, one by one.
abbrev NodePtpDeviceStatusRel :
    {v : Vendored} {k : VendoredCopies v}
    → VendoredLaws v k
    → Rel (Cell v) NodePtpDeviceStatusStruct
NodePtpDeviceStatusRel l b s c s' =
    (SliceRel ptp_device_slice_kind PlainRel b s.devices c s'.devices)
    × (SliceRel hw_config_slice_kind (HwConfigRel l) b s.hwconfig c s'.hwconfig)

node_ptp_device_status_deep_copy_into-IsStable :
    {v : Vendored} {k : VendoredCopies v} (l : VendoredLaws v k)
    → IsStable (NodePtpDeviceStatusRel l)
node_ptp_device_status_deep_copy_into-IsStable {k = k} l b c d s s' e h = (
  (copy_slice-IsDeepCopy ptp_device_slice_kind pure pure-IsDeepCopy).0 b c d s.devices s'.devices e
      h.0,
  (copy_slice-IsDeepCopy hw_config_slice_kind (hw_config_deep_copy_into k)
        (hw_config_deep_copy_into-IsDeepCopy l)).0
      b c d s.hwconfig s'.hwconfig e h.1,
)

node_ptp_device_status_deep_copy_into-IsCopy :
    {v : Vendored} {k : VendoredCopies v} (l : VendoredLaws v k)
    → IsCopy (NodePtpDeviceStatusRel l) (node_ptp_device_status_deep_copy_into k)
unfolding node_ptp_device_status_deep_copy_into
node_ptp_device_status_deep_copy_into-IsCopy {v = v} {k = k} l b n h s r i =
    Returns-map n h (node_ptp_device_status_deep_copy_into k s) _ (NodePtpDeviceStatusRel l b s)
      (field (copy_slice ptp_device_slice_kind pure) _ _
        (copy_slice-IsDeepCopy ptp_device_slice_kind pure pure-IsDeepCopy) b n h s.devices r i.0
        λ devices' h0 r0.
          field (copy_slice hw_config_slice_kind (hw_config_deep_copy_into k)) _ _
            (copy_slice-IsDeepCopy hw_config_slice_kind (hw_config_deep_copy_into k)
              (hw_config_deep_copy_into-IsDeepCopy l))
            b n h0 s.hwconfig r0 i.1 λ hwconfig' h1 r1. returned b n h1 _ r1)
      (λ c t q. rw q.2.2 (q.1, q.2.1))

node_ptp_device_status_deep_copy_into-IsDeepCopy :
    {v : Vendored} {k : VendoredCopies v} (l : VendoredLaws v k)
    → IsDeepCopy (NodePtpDeviceStatusRel l) (node_ptp_device_status_deep_copy_into k)
node_ptp_device_status_deep_copy_into-IsDeepCopy l = (
  node_ptp_device_status_deep_copy_into-IsStable l,
  node_ptp_device_status_deep_copy_into-IsCopy l,
)

-- The fields of two structures, one by one.
abbrev pub NodePtpDeviceRel :
    {v : Vendored} {k : VendoredCopies v} → VendoredLaws v k → Rel (Cell v) (NodePtpDeviceStruct v)
NodePtpDeviceRel l b s c s' =
    (s'.type_meta ≡ s.type_meta)
    × (l.object_meta_rel b s.object_meta c s'.object_meta)
    × (s'.spec ≡ s.spec)
    × (NodePtpDeviceStatusRel l b s.status c s'.status)

node_ptp_device_deep_copy_into-IsStable :
    {v : Vendored} {k : VendoredCopies v} (l : VendoredLaws v k) → IsStable (NodePtpDeviceRel l)
node_ptp_device_deep_copy_into-IsStable {k = k} l b c d s s' e h = (
  h.0,
  l.object_meta_deep.0 b c d s.object_meta s'.object_meta e h.1,
  h.2,
  (node_ptp_device_status_deep_copy_into-IsDeepCopy l).0 b c d s.status s'.status e h.3,
)

node_ptp_device_deep_copy_into-IsCopy :
    {v : Vendored} {k : VendoredCopies v} (l : VendoredLaws v k)
    → IsCopy (NodePtpDeviceRel l) (node_ptp_device_deep_copy_into k)
unfolding node_ptp_device_deep_copy_into
node_ptp_device_deep_copy_into-IsCopy {v = v} {k = k} l b n h s r i =
    Returns-map n h (node_ptp_device_deep_copy_into k s) _ (NodePtpDeviceRel l b s)
      (field k.object_meta_deep_copy_into _ _ l.object_meta_deep b n h s.object_meta r i.1
        λ object_meta' h0 r0.
          field (node_ptp_device_status_deep_copy_into k) _ _
            (node_ptp_device_status_deep_copy_into-IsDeepCopy l) b n h0 s.status r0 i.3
            λ status' h1 r1. returned b n h1 _ r1)
      (λ c t q. rw q.2.2 (refl, q.1, refl, q.2.1))

pub node_ptp_device_deep_copy_into-IsDeepCopy :
    {v : Vendored} {k : VendoredCopies v} (l : VendoredLaws v k)
    → IsDeepCopy (NodePtpDeviceRel l) (node_ptp_device_deep_copy_into k)
node_ptp_device_deep_copy_into-IsDeepCopy l =
    (node_ptp_device_deep_copy_into-IsStable l, node_ptp_device_deep_copy_into-IsCopy l)

-- The fields of two structures, one by one.
abbrev pub NodePtpDeviceListRel :
    {v : Vendored} {k : VendoredCopies v}
    → VendoredLaws v k
    → Rel (Cell v) (NodePtpDeviceListStruct v)
NodePtpDeviceListRel l b s c s' =
    (s'.type_meta ≡ s.type_meta)
    × (l.list_meta_rel b s.list_meta c s'.list_meta)
    × (SliceRel node_ptp_device_slice_kind (NodePtpDeviceRel l) b s.items c s'.items)

node_ptp_device_list_deep_copy_into-IsStable :
    {v : Vendored} {k : VendoredCopies v} (l : VendoredLaws v k) → IsStable (NodePtpDeviceListRel l)
node_ptp_device_list_deep_copy_into-IsStable {k = k} l b c d s s' e h = (
  h.0,
  l.list_meta_deep.0 b c d s.list_meta s'.list_meta e h.1,
  (copy_slice-IsDeepCopy node_ptp_device_slice_kind (node_ptp_device_deep_copy_into k)
        (node_ptp_device_deep_copy_into-IsDeepCopy l)).0
      b c d s.items s'.items e h.2,
)

node_ptp_device_list_deep_copy_into-IsCopy :
    {v : Vendored} {k : VendoredCopies v} (l : VendoredLaws v k)
    → IsCopy (NodePtpDeviceListRel l) (node_ptp_device_list_deep_copy_into k)
unfolding node_ptp_device_list_deep_copy_into
node_ptp_device_list_deep_copy_into-IsCopy {v = v} {k = k} l b n h s r i =
    Returns-map n h (node_ptp_device_list_deep_copy_into k s) _ (NodePtpDeviceListRel l b s)
      (field k.list_meta_deep_copy_into _ _ l.list_meta_deep b n h s.list_meta r i.1
        λ list_meta' h0 r0.
          field (copy_slice node_ptp_device_slice_kind (node_ptp_device_deep_copy_into k)) _ _
            (copy_slice-IsDeepCopy node_ptp_device_slice_kind (node_ptp_device_deep_copy_into k)
              (node_ptp_device_deep_copy_into-IsDeepCopy l))
            b n h0 s.items r0 i.2 λ items' h1 r1. returned b n h1 _ r1)
      (λ c t q. rw q.2.2 (refl, q.1, q.2.1))

pub node_ptp_device_list_deep_copy_into-IsDeepCopy :
    {v : Vendored} {k : VendoredCopies v} (l : VendoredLaws v k)
    → IsDeepCopy (NodePtpDeviceListRel l) (node_ptp_device_list_deep_copy_into k)
node_ptp_device_list_deep_copy_into-IsDeepCopy l =
    (node_ptp_device_list_deep_copy_into-IsStable l, node_ptp_device_list_deep_copy_into-IsCopy l)
