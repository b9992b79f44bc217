-- ===== src/Api/DeepCopy/Copies/Device.antt =====
-- The generated copies of NodePtpDevice and of the structures in it, of api/v1/zz_generated.deepcopy.go.
use ptp_operator_upstream.Api.DeepCopy.Memory.{M, pure, ◌>>=◌, copy_pointer, copy_slice}
use ptp_operator_upstream.Api.DeepCopy.Types.{
  Pointer, Vendored, HwConfigStruct, NodePtpDeviceStruct, NodePtpDeviceListStruct,
  NodePtpDeviceStatusStruct,
}
use ptp_operator_upstream.Api.DeepCopy.Cells.{
  Cell, ptp_device_slice_kind, hw_config_slice_kind, node_ptp_device_slice_kind,
}
use ptp_operator_upstream.Api.DeepCopy.Cells.Structs.{
  hw_config_kind, node_ptp_device_kind, node_ptp_device_list_kind, node_ptp_device_spec_kind,
  node_ptp_device_status_kind, ptp_device_kind,
}
use ptp_operator_upstream.Api.DeepCopy.Copies.{VendoredCopies, copy_json, RuntimeObject, as_object}

unfoldable node_ptp_device_spec_deep_copy : {v : Vendored} → Pointer → M (Cell v) Pointer
unfolding copy_pointer
node_ptp_device_spec_deep_copy = copy_pointer node_ptp_device_spec_kind (λ s. s) pure

unfoldable ptp_device_deep_copy : {v : Vendored} → Pointer → M (Cell v) Pointer
unfolding copy_pointer
ptp_device_deep_copy = copy_pointer ptp_device_kind (λ s. s) pure

unfoldable pub hw_config_deep_copy_into :
    {v : Vendored} → VendoredCopies v → HwConfigStruct → M (Cell v) HwConfigStruct
unfolding copy_json
hw_config_deep_copy_into k s = do
  config' ← copy_json k s.config
  pure (record {
    device_id = s.device_id;
    vendor_id = s.vendor_id;
    failed = s.failed;
    status = s.status;
    config = config';
  })

unfoldable hw_config_deep_copy : {v : Vendored} → VendoredCopies v → Pointer → M (Cell v) Pointer
unfolding copy_pointer hw_config_deep_copy_into
hw_config_deep_copy k = copy_pointer hw_config_kind (λ s. s) (hw_config_deep_copy_into k)

unfoldable pub node_ptp_device_status_deep_copy_into :
    {v : Vendored}
    → VendoredCopies v
    → NodePtpDeviceStatusStruct
    → M (Cell v) NodePtpDeviceStatusStruct
unfolding copy_slice hw_config_deep_copy_into
node_ptp_device_status_deep_copy_into k s = do
  devices' ← copy_slice ptp_device_slice_kind pure s.devices
  hwconfig' ← copy_slice hw_config_slice_kind (hw_config_deep_copy_into k) s.hwconfig
  pure (record { devices = devices'; hwconfig = hwconfig' })

unfoldable node_ptp_device_status_deep_copy :
    {v : Vendored} → VendoredCopies v → Pointer → M (Cell v) Pointer
unfolding copy_pointer node_ptp_device_status_deep_copy_into
node_ptp_device_status_deep_copy k =
    copy_pointer node_ptp_device_status_kind (λ s. s) (node_ptp_device_status_deep_copy_into k)

unfoldable pub node_ptp_device_deep_copy_into :
    {v : Vendored} → VendoredCopies v → NodePtpDeviceStruct v → M (Cell v) (NodePtpDeviceStruct v)
unfolding node_ptp_device_status_deep_copy_into
node_ptp_device_deep_copy_into k s = do
  object_meta' ← k.object_meta_deep_copy_into s.object_meta
  status' ← node_ptp_device_status_deep_copy_into k s.status
  pure (record {
    type_meta = s.type_meta;
    object_meta = object_meta';
    spec = s.spec;
    status = status';
  })

unfoldable pub node_ptp_device_deep_copy :
    {v : Vendored} → VendoredCopies v → Pointer → M (Cell v) Pointer
unfolding copy_pointer node_ptp_device_deep_copy_into
node_ptp_device_deep_copy k =
    copy_pointer node_ptp_device_kind (λ s. s) (node_ptp_device_deep_copy_into k)

unfoldable pub node_ptp_device_deep_copy_object :
    {v : Vendored} → VendoredCopies v → Pointer → M (Cell v) RuntimeObject
unfolding node_ptp_device_deep_copy as_object
node_ptp_device_deep_copy_object k p = do c ← node_ptp_device_deep_copy k p; pure (as_object c)

unfoldable pub node_ptp_device_list_deep_copy_into :
    {v : Vendored}
    → VendoredCopies v
    → NodePtpDeviceListStruct v
    → M (Cell v) (NodePtpDeviceListStruct v)
unfolding copy_slice node_ptp_device_deep_copy_into
node_ptp_device_list_deep_copy_into k s = do
  list_meta' ← k.list_meta_deep_copy_into s.list_meta
  items' ← copy_slice node_ptp_device_slice_kind (node_ptp_device_deep_copy_into k) s.items
  pure (record { type_meta = s.type_meta; list_meta = list_meta'; items = items' })

unfoldable pub node_ptp_device_list_deep_copy :
    {v : Vendored} → VendoredCopies v → Pointer → M (Cell v) Pointer
unfolding copy_pointer node_ptp_device_list_deep_copy_into
node_ptp_device_list_deep_copy k =
    copy_pointer node_ptp_device_list_kind (λ s. s) (node_ptp_device_list_deep_copy_into k)

unfoldable pub node_ptp_device_list_deep_copy_object :
    {v : Vendored} → VendoredCopies v → Pointer → M (Cell v) RuntimeObject
unfolding node_ptp_device_list_deep_copy as_object
node_ptp_device_list_deep_copy_object k p = do
  c ← node_ptp_device_list_deep_copy k p
  pure (as_object c)
