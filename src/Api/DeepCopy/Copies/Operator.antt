-- ===== src/Api/DeepCopy/Copies/Operator.antt =====
-- The generated copies of PtpOperatorConfig and of the structures in it, of api/v1/zz_generated.deepcopy.go.
use ptp_operator_upstream.Api.DeepCopy.Memory.{M, pure, ◌>>=◌, copy_pointer, copy_slice}
use ptp_operator_upstream.Api.DeepCopy.Types.{
  Pointer, Vendored, PtpOperatorConfigStruct, PtpOperatorConfigListStruct,
  PtpOperatorConfigSpecStruct,
}
use ptp_operator_upstream.Api.DeepCopy.Cells.{Cell, ptp_operator_config_slice_kind}
use ptp_operator_upstream.Api.DeepCopy.Cells.Structs.{
  ptp_event_config_kind, ptp_operator_config_kind, ptp_operator_config_list_kind,
  ptp_operator_config_spec_kind, ptp_operator_config_status_kind,
}
use ptp_operator_upstream.Api.DeepCopy.Copies.{
  VendoredCopies, copy_ptp_event_config, copy_text_map, copy_json_map_pointer, RuntimeObject,
  as_object,
}

unfoldable ptp_event_config_deep_copy : {v : Vendored} → Pointer → M (Cell v) Pointer
unfolding copy_pointer
ptp_event_config_deep_copy = copy_pointer ptp_event_config_kind (λ s. s) pure

unfoldable ptp_operator_config_status_deep_copy : {v : Vendored} → Pointer → M (Cell v) Pointer
unfolding copy_pointer
ptp_operator_config_status_deep_copy = copy_pointer ptp_operator_config_status_kind (λ s. s) pure

unfoldable pub ptp_operator_config_spec_deep_copy_into :
    {v : Vendored}
    → VendoredCopies v
    → PtpOperatorConfigSpecStruct
    → M (Cell v) PtpOperatorConfigSpecStruct
unfolding copy_json_map_pointer copy_ptp_event_config copy_text_map
ptp_operator_config_spec_deep_copy_into k s = do
  daemon_node_selector' ← copy_text_map s.daemon_node_selector
  event_config' ← copy_ptp_event_config s.event_config
  enabled_plugins' ← copy_json_map_pointer k s.enabled_plugins
  pure (record {
    daemon_node_selector = daemon_node_selector';
    event_config = event_config';
    enabled_plugins = enabled_plugins';
  })

unfoldable ptp_operator_config_spec_deep_copy :
    {v : Vendored} → VendoredCopies v → Pointer → M (Cell v) Pointer
unfolding copy_pointer ptp_operator_config_spec_deep_copy_into
ptp_operator_config_spec_deep_copy k =
    copy_pointer ptp_operator_config_spec_kind (λ s. s) (ptp_operator_config_spec_deep_copy_into k)

unfoldable pub ptp_operator_config_deep_copy_into :
    {v : Vendored}
    → VendoredCopies v
    → PtpOperatorConfigStruct v
    → M (Cell v) (PtpOperatorConfigStruct v)
unfolding ptp_operator_config_spec_deep_copy_into
ptp_operator_config_deep_copy_into k s = do
  object_meta' ← k.object_meta_deep_copy_into s.object_meta
  spec' ← ptp_operator_config_spec_deep_copy_into k s.spec
  pure (record {
    type_meta = s.type_meta;
    object_meta = object_meta';
    spec = spec';
    status = s.status;
  })

unfoldable pub ptp_operator_config_deep_copy :
    {v : Vendored} → VendoredCopies v → Pointer → M (Cell v) Pointer
unfolding copy_pointer ptp_operator_config_deep_copy_into
ptp_operator_config_deep_copy k =
    copy_pointer ptp_operator_config_kind (λ s. s) (ptp_operator_config_deep_copy_into k)

unfoldable pub ptp_operator_config_deep_copy_object :
    {v : Vendored} → VendoredCopies v → Pointer → M (Cell v) RuntimeObject
unfolding ptp_operator_config_deep_copy as_object
ptp_operator_config_deep_copy_object k p = do
  c ← ptp_operator_config_deep_copy k p
  pure (as_object c)

unfoldable pub ptp_operator_config_list_deep_copy_into :
    {v : Vendored}
    → VendoredCopies v
    → PtpOperatorConfigListStruct v
    → M (Cell v) (PtpOperatorConfigListStruct v)
unfolding copy_slice ptp_operator_config_deep_copy_into
ptp_operator_config_list_deep_copy_into k s = do
  list_meta' ← k.list_meta_deep_copy_into s.list_meta
  items' ← copy_slice ptp_operator_config_slice_kind (ptp_operator_config_deep_copy_into k) s.items
  pure (record { type_meta = s.type_meta; list_meta = list_meta'; items = items' })

unfoldable pub ptp_operator_config_list_deep_copy :
    {v : Vendored} → VendoredCopies v → Pointer → M (Cell v) Pointer
unfolding copy_pointer ptp_operator_config_list_deep_copy_into
ptp_operator_config_list_deep_copy k =
    copy_pointer ptp_operator_config_list_kind (λ s. s) (ptp_operator_config_list_deep_copy_into k)

unfoldable pub ptp_operator_config_list_deep_copy_object :
    {v : Vendored} → VendoredCopies v → Pointer → M (Cell v) RuntimeObject
unfolding ptp_operator_config_list_deep_copy as_object
ptp_operator_config_list_deep_copy_object k p = do
  c ← ptp_operator_config_list_deep_copy k p
  pure (as_object c)
