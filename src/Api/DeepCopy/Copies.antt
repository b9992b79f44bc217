-- ===== src/Api/DeepCopy/Copies.antt =====
-- What the generated code of api/v1/zz_generated.deepcopy.go repeats for fields of the same type. A copy
-- of a structure starts from `*out = *in` and then replaces each field that leads to other memory.
pub mod Device
pub mod Profile
pub mod Config
pub mod Operator
use ptp_operator_upstream.Base.{ℕ, Option, none, some, List, [], ◌∷◌}
use ptp_operator_upstream.Base.GoMap.{GoMap}
use ptp_operator_upstream.Api.DeepCopy.Memory.{
  M, pure, ◌>>=◌, ◌>>◌, copy_pointer, copy_elements, copy_entries, copy_slice,
}
use ptp_operator_upstream.Api.DeepCopy.Types.{
  Pointer, Vendored, HwConfigStruct, MatchRuleStruct, NodeMatchListStruct, NodePtpDeviceStruct,
  NodePtpDeviceListStruct, NodePtpDeviceSpec, NodePtpDeviceStatusStruct, PtpConfigStruct,
  PtpConfigListStruct, PtpConfigSpecStruct, PtpConfigStatusStruct, PtpDevice,
  PtpOperatorConfigStruct, PtpOperatorConfigListStruct, PtpOperatorConfigSpecStruct,
  PtpOperatorConfigStatus, PtpProfileStruct, PtpRecommendStruct,
}
use ptp_operator_upstream.Api.DeepCopy.Cells.{
  Cell, text_kind, int_kind, json_kind, text_map_kind, pointer_map_kind, pointer_kind,
  ptp_device_slice_kind, hw_config_slice_kind, node_match_list_slice_kind,
  node_ptp_device_slice_kind, match_rule_slice_kind, ptp_profile_slice_kind,
  ptp_recommend_slice_kind, ptp_config_slice_kind, ptp_operator_config_slice_kind,
}
use ptp_operator_upstream.Api.DeepCopy.Cells.Structs.{
  hw_config_kind, match_rule_kind, node_match_list_kind, node_ptp_device_kind,
  node_ptp_device_list_kind, node_ptp_device_spec_kind, node_ptp_device_status_kind,
  ptp_clock_threshold_kind, ptp_config_kind, ptp_config_list_kind, ptp_config_spec_kind,
  ptp_config_status_kind, ptp_device_kind, ptp_event_config_kind, ptp_operator_config_kind,
  ptp_operator_config_list_kind, ptp_operator_config_spec_kind, ptp_operator_config_status_kind,
  ptp_profile_kind, ptp_recommend_kind,
}

-- The deep copies of the vendored libraries, each from a structure to the one that it fills.
pub record VendoredCopies (v : Vendored) : Type 0 where
  pub json_deep_copy_into : v.json → M (Cell v) v.json
  pub object_meta_deep_copy_into : v.object_meta → M (Cell v) v.object_meta
  pub list_meta_deep_copy_into : v.list_meta → M (Cell v) v.list_meta

-- `*out = new(string); **out = **in`.
unfoldable pub copy_text : {v : Vendored} → Pointer → M (Cell v) Pointer
unfolding copy_pointer
copy_text = copy_pointer text_kind (λ a. a) pure

unfoldable pub copy_int : {v : Vendored} → Pointer → M (Cell v) Pointer
unfolding copy_pointer
copy_int = copy_pointer int_kind (λ a. a) pure

unfoldable pub copy_ptp_clock_threshold : {v : Vendored} → Pointer → M (Cell v) Pointer
unfolding copy_pointer
copy_ptp_clock_threshold = copy_pointer ptp_clock_threshold_kind (λ a. a) pure

unfoldable pub copy_ptp_event_config : {v : Vendored} → Pointer → M (Cell v) Pointer
unfolding copy_pointer
copy_ptp_event_config = copy_pointer ptp_event_config_kind (λ a. a) pure

unfoldable pub copy_json : {v : Vendored} → VendoredCopies v → Pointer → M (Cell v) Pointer
unfolding copy_pointer
copy_json k = copy_pointer json_kind (λ a. a) k.json_deep_copy_into

-- `*out = make(map[string]string, len(*in))`, and a loop over the entries.
unfoldable pub copy_text_map : {v : Vendored} → Pointer → M (Cell v) Pointer
unfolding copy_pointer copy_entries
copy_text_map = copy_pointer text_map_kind (λ m. []) (copy_entries pure [])

-- The same for a map of JSON pointers, each of which may be nil.
unfoldable pub copy_json_map : {v : Vendored} → VendoredCopies v → Pointer → M (Cell v) Pointer
unfolding copy_pointer copy_entries copy_json
copy_json_map k = copy_pointer pointer_map_kind (λ m. []) (copy_entries (copy_json k) [])

-- `*out = new(map[string]*JSON)`, and the map if it is not nil.
unfoldable pub copy_json_map_pointer :
    {v : Vendored} → VendoredCopies v → Pointer → M (Cell v) Pointer
unfolding copy_pointer copy_json_map
copy_json_map_pointer k = copy_pointer pointer_kind (λ m. none) (copy_json_map k)

-- `if c := in.DeepCopy(); c != nil { return c }; return nil`: a nil pointer becomes a nil interface.
pub data RuntimeObject : Type 0 where
  nil_object : RuntimeObject
  object : ℕ → RuntimeObject

unfoldable pub as_object : Pointer → RuntimeObject
as_object none = nil_object
as_object (some p) = object p
