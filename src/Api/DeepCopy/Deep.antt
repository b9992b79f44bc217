-- ===== src/Api/DeepCopy/Deep.antt =====
-- The repeated copies of api/v1/zz_generated.deepcopy.go are deep, if those of the vendored libraries are.
pub mod Device
pub mod Profile
pub mod Recommend
pub mod Config
pub mod Operator
pub mod Apart
pub mod DeviceApart
pub mod ConfigApart
pub mod OperatorApart
use ptp_operator_upstream.Base.{ℕ, Option, none, some, List, [], ◌∷◌, ◌≡◌, refl}
use ptp_operator_upstream.Base.Text.{Text}
use ptp_operator_upstream.Base.GoMap.{GoMap}
use ptp_operator_upstream.Api.DeepCopy.Memory.{
  Cells, Heap, M, pure, ◌>>=◌, copy_elements, copy_pointer, copy_entries, copy_slice,
}
use ptp_operator_upstream.Api.DeepCopy.Memory.Rules.{
  Rel, IsStable, IsCopy, IsDeepCopy, returned, field, Returns-map,
}
use ptp_operator_upstream.Api.DeepCopy.Memory.Pointers.{PointerRel, copy_pointer-IsDeepCopy}
use ptp_operator_upstream.Api.DeepCopy.Memory.Elements.{
  PlainRel, pure-IsDeepCopy, ElementsRel, copy_elements-IsDeepCopy, SliceRel, copy_slice-IsDeepCopy,
}
use ptp_operator_upstream.Api.DeepCopy.Memory.Entries.{MapRel, copy_entries-IsDeepCopy}
use ptp_operator_upstream.Api.DeepCopy.Types.{
  Pointer, Vendored, HwConfigStruct, MatchRuleStruct, NodeMatchListStruct, NodePtpDeviceStruct,
  NodePtpDeviceListStruct, NodePtpDeviceSpec, NodePtpDeviceStatusStruct, PtpConfigStruct,
  PtpConfigListStruct, PtpConfigSpecStruct, PtpConfigStatusStruct, PtpDevice,
  PtpOperatorConfigStruct, PtpOperatorConfigListStruct, PtpOperatorConfigSpecStruct,
  PtpOperatorConfigStatus, PtpProfileStruct, PtpRecommendStruct,
}
use ptp_operator_upstream.Api.DeepCopy.Cells.{
  Cell, text_kind, int_kind, json_kind, text_map_kind, pointer_map_kind, pointer_kind,
  ptp_device_slice_kind, hw_config_slice_kind, node_match_list_slice_kind,
  node_ptp_device_slice_kind, match_rule_slice_kind, ptp_profile_slice_kind,
  ptp_recommend_slice_kind, ptp_config_slice_kind, ptp_operator_config_slice_kind,
}
use ptp_operator_upstream.Api.DeepCopy.Cells.Structs.{
  hw_config_kind, match_rule_kind, node_match_list_kind, node_ptp_device_kind,
  node_ptp_device_list_kind, node_ptp_device_spec_kind, node_ptp_device_status_kind,
  ptp_clock_threshold_kind, ptp_config_kind, ptp_config_list_kind, ptp_config_spec_kind,
  ptp_config_status_kind, ptp_device_kind, ptp_event_config_kind, ptp_operator_config_kind,
  ptp_operator_config_list_kind, ptp_operator_config_spec_kind, ptp_operator_config_status_kind,
  ptp_profile_kind, ptp_recommend_kind,
}
use ptp_operator_upstream.Api.DeepCopy.Copies.{
  VendoredCopies, copy_text, copy_int, copy_ptp_clock_threshold, copy_ptp_event_config, copy_json,
  copy_text_map, copy_json_map, copy_json_map_pointer, RuntimeObject, as_object,
}

-- What the vendored copies are relied on for: each has a relation of equal content, for which it is deep.
pub record VendoredLaws (v : Vendored) (k : VendoredCopies v) : Type 1 where
  pub json_rel : Rel (Cell v) v.json
  pub json_deep : IsDeepCopy json_rel k.json_deep_copy_into
  pub object_meta_rel : Rel (Cell v) v.object_meta
  pub object_meta_deep : IsDeepCopy object_meta_rel k.object_meta_deep_copy_into
  pub list_meta_rel : Rel (Cell v) v.list_meta
  pub list_meta_deep : IsDeepCopy list_meta_rel k.list_meta_deep_copy_into

abbrev pub TextRel : {v : Vendored} → Rel (Cell v) Pointer
TextRel = PointerRel text_kind PlainRel

pub copy_text-IsDeepCopy : {v : Vendored} → IsDeepCopy (TextRel {v = v}) copy_text
unfolding copy_text
copy_text-IsDeepCopy = copy_pointer-IsDeepCopy text_kind (λ a. a) pure PlainRel pure-IsDeepCopy

abbrev pub IntRel : {v : Vendored} → Rel (Cell v) Pointer
IntRel = PointerRel int_kind PlainRel

pub copy_int-IsDeepCopy : {v : Vendored} → IsDeepCopy (IntRel {v = v}) copy_int
unfolding copy_int
copy_int-IsDeepCopy = copy_pointer-IsDeepCopy int_kind (λ a. a) pure PlainRel pure-IsDeepCopy

abbrev pub PtpClockThresholdPointerRel : {v : Vendored} → Rel (Cell v) Pointer
PtpClockThresholdPointerRel = PointerRel ptp_clock_threshold_kind PlainRel

pub copy_ptp_clock_threshold-IsDeepCopy :
    {v : Vendored} → IsDeepCopy (PtpClockThresholdPointerRel {v = v}) copy_ptp_clock_threshold
unfolding copy_ptp_clock_threshold
copy_ptp_clock_threshold-IsDeepCopy =
    copy_pointer-IsDeepCopy ptp_clock_threshold_kind (λ a. a) pure PlainRel pure-IsDeepCopy

abbrev pub PtpEventConfigPointerRel : {v : Vendored} → Rel (Cell v) Pointer
PtpEventConfigPointerRel = PointerRel ptp_event_config_kind PlainRel

pub copy_ptp_event_config-IsDeepCopy :
    {v : Vendored} → IsDeepCopy (PtpEventConfigPointerRel {v = v}) copy_ptp_event_config
unfolding copy_ptp_event_config
copy_ptp_event_config-IsDeepCopy =
    copy_pointer-IsDeepCopy ptp_event_config_kind (λ a. a) pure PlainRel pure-IsDeepCopy

abbrev pub JsonRel : {v : Vendored} {k : VendoredCopies v} → VendoredLaws v k → Rel (Cell v) Pointer
JsonRel l = PointerRel json_kind l.json_rel

pub copy_json-IsDeepCopy :
    {v : Vendored} {k : VendoredCopies v} (l : VendoredLaws v k)
    → IsDeepCopy (JsonRel l) (copy_json k)
unfolding copy_json
copy_json-IsDeepCopy {k = k} l =
    copy_pointer-IsDeepCopy json_kind (λ a. a) k.json_deep_copy_into l.json_rel l.json_deep

abbrev pub TextMapRel : {v : Vendored} → Rel (Cell v) Pointer
TextMapRel = PointerRel text_map_kind (MapRel PlainRel)

pub copy_text_map-IsDeepCopy : {v : Vendored} → IsDeepCopy (TextMapRel {v = v}) copy_text_map
unfolding copy_text_map
copy_text_map-IsDeepCopy =
    copy_pointer-IsDeepCopy text_map_kind (λ m. []) (copy_entries pure []) (MapRel PlainRel)
      (copy_entries-IsDeepCopy pure PlainRel pure-IsDeepCopy)

abbrev pub JsonMapRel :
    {v : Vendored} {k : VendoredCopies v} → VendoredLaws v k → Rel (Cell v) Pointer
JsonMapRel l = PointerRel pointer_map_kind (MapRel (JsonRel l))

pub copy_json_map-IsDeepCopy :
    {v : Vendored} {k : VendoredCopies v} (l : VendoredLaws v k)
    → IsDeepCopy (JsonMapRel l) (copy_json_map k)
unfolding copy_json_map
copy_json_map-IsDeepCopy {k = k} l =
    copy_pointer-IsDeepCopy pointer_map_kind (λ m. []) (copy_entries (copy_json k) [])
      (MapRel (JsonRel l))
      (copy_entries-IsDeepCopy (copy_json k) (JsonRel l) (copy_json-IsDeepCopy l))

abbrev pub JsonMapPointerRel :
    {v : Vendored} {k : VendoredCopies v} → VendoredLaws v k → Rel (Cell v) Pointer
JsonMapPointerRel l = PointerRel pointer_kind (JsonMapRel l)

pub copy_json_map_pointer-IsDeepCopy :
    {v : Vendored} {k : VendoredCopies v} (l : VendoredLaws v k)
    → IsDeepCopy (JsonMapPointerRel l) (copy_json_map_pointer k)
unfolding copy_json_map_pointer
copy_json_map_pointer-IsDeepCopy {k = k} l =
    copy_pointer-IsDeepCopy pointer_kind (λ m. none) (copy_json_map k) (JsonMapRel l)
      (copy_json_map-IsDeepCopy l)
