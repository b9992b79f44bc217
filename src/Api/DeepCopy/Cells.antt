-- ===== src/Api/DeepCopy/Cells.antt =====
-- The cells of the memory that the structures of package api/v1 lie in.
pub mod Structs
use ptp_operator_upstream.Base.{Option, none, some, List, refl}
use ptp_operator_upstream.Base.Int.{ℤ}
use ptp_operator_upstream.Base.Text.{Text}
use ptp_operator_upstream.Base.GoMap.{GoMap}
use ptp_operator_upstream.Api.PtpConfig.{PtpClockThreshold}
use ptp_operator_upstream.Api.OperatorConfig.{PtpEventConfig}
use ptp_operator_upstream.Api.DeepCopy.Memory.{Kind}
use ptp_operator_upstream.Api.DeepCopy.Types.{
  Pointer, Vendored, HwConfigStruct, MatchRuleStruct, NodeMatchListStruct, NodePtpDeviceStruct,
  NodePtpDeviceListStruct, NodePtpDeviceSpec, NodePtpDeviceStatusStruct, PtpConfigStruct,
  PtpConfigListStruct, PtpConfigSpecStruct, PtpConfigStatusStruct, PtpDevice,
  PtpOperatorConfigStruct, PtpOperatorConfigListStruct, PtpOperatorConfigSpecStruct,
  PtpOperatorConfigStatus, PtpProfileStruct, PtpRecommendStruct,
}

-- A variable of each type that something points to, and the elements of each kind of slice.
pub data Cell (v : Vendored) : Type 0 where
  text_cell : Text → Cell v
  int_cell : ℤ → Cell v
  json_cell : v.json → Cell v
  text_map_cell : GoMap Text → Cell v
  pointer_map_cell : GoMap Pointer → Cell v
  pointer_cell : Pointer → Cell v
  ptp_device_slice_cell : List PtpDevice → Cell v
  hw_config_slice_cell : List HwConfigStruct → Cell v
  node_match_list_slice_cell : List NodeMatchListStruct → Cell v
  node_ptp_device_slice_cell : List (NodePtpDeviceStruct v) → Cell v
  match_rule_slice_cell : List MatchRuleStruct → Cell v
  ptp_profile_slice_cell : List PtpProfileStruct → Cell v
  ptp_recommend_slice_cell : List PtpRecommendStruct → Cell v
  ptp_config_slice_cell : List (PtpConfigStruct v) → Cell v
  ptp_operator_config_slice_cell : List (PtpOperatorConfigStruct v) → Cell v
  hw_config_cell : HwConfigStruct → Cell v
  match_rule_cell : MatchRuleStruct → Cell v
  node_match_list_cell : NodeMatchListStruct → Cell v
  node_ptp_device_cell : NodePtpDeviceStruct v → Cell v
  node_ptp_device_list_cell : NodePtpDeviceListStruct v → Cell v
  node_ptp_device_spec_cell : NodePtpDeviceSpec → Cell v
  node_ptp_device_status_cell : NodePtpDeviceStatusStruct → Cell v
  ptp_clock_threshold_cell : PtpClockThreshold → Cell v
  ptp_config_cell : PtpConfigStruct v → Cell v
  ptp_config_list_cell : PtpConfigListStruct v → Cell v
  ptp_config_spec_cell : PtpConfigSpecStruct → Cell v
  ptp_config_status_cell : PtpConfigStatusStruct → Cell v
  ptp_device_cell : PtpDevice → Cell v
  ptp_event_config_cell : PtpEventConfig → Cell v
  ptp_operator_config_cell : PtpOperatorConfigStruct v → Cell v
  ptp_operator_config_list_cell : PtpOperatorConfigListStruct v → Cell v
  ptp_operator_config_spec_cell : PtpOperatorConfigSpecStruct → Cell v
  ptp_operator_config_status_cell : PtpOperatorConfigStatus → Cell v
  ptp_profile_cell : PtpProfileStruct → Cell v
  ptp_recommend_cell : PtpRecommendStruct → Cell v

abbrev pub text_kind : {v : Vendored} → Kind (Cell v) Text
text_kind = record {
  to_cell = text_cell;
  of_cell = λ x. elim x [ text_cell a ↦ some a | _ ↦ none ];
  of-to = λ a. refl;
}

abbrev pub int_kind : {v : Vendored} → Kind (Cell v) ℤ
int_kind = record {
  to_cell = int_cell;
  of_cell = λ x. elim x [ int_cell a ↦ some a | _ ↦ none ];
  of-to = λ a. refl;
}

abbrev pub json_kind : {v : Vendored} → Kind (Cell v) v.json
json_kind = record {
  to_cell = json_cell;
  of_cell = λ x. elim x [ json_cell a ↦ some a | _ ↦ none ];
  of-to = λ a. refl;
}

abbrev pub text_map_kind : {v : Vendored} → Kind (Cell v) (GoMap Text)
text_map_kind = record {
  to_cell = text_map_cell;
  of_cell = λ x. elim x [ text_map_cell a ↦ some a | _ ↦ none ];
  of-to = λ a. refl;
}

abbrev pub pointer_map_kind : {v : Vendored} → Kind (Cell v) (GoMap Pointer)
pointer_map_kind = record {
  to_cell = pointer_map_cell;
  of_cell = λ x. elim x [ pointer_map_cell a ↦ some a | _ ↦ none ];
  of-to = λ a. refl;
}

abbrev pub pointer_kind : {v : Vendored} → Kind (Cell v) Pointer
pointer_kind = record {
  to_cell = pointer_cell;
  of_cell = λ x. elim x [ pointer_cell a ↦ some a | _ ↦ none ];
  of-to = λ a. refl;
}

abbrev pub ptp_device_slice_kind : {v : Vendored} → Kind (Cell v) (List PtpDevice)
ptp_device_slice_kind = record {
  to_cell = ptp_device_slice_cell;
  of_cell = λ x. elim x [ ptp_device_slice_cell a ↦ some a | _ ↦ none ];
  of-to = λ a. refl;
}

abbrev pub hw_config_slice_kind : {v : Vendored} → Kind (Cell v) (List HwConfigStruct)
hw_config_slice_kind = record {
  to_cell = hw_config_slice_cell;
  of_cell = λ x. elim x [ hw_config_slice_cell a ↦ some a | _ ↦ none ];
  of-to = λ a. refl;
}

abbrev pub node_match_list_slice_kind : {v : Vendored} → Kind (Cell v) (List NodeMatchListStruct)
node_match_list_slice_kind = record {
  to_cell = node_match_list_slice_cell;
  of_cell = λ x. elim x [ node_match_list_slice_cell a ↦ some a | _ ↦ none ];
  of-to = λ a. refl;
}

abbrev pub node_ptp_device_slice_kind :
    {v : Vendored} → Kind (Cell v) (List (NodePtpDeviceStruct v))
node_ptp_device_slice_kind = record {
  to_cell = node_ptp_device_slice_cell;
  of_cell = λ x. elim x [ node_ptp_device_slice_cell a ↦ some a | _ ↦ none ];
  of-to = λ a. refl;
}

abbrev pub match_rule_slice_kind : {v : Vendored} → Kind (Cell v) (List MatchRuleStruct)
match_rule_slice_kind = record {
  to_cell = match_rule_slice_cell;
  of_cell = λ x. elim x [ match_rule_slice_cell a ↦ some a | _ ↦ none ];
  of-to = λ a. refl;
}

abbrev pub ptp_profile_slice_kind : {v : Vendored} → Kind (Cell v) (List PtpProfileStruct)
ptp_profile_slice_kind = record {
  to_cell = ptp_profile_slice_cell;
  of_cell = λ x. elim x [ ptp_profile_slice_cell a ↦ some a | _ ↦ none ];
  of-to = λ a. refl;
}

abbrev pub ptp_recommend_slice_kind : {v : Vendored} → Kind (Cell v) (List PtpRecommendStruct)
ptp_recommend_slice_kind = record {
  to_cell = ptp_recommend_slice_cell;
  of_cell = λ x. elim x [ ptp_recommend_slice_cell a ↦ some a | _ ↦ none ];
  of-to = λ a. refl;
}

abbrev pub ptp_config_slice_kind : {v : Vendored} → Kind (Cell v) (List (PtpConfigStruct v))
ptp_config_slice_kind = record {
  to_cell = ptp_config_slice_cell;
  of_cell = λ x. elim x [ ptp_config_slice_cell a ↦ some a | _ ↦ none ];
  of-to = λ a. refl;
}

abbrev pub ptp_operator_config_slice_kind :
    {v : Vendored} → Kind (Cell v) (List (PtpOperatorConfigStruct v))
ptp_operator_config_slice_kind = record {
  to_cell = ptp_operator_config_slice_cell;
  of_cell = λ x. elim x [ ptp_operator_config_slice_cell a ↦ some a | _ ↦ none ];
  of-to = λ a. refl;
}
