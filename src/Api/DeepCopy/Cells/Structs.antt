-- ===== src/Api/DeepCopy/Cells/Structs.antt =====
-- The cells of the structures of package api/v1.
use ptp_operator_upstream.Base.{none, some, refl}
use ptp_operator_upstream.Api.PtpConfig.{PtpClockThreshold}
use ptp_operator_upstream.Api.OperatorConfig.{PtpEventConfig}
use ptp_operator_upstream.Api.DeepCopy.Memory.{Kind}
use ptp_operator_upstream.Api.DeepCopy.Types.{
  Vendored, HwConfigStruct, MatchRuleStruct, NodeMatchListStruct, NodePtpDeviceStruct,
  NodePtpDeviceListStruct, NodePtpDeviceSpec, NodePtpDeviceStatusStruct, PtpConfigStruct,
  PtpConfigListStruct, PtpConfigSpecStruct, PtpConfigStatusStruct, PtpDevice,
  PtpOperatorConfigStruct, PtpOperatorConfigListStruct, PtpOperatorConfigSpecStruct,
  PtpOperatorConfigStatus, PtpProfileStruct, PtpRecommendStruct,
}
use ptp_operator_upstream.Api.DeepCopy.Cells.{
  Cell, hw_config_cell, match_rule_cell, node_match_list_cell, node_ptp_device_cell,
  node_ptp_device_list_cell, node_ptp_device_spec_cell, node_ptp_device_status_cell,
  ptp_clock_threshold_cell, ptp_config_cell, ptp_config_list_cell, ptp_config_spec_cell,
  ptp_config_status_cell, ptp_device_cell, ptp_event_config_cell, ptp_operator_config_cell,
  ptp_operator_config_list_cell, ptp_operator_config_spec_cell, ptp_operator_config_status_cell,
  ptp_profile_cell, ptp_recommend_cell,
}

abbrev pub hw_config_kind : {v : Vendored} → Kind (Cell v) HwConfigStruct
hw_config_kind = record {
  to_cell = hw_config_cell;
  of_cell = λ x. elim x [ hw_config_cell a ↦ some a | _ ↦ none ];
  of-to = λ a. refl;
}

abbrev pub match_rule_kind : {v : Vendored} → Kind (Cell v) MatchRuleStruct
match_rule_kind = record {
  to_cell = match_rule_cell;
  of_cell = λ x. elim x [ match_rule_cell a ↦ some a | _ ↦ none ];
  of-to = λ a. refl;
}

abbrev pub node_match_list_kind : {v : Vendored} → Kind (Cell v) NodeMatchListStruct
node_match_list_kind = record {
  to_cell = node_match_list_cell;
  of_cell = λ x. elim x [ node_match_list_cell a ↦ some a | _ ↦ none ];
  of-to = λ a. refl;
}

abbrev pub node_ptp_device_kind : {v : Vendored} → Kind (Cell v) (NodePtpDeviceStruct v)
node_ptp_device_kind = record {
  to_cell = node_ptp_device_cell;
  of_cell = λ x. elim x [ node_ptp_device_cell a ↦ some a | _ ↦ none ];
  of-to = λ a. refl;
}

abbrev pub node_ptp_device_list_kind : {v : Vendored} → Kind (Cell v) (NodePtpDeviceListStruct v)
node_ptp_device_list_kind = record {
  to_cell = node_ptp_device_list_cell;
  of_cell = λ x. elim x [ node_ptp_device_list_cell a ↦ some a | _ ↦ none ];
  of-to = λ a. refl;
}

abbrev pub node_ptp_device_spec_kind : {v : Vendored} → Kind (Cell v) NodePtpDeviceSpec
node_ptp_device_spec_kind = record {
  to_cell = node_ptp_device_spec_cell;
  of_cell = λ x. elim x [ node_ptp_device_spec_cell a ↦ some a | _ ↦ none ];
  of-to = λ a. refl;
}

abbrev pub node_ptp_device_status_kind : {v : Vendored} → Kind (Cell v) NodePtpDeviceStatusStruct
node_ptp_device_status_kind = record {
  to_cell = node_ptp_device_status_cell;
  of_cell = λ x. elim x [ node_ptp_device_status_cell a ↦ some a | _ ↦ none ];
  of-to = λ a. refl;
}

abbrev pub ptp_clock_threshold_kind : {v : Vendored} → Kind (Cell v) PtpClockThreshold
ptp_clock_threshold_kind = record {
  to_cell = ptp_clock_threshold_cell;
  of_cell = λ x. elim x [ ptp_clock_threshold_cell a ↦ some a | _ ↦ none ];
  of-to = λ a. refl;
}

abbrev pub ptp_config_kind : {v : Vendored} → Kind (Cell v) (PtpConfigStruct v)
ptp_config_kind = record {
  to_cell = ptp_config_cell;
  of_cell = λ x. elim x [ ptp_config_cell a ↦ some a | _ ↦ none ];
  of-to = λ a. refl;
}

abbrev pub ptp_config_list_kind : {v : Vendored} → Kind (Cell v) (PtpConfigListStruct v)
ptp_config_list_kind = record {
  to_cell = ptp_config_list_cell;
  of_cell = λ x. elim x [ ptp_config_list_cell a ↦ some a | _ ↦ none ];
  of-to = λ a. refl;
}

abbrev pub ptp_config_spec_kind : {v : Vendored} → Kind (Cell v) PtpConfigSpecStruct
ptp_config_spec_kind = record {
  to_cell = ptp_config_spec_cell;
  of_cell = λ x. elim x [ ptp_config_spec_cell a ↦ some a | _ ↦ none ];
  of-to = λ a. refl;
}

abbrev pub ptp_config_status_kind : {v : Vendored} → Kind (Cell v) PtpConfigStatusStruct
ptp_config_status_kind = record {
  to_cell = ptp_config_status_cell;
  of_cell = λ x. elim x [ ptp_config_status_cell a ↦ some a | _ ↦ none ];
  of-to = λ a. refl;
}

abbrev pub ptp_device_kind : {v : Vendored} → Kind (Cell v) PtpDevice
ptp_device_kind = record {
  to_cell = ptp_device_cell;
  of_cell = λ x. elim x [ ptp_device_cell a ↦ some a | _ ↦ none ];
  of-to = λ a. refl;
}

abbrev pub ptp_event_config_kind : {v : Vendored} → Kind (Cell v) PtpEventConfig
ptp_event_config_kind = record {
  to_cell = ptp_event_config_cell;
  of_cell = λ x. elim x [ ptp_event_config_cell a ↦ some a | _ ↦ none ];
  of-to = λ a. refl;
}

abbrev pub ptp_operator_config_kind : {v : Vendored} → Kind (Cell v) (PtpOperatorConfigStruct v)
ptp_operator_config_kind = record {
  to_cell = ptp_operator_config_cell;
  of_cell = λ x. elim x [ ptp_operator_config_cell a ↦ some a | _ ↦ none ];
  of-to = λ a. refl;
}

abbrev pub ptp_operator_config_list_kind :
    {v : Vendored} → Kind (Cell v) (PtpOperatorConfigListStruct v)
ptp_operator_config_list_kind = record {
  to_cell = ptp_operator_config_list_cell;
  of_cell = λ x. elim x [ ptp_operator_config_list_cell a ↦ some a | _ ↦ none ];
  of-to = λ a. refl;
}

abbrev pub ptp_operator_config_spec_kind :
    {v : Vendored} → Kind (Cell v) PtpOperatorConfigSpecStruct
ptp_operator_config_spec_kind = record {
  to_cell = ptp_operator_config_spec_cell;
  of_cell = λ x. elim x [ ptp_operator_config_spec_cell a ↦ some a | _ ↦ none ];
  of-to = λ a. refl;
}

abbrev pub ptp_operator_config_status_kind : {v : Vendored} → Kind (Cell v) PtpOperatorConfigStatus
ptp_operator_config_status_kind = record {
  to_cell = ptp_operator_config_status_cell;
  of_cell = λ x. elim x [ ptp_operator_config_status_cell a ↦ some a | _ ↦ none ];
  of-to = λ a. refl;
}

abbrev pub ptp_profile_kind : {v : Vendored} → Kind (Cell v) PtpProfileStruct
ptp_profile_kind = record {
  to_cell = ptp_profile_cell;
  of_cell = λ x. elim x [ ptp_profile_cell a ↦ some a | _ ↦ none ];
  of-to = λ a. refl;
}

abbrev pub ptp_recommend_kind : {v : Vendored} → Kind (Cell v) PtpRecommendStruct
ptp_recommend_kind = record {
  to_cell = ptp_recommend_cell;
  of_cell = λ x. elim x [ ptp_recommend_cell a ↦ some a | _ ↦ none ];
  of-to = λ a. refl;
}
