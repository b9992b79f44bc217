-- ===== src/Api/DeepCopy/Types.antt =====
-- The structures of api/v1/ptpconfig_types.go, api/v1/ptpoperatorconfig_types.go and
-- api/v1/nodeptpdevice_types.go as they lie in memory: a pointer, a slice or a map is the address of a
-- cell, or nil. The structures of the vendored libraries are types of the record `Vendored`.
use ptp_operator_upstream.Base.{ℕ, Bool, Option}
use ptp_operator_upstream.Base.Text.{Text}

abbrev pub Pointer : Type 0
Pointer = Option ℕ

-- `metav1.TypeMeta`, `metav1.ObjectMeta`, `metav1.ListMeta` and `apiextensions.JSON`.
pub record Vendored : Type 1 where
  pub type_meta : Type 0
  pub object_meta : Type 0
  pub list_meta : Type 0
  pub json : Type 0

abbrev pub NodePtpDeviceSpec : Type 0
NodePtpDeviceSpec = Unit {0}

abbrev pub PtpOperatorConfigStatus : Type 0
PtpOperatorConfigStatus = Unit {0}

pub record PtpDevice : Type 0 where
  pub name : Text
  pub profile : Text

pub record HwConfigStruct : Type 0 where
  pub device_id : Text
  pub vendor_id : Text
  pub failed : Bool
  pub status : Text
  pub config : Pointer

pub record MatchRuleStruct : Type 0 where
  pub node_label : Pointer
  pub node_name : Pointer

pub record NodeMatchListStruct : Type 0 where
  pub node_name : Pointer
  pub profile : Pointer

pub record NodePtpDeviceStatusStruct : Type 0 where
  pub devices : Pointer
  pub hwconfig : Pointer

pub record NodePtpDeviceStruct (v : Vendored) : Type 0 where
  pub type_meta : v.type_meta
  pub object_meta : v.object_meta
  pub spec : NodePtpDeviceSpec
  pub status : NodePtpDeviceStatusStruct

pub record NodePtpDeviceListStruct (v : Vendored) : Type 0 where
  pub type_meta : v.type_meta
  pub list_meta : v.list_meta
  pub items : Pointer

pub record PtpProfileStruct : Type 0 where
  pub name : Pointer
  pub interface : Pointer
  pub ptp4l_opts : Pointer
  pub phc2sys_opts : Pointer
  pub ts2phc_opts : Pointer
  pub synce4l_opts : Pointer
  pub ptp4l_conf : Pointer
  pub phc2sys_conf : Pointer
  pub ts2phc_conf : Pointer
  pub synce4l_conf : Pointer
  pub ptp_scheduling_policy : Pointer
  pub ptp_scheduling_priority : Pointer
  pub ptp_clock_threshold : Pointer
  pub ptp_settings : Pointer
  pub plugins : Pointer

pub record PtpRecommendStruct : Type 0 where
  pub profile : Pointer
  pub priority : Pointer
  pub match_rules : Pointer

pub record PtpConfigSpecStruct : Type 0 where
  pub profile : Pointer
  pub recommend : Pointer

pub record PtpConfigStatusStruct : Type 0 where
  pub match_list : Pointer

pub record PtpConfigStruct (v : Vendored) : Type 0 where
  pub type_meta : v.type_meta
  pub object_meta : v.object_meta
  pub spec : PtpConfigSpecStruct
  pub status : PtpConfigStatusStruct

pub record PtpConfigListStruct (v : Vendored) : Type 0 where
  pub type_meta : v.type_meta
  pub list_meta : v.list_meta
  pub items : Pointer

pub record PtpOperatorConfigSpecStruct : Type 0 where
  pub daemon_node_selector : Pointer
  pub event_config : Pointer
  pub enabled_plugins : Pointer

pub record PtpOperatorConfigStruct (v : Vendored) : Type 0 where
  pub type_meta : v.type_meta
  pub object_meta : v.object_meta
  pub spec : PtpOperatorConfigSpecStruct
  pub status : PtpOperatorConfigStatus

pub record PtpOperatorConfigListStruct (v : Vendored) : Type 0 where
  pub type_meta : v.type_meta
  pub list_meta : v.list_meta
  pub items : Pointer
