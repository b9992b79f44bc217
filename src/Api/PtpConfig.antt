-- ===== src/Api/PtpConfig.antt =====
-- The PtpConfig resource: the types of api/v1/ptpconfig_types.go. A pointer is an `Option`, a
-- slice that may be nil reads as the empty list, and the metadata is its name.
use ptp_operator_upstream.Base.{Option, List}
use ptp_operator_upstream.Base.Int.{ℤ}
use ptp_operator_upstream.Base.Text.{Text}
use ptp_operator_upstream.Base.GoMap.{GoMap}

pub record PtpClockThreshold : Type 0 where
  pub hold_over_timeout : ℤ
  pub max_offset_threshold : ℤ
  pub min_offset_threshold : ℤ

-- A plugin's settings are the raw bytes of a JSON value, or a nil pointer.
pub record PtpProfile : Type 0 where
  pub name : Option Text
  pub interface : Option Text
  pub ptp4l_opts : Option Text
  pub phc2sys_opts : Option Text
  pub ts2phc_opts : Option Text
  pub synce4l_opts : Option Text
  pub ptp4l_conf : Option Text
  pub phc2sys_conf : Option Text
  pub ts2phc_conf : Option Text
  pub synce4l_conf : Option Text
  pub ptp_scheduling_policy : Option Text
  pub ptp_scheduling_priority : Option ℤ
  pub ptp_clock_threshold : Option PtpClockThreshold
  pub ptp_settings : GoMap Text
  pub plugins : GoMap (Option Text)

pub record MatchRule : Type 0 where
  pub node_label : Option Text
  pub node_name : Option Text

pub record PtpRecommend : Type 0 where
  pub profile : Option Text
  pub priority : Option ℤ
  pub match_rules : List MatchRule

pub record PtpConfigSpec : Type 0 where
  pub profile : List PtpProfile
  pub recommend : List PtpRecommend

pub record PtpConfig : Type 0 where
  pub name : Text
  pub spec : PtpConfigSpec
