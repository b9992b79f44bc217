-- ===== src/Api/Tests.antt =====
-- Runs of package api/v1 on small inputs, and its theorems at them.
use mathlib.Core.List.Permᴰ
use ptp_operator_upstream.Base.{
  true, false, ◌||◌, Option, none, some, List, [], ◌∷◌, ◌≡◌, ◌↔◌, refl, Go, ret, All,
}
use ptp_operator_upstream.Base.Int.{pos}
use ptp_operator_upstream.Base.Text.{
  Text, codes, same, starts_with, split, index_byte, trim_space, remove_all, to_lower,
}
use ptp_operator_upstream.Base.GoMap.{lookup, put, insertion_order, reverse_order}
use ptp_operator_upstream.Api.Ptp4lConf.{
  Sections, missing_bracket, option_outside_section, parse_line, parse_lines, populate_ptp4l_conf,
  config_text, global_section,
}
use ptp_operator_upstream.Api.Ptp4lConf.Outcome.{
  error_of, conf_error, populate_ptp4l_conf-conf_error,
}
use ptp_operator_upstream.Api.Ptp4lConf.Reading.{
  get_option, scan, any_header, populate_ptp4l_conf-scan,
}
use ptp_operator_upstream.Api.Ptp4lConf.Headers.{has_section, populate_ptp4l_conf-has_section}
use ptp_operator_upstream.Api.HaProfiles.{is_profile_list}
use ptp_operator_upstream.Api.HaProfiles.Regex.{Matches}
use ptp_operator_upstream.Api.HaProfiles.Pattern.{profile_reg_ex}
use ptp_operator_upstream.Api.HaProfiles.Matching.{is_profile_list_iff}
use ptp_operator_upstream.Api.PtpConfig.{PtpProfile, PtpConfig}
use ptp_operator_upstream.Api.Validate.{
  ValidateError, section_not_allowed, validate_create, validate_profile, check_interface,
  check_sections, allows_section, check_scheduling, is_fifo, check_settings, check_setting,
}
use ptp_operator_upstream.Api.Validate.Accepted.{IsAccepted, validate_create-IsAccepted}
use ptp_operator_upstream.Api.Interfaces.{
  slave, master, select_interfaces, get_interfaces, get_section_interfaces, has_role, bare_name,
  replace_global, fallback,
}
use ptp_operator_upstream.Api.Interfaces.Roles.{get_interfaces-perm}

-- A boundary clock: one slave port, one master port. The section of the master port is written
-- twice, and the second header forgets the first block.
abbrev demo : Text
demo =
    codes
      "[global]\nlogging_level 6\n[ens1f0]\nmasterOnly 0\n[ens1f1]\nx 1\n[ens1f1]\nmasterOnly  1 \nalone"

abbrev demo_sections : Sections
demo_sections =
    (global_section, record { options = (codes "logging_level", codes "6") ∷ [] })
    ∷ (codes "[ens1f0]", record { options = (codes "masterOnly", codes "0") ∷ [] })
    ∷ (codes "[ens1f1]", record { options = (codes "masterOnly", codes "1") ∷ [] })
    ∷ []

populate_demo : populate_ptp4l_conf (some demo) ≡ ret (demo_sections, none)
unfolding populate_ptp4l_conf parse_lines parse_line same starts_with split index_byte trim_space
    lookup put
populate_demo = refl

-- An absent configuration is the empty one, whose only line stands in no section.
populate_absent : populate_ptp4l_conf none ≡ ret ([], some option_outside_section)
unfolding populate_ptp4l_conf parse_lines parse_line same starts_with split
populate_absent = refl

populate_unclosed :
    populate_ptp4l_conf (some (codes "[global]\n[ens1f0"))
    ≡ ret ((global_section, record { options = [] }) ∷ [], some missing_bracket)
unfolding populate_ptp4l_conf parse_lines parse_line same starts_with split put
populate_unclosed = refl

populate_ptp4l_conf-conf_error_example :
    error_of (populate_ptp4l_conf (some demo))
    ≡ ret (conf_error (split b'\n' (config_text (some demo))))
populate_ptp4l_conf-conf_error_example = populate_ptp4l_conf-conf_error (some demo)

populate_ptp4l_conf-scan_example :
    get_option (codes "[ens1f1]") (codes "masterOnly") demo_sections
    ≡ scan
        (codes "[ens1f1]")
        (codes "masterOnly")
        false
        none
        (split b'\n' (config_text (some demo)))
populate_ptp4l_conf-scan_example =
    populate_ptp4l_conf-scan (some demo) (codes "[ens1f1]") (codes "masterOnly") populate_demo

populate_ptp4l_conf-has_section_example : has_section (codes "[ens1f0]") demo_sections ≡ (
    same global_section (codes "[ens1f0]")
    || any_header (codes "[ens1f0]") (split b'\n' (config_text (some demo))))
populate_ptp4l_conf-has_section_example =
    populate_ptp4l_conf-has_section (some demo) (codes "[ens1f0]") populate_demo

profile_lists :
    (is_profile_list (codes "bc1, bc-2,\tbc_3") ≡ true)
    × (is_profile_list (codes "bc1,") ≡ false)
    × (is_profile_list (codes "") ≡ false)
    × (is_profile_list (codes "bc1 ,bc2") ≡ false)
unfolding is_profile_list
profile_lists = (refl, refl, refl, refl)

is_profile_list_iff_example :
    (is_profile_list (codes "bc1, bc2") ≡ true) ↔ Matches profile_reg_ex (codes "bc1, bc2")
is_profile_list_iff_example = is_profile_list_iff (codes "bc1, bc2")

abbrev pub demo_profile : PtpProfile
demo_profile = record {
  name = some (codes "bc");
  interface = none;
  ptp4l_opts = none;
  phc2sys_opts = none;
  ts2phc_opts = none;
  synce4l_opts = none;
  ptp4l_conf = some demo;
  phc2sys_conf = none;
  ts2phc_conf = none;
  synce4l_conf = none;
  ptp_scheduling_policy = some (codes "SCHED_FIFO");
  ptp_scheduling_priority = some (pos 10);
  ptp_clock_threshold = none;
  ptp_settings = (codes "logReduce", codes "TRUE") ∷ (codes "haProfiles", codes "bc1, bc2") ∷ [];
  plugins = [];
}

abbrev config_with : PtpProfile → PtpConfig
config_with p = record { name = codes "cfg"; spec = record { profile = p ∷ []; recommend = [] } }

abbrev pub demo_config : PtpConfig
demo_config = config_with demo_profile

-- A profile with an interface of its own must not have a section of another one.
foreign_section :
    validate_create insertion_order
      (λ _. true)
      (config_with (record demo_profile { interface = some (codes "ens1f0") }))
    ≡ ret (some (section_not_allowed (codes "[ens1f1]")))
unfolding validate_create validate_profile check_interface check_sections allows_section
    check_scheduling is_fifo check_settings check_setting is_profile_list to_lower
    populate_ptp4l_conf parse_lines parse_line same starts_with split index_byte trim_space lookup
    put
foreign_section = refl

demo_accepted : validate_create reverse_order (λ _. true) demo_config ≡ ret none
unfolding validate_create validate_profile check_interface check_scheduling is_fifo check_settings
    check_setting is_profile_list to_lower populate_ptp4l_conf parse_lines parse_line same
    starts_with split index_byte trim_space lookup put
demo_accepted = refl

validate_create-IsAccepted_example :
    ((e : Option ValidateError) × (validate_create reverse_order (λ _. true) demo_config ≡ ret e))
    × ((validate_create reverse_order (λ _. true) demo_config ≡ ret none)
        ↔ All (IsAccepted (λ _. true)) demo_config.spec.profile)
validate_create-IsAccepted_example =
    validate_create-IsAccepted reverse_order (λ _. true) demo_config

abbrev masters : Go (List Text)
masters = get_interfaces insertion_order demo_config master

pub interfaces_of_demo :
    (get_interfaces insertion_order demo_config master ≡ ret (codes "ens1f1" ∷ []))
    × (get_interfaces insertion_order demo_config slave ≡ ret (codes "ens1f0" ∷ []))
unfolding get_interfaces get_section_interfaces select_interfaces has_role bare_name replace_global
    fallback populate_ptp4l_conf parse_lines parse_line same starts_with split index_byte trim_space
    remove_all lookup put
interfaces_of_demo = (refl, refl)

get_interfaces-perm_example :
    (l : List Text) × (l' : List Text) × (get_interfaces insertion_order demo_config master ≡ ret l)
    × (get_interfaces reverse_order demo_config master ≡ ret l')
    × Permᴰ.Permᴰ l l'
get_interfaces-perm_example = get_interfaces-perm insertion_order reverse_order demo_config master
