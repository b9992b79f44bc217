-- ===== src/Testing/Tests.antt =====
-- Runs of package testconfig on a small cluster, and its theorems at them.
use ptp_operator_upstream.Base.{
  true, false, none, some, List, [], ◌∷◌, ◌≡◌, refl, ret, ok, if◌then◌else◌,
}
use ptp_operator_upstream.Base.Text.{Text, codes, same}
use ptp_operator_upstream.Base.GoMap.{insertion_order}
use ptp_operator_upstream.Api.Tests.{demo_profile, demo_config, interfaces_of_demo}
use ptp_operator_upstream.Base.Text.{
  starts_with, contains, split, index_byte, trim_space, remove_all,
}
use ptp_operator_upstream.Base.GoMap.{lookup, put}
use ptp_operator_upstream.Api.Ptp4lConf.{populate_ptp4l_conf, parse_lines, parse_line}
use ptp_operator_upstream.Api.Ptp4lConf.Reading.{get_option}
use ptp_operator_upstream.Api.Validate.{own_section}
use ptp_operator_upstream.Api.Interfaces.{slave, role_digit, bare_name, get_interfaces}
use ptp_operator_upstream.Testing.AddedRole.{with_port, get_interfaces-add_interface}
use ptp_operator_upstream.Base.Distinct.{Has}
use ptp_operator_upstream.Api.PtpConfig.{PtpConfig}
use ptp_operator_upstream.Testing.AddInterface.{add_interface, populate_ptp4l_conf-add_interface}
use ptp_operator_upstream.Testing.Config.{
  discovery_success_status, start, boundary_clock, dual_nic_boundary_clock, no_mode, TestConfig,
  mode_text, desired_mode, get_desired_config, get_desired_config-mode_text,
}
use ptp_operator_upstream.Testing.Discovery.{
  are_secondary, found_bc, classify, discover_loop, conclude, Pods, find_pod, get_ptp_pod, with_pod,
  discover_mode,
}
use ptp_operator_upstream.Testing.Discovery.Discovered.{
  IsDiscovered, expected_mode, discover_mode-IsDiscovered,
}

abbrev fresh : TestConfig Text
fresh = record {
  ptp_mode_desired = no_mode;
  ptp_mode_discovered = no_mode;
  status = start;
  discovered_grand_master = none;
  discovered_slave1 = none;
  discovered_slave2 = none;
  discovered_clock_under_test = none;
  discovered_clock_under_test_secondary = none;
  discovered_clock_under_test_pod = none;
  found_solutions = [];
  ptp_events_is_consumer_ready = false;
}

-- An environment that asks for a boundary clock with two network cards.
abbrev dual_nic : Text → Text
dual_nic variable = if same variable (codes "PTP_TEST_MODE") then codes "DualNICBC" else []

names_dual_nic : dual_nic (codes "PTP_TEST_MODE") ≡ mode_text dual_nic_boundary_clock
unfolding mode_text same
names_dual_nic = refl

no_discovery : dual_nic (codes "DISCOVERY_MODE") ≡ []
unfolding same
no_discovery = refl

get_desired_config-mode_text_example :
    ((get_desired_config dual_nic true fresh).ptp_mode_desired
      ≡ desired_mode dual_nic_boundary_clock)
    × (get_desired_config dual_nic false (get_desired_config dual_nic true fresh)
        ≡ get_desired_config dual_nic true fresh)
get_desired_config-mode_text_example =
    get_desired_config-mode_text dual_nic dual_nic_boundary_clock fresh no_discovery names_dual_nic

-- A client with no pods.
abbrev no_pods : Pods Text Text
no_pods = record { list_pods = ok []; pod_role = λ pod label. ok false; node_of = λ pod. pod }

abbrev discovered_bc : TestConfig Text
discovered_bc = record fresh {
  ptp_mode_discovered = boundary_clock;
  status = discovery_success_status;
  discovered_clock_under_test = some demo_config;
}

run_discover_mode :
    discover_mode no_pods insertion_order fresh (demo_config ∷ []) ≡ ret discovered_bc
unfolding discover_mode discover_loop classify found_bc conclude with_pod get_ptp_pod find_pod
    are_secondary
run_discover_mode = rw (interfaces_of_demo.0, interfaces_of_demo.1) refl

discover_mode-IsDiscovered_example :
    IsDiscovered (expected_mode insertion_order (demo_config ∷ [])) fresh discovered_bc
discover_mode-IsDiscovered_example =
    discover_mode-IsDiscovered no_pods insertion_order fresh discovered_bc (demo_config ∷ [])
      run_discover_mode

abbrev base_conf : Text
base_conf = codes "[global]\nlogging_level 7"

run_base_conf :
    populate_ptp4l_conf (some base_conf)
    ≡ ret (
      (codes "[global]", record { options = (codes "logging_level", codes "7") ∷ [] }) ∷ [],
      none,
    )
unfolding populate_ptp4l_conf parse_lines parse_line same starts_with split index_byte trim_space
    lookup put
run_base_conf = refl

run_with_port :
    populate_ptp4l_conf (some (add_interface base_conf (codes "ens1") slave))
    ≡ ret (
      (codes "[global]", record { options = (codes "logging_level", codes "7") ∷ [] })
          ∷ (codes "[ens1]", record { options = (codes "masterOnly", codes "0") ∷ [] })
          ∷ [],
      none,
    )
unfolding add_interface populate_ptp4l_conf parse_lines parse_line same starts_with split index_byte
    trim_space lookup put
run_with_port = refl

no_line_break : contains b'\n' (codes "ens1") ≡ false
unfolding contains
no_line_break = refl

no_bracket : contains b']' (codes "ens1") ≡ false
unfolding contains
no_bracket = refl

populate_ptp4l_conf-add_interface_example :
    get_option (codes "[ens1]") (codes "masterOnly") (
      (codes "[global]", record { options = (codes "logging_level", codes "7") ∷ [] })
      ∷ (codes "[ens1]", record { options = (codes "masterOnly", codes "0") ∷ [] })
      ∷ [])
    ≡ (if same (own_section (codes "ens1")) (codes "[ens1]")
        then (if same (codes "masterOnly") (codes "masterOnly")
            then some (role_digit slave)
            else none)
        else get_option
            (codes "[ens1]")
            (codes "masterOnly")
            ((codes "[global]", record { options = (codes "logging_level", codes "7") ∷ [] }) ∷ []))
populate_ptp4l_conf-add_interface_example =
    populate_ptp4l_conf-add_interface base_conf (codes "ens1") slave (codes "[ens1]")
      (codes "masterOnly") no_line_break no_bracket run_base_conf run_with_port

-- The first profile of a resource, with the port in its configuration.
abbrev port_config : PtpConfig
port_config = record demo_config {
  spec = record demo_config.spec {
    profile =
        record demo_profile { ptp4l_conf = some (add_interface base_conf (codes "ens1") slave) }
        ∷ [];
  };
}

bare_port : bare_name (bare_name (own_section (codes "ens1"))) ≡ codes "ens1"
unfolding bare_name trim_space remove_all
bare_port = refl

not_global : same (codes "ens1") (codes "global") ≡ false
unfolding same
not_global = refl

get_interfaces-add_interface_example :
    (add_interface base_conf (codes "ens1") slave ≡ with_port base_conf (codes "ens1") slave)
    × ((l : List Text) × (get_interfaces insertion_order port_config slave ≡ ret l)
        × Has (codes "ens1") l)
get_interfaces-add_interface_example =
    get_interfaces-add_interface insertion_order port_config _ [] base_conf (codes "ens1") slave
      refl refl no_line_break no_bracket bare_port not_global run_base_conf run_with_port
