-- ===== src/Testing/Config.antt =====
-- The modes, the states and the global configuration of test/pkg/testconfig/testconfig.go. The
-- global variable is an explicit state; `env` is `os.Getenv`. The layer 2 information, which the
-- modelled functions do not read, is left out.
use ptp_operator_upstream.Base.{
  Bool, true, false, not, ◌&&◌, Option, [], if◌then◌else◌, ◌≡◌, refl, inl, inr, Bool-cases,
}
use ptp_operator_upstream.Base.Text.{Text, codes, same, to_lower, lower}
use ptp_operator_upstream.Base.GoMap.{GoMap}
use ptp_operator_upstream.Api.PtpConfig.{PtpConfig}

pub data ConfigStatus : Type 0 where
  start init_status configured_status discovery_success_status discovery_failure_status :
      ConfigStatus

pub data PtpMode : Type 0 where
  ordinary_clock boundary_clock dual_nic_boundary_clock telco_grand_master_clock : PtpMode
  discovery no_mode : PtpMode

-- `P` is the type of the pods.
pub record TestConfig (P : Type 0) : Type 0 where
  pub ptp_mode_desired : PtpMode
  pub ptp_mode_discovered : PtpMode
  pub status : ConfigStatus
  pub discovered_grand_master : Option PtpConfig
  pub discovered_slave1 : Option PtpConfig
  pub discovered_slave2 : Option PtpConfig
  pub discovered_clock_under_test : Option PtpConfig
  pub discovered_clock_under_test_secondary : Option PtpConfig
  pub discovered_clock_under_test_pod : Option P
  pub found_solutions : GoMap Bool
  pub ptp_events_is_consumer_ready : Bool

unfoldable pub mode_text : PtpMode → Text
mode_text ordinary_clock = codes "OC"
mode_text boundary_clock = codes "BC"
mode_text dual_nic_boundary_clock = codes "DualNICBC"
mode_text telco_grand_master_clock = codes "T-GM"
mode_text discovery = codes "Discovery"
mode_text no_mode = []

unfoldable status_text : ConfigStatus → Text
status_text start = codes "Start"
status_text init_status = codes "init"
status_text configured_status = codes "configured"
status_text discovery_success_status = codes "discoverySuccess"
status_text discovery_failure_status = codes "discoveryFailure"

abbrev is_mode : Text → PtpMode → Bool
is_mode s mode = same (to_lower s) (to_lower (mode_text mode))

-- Whatever names no mode, the empty string among it, is the ordinary clock.
unfoldable pub string_to_mode : Text → PtpMode
string_to_mode s =
    if is_mode s ordinary_clock
    then ordinary_clock
    else if is_mode s boundary_clock
    then boundary_clock
    else if is_mode s dual_nic_boundary_clock
    then dual_nic_boundary_clock
    else if is_mode s telco_grand_master_clock
    then telco_grand_master_clock
    else if is_mode s discovery
    then discovery
    else if same (to_lower s) (to_lower (codes "true"))
    then discovery
    else ordinary_clock

unfoldable reset : {P : Type 0} → TestConfig P → TestConfig P
reset g = record g { ptp_mode_desired = no_mode; ptp_mode_discovered = no_mode; status = start }

unfoldable pub is_init : ConfigStatus → Bool
is_init init_status = true
is_init _ = false

unfoldable pub is_discovery : PtpMode → Bool
is_discovery discovery = true
is_discovery _ = false

-- The last switch of `GetDesiredConfig`.
unfoldable pub desired_mode : PtpMode → PtpMode
desired_mode no_mode = ordinary_clock
desired_mode mode = mode

unfoldable pub get_desired_config :
    {P : Type 0} → (Text → Text) → Bool → TestConfig P → TestConfig P
get_desired_config env force_update g =
    if is_init g.status && not force_update
    then g
    else let legacy = string_to_mode (env (codes "DISCOVERY_MODE")) in
      let mode =
        if not (is_discovery legacy)
        then string_to_mode (env (codes "PTP_TEST_MODE"))
        else legacy in
      record g { ptp_mode_desired = desired_mode mode; status = init_status }

-- The text of a mode is read as that mode, and that of no mode as the ordinary clock.
string_to_mode-mode_text : (mode : PtpMode) → string_to_mode (mode_text mode) ≡ desired_mode mode
unfolding string_to_mode mode_text desired_mode to_lower lower same
string_to_mode-mode_text ordinary_clock = refl
string_to_mode-mode_text boundary_clock = refl
string_to_mode-mode_text dual_nic_boundary_clock = refl
string_to_mode-mode_text telco_grand_master_clock = refl
string_to_mode-mode_text discovery = refl
string_to_mode-mode_text no_mode = refl

desired_mode-desired_mode : (mode : PtpMode) → desired_mode (desired_mode mode) ≡ desired_mode mode
unfolding desired_mode
desired_mode-desired_mode ordinary_clock = refl
desired_mode-desired_mode boundary_clock = refl
desired_mode-desired_mode dual_nic_boundary_clock = refl
desired_mode-desired_mode telco_grand_master_clock = refl
desired_mode-desired_mode discovery = refl
desired_mode-desired_mode no_mode = refl

no_legacy : is_discovery (string_to_mode []) ≡ false
unfolding is_discovery string_to_mode mode_text to_lower lower same
no_legacy = refl

forced_update :
    {P : Type 0} (env : Text → Text) (g : TestConfig P)
    → get_desired_config env true g ≡ (
        let legacy = string_to_mode (env (codes "DISCOVERY_MODE")) in
        let mode =
          if not (is_discovery legacy)
          then string_to_mode (env (codes "PTP_TEST_MODE"))
          else legacy in
        record g { ptp_mode_desired = desired_mode mode; status = init_status })
unfolding get_desired_config
forced_update env g = elim (Bool-cases (is_init g.status)) [ inl e ↦ rw e | inr e ↦ rw e ]

-- If the environment names a mode for the test and asks for no discovery, a forced update of the
-- global configuration desires that mode, or an ordinary clock for the empty text, and an update
-- that is not forced leaves the result as it is.
pub get_desired_config-mode_text :
    {P : Type 0} (env : Text → Text) (mode : PtpMode) (g : TestConfig P)
    → env (codes "DISCOVERY_MODE") ≡ []
    → env (codes "PTP_TEST_MODE") ≡ mode_text mode
    → ((get_desired_config env true g).ptp_mode_desired ≡ desired_mode mode)
      × (get_desired_config env false (get_desired_config env true g)
          ≡ get_desired_config env true g)
unfolding get_desired_config is_init
get_desired_config-mode_text env mode g legacy named =
    rw forced_update (
      rw (legacy, no_legacy, named, string_to_mode-mode_text, desired_mode-desired_mode) refl,
      refl,
    )
