-- ===== src/Testing/Scan.antt =====
-- `discoverPTPConfiguration` and `GetFullDiscoveredConfig` of test/pkg/testconfig/testconfig.go: the
-- configurations of the cluster, by the labels that they match. A list that fails is empty.
use ptp_operator_upstream.Base.{
  Bool, true, false, not, ◌&&◌, ◌||◌, none, some, List, [], ◌∷◌, ◌++◌, Go, ret, if◌then◌else◌,
}
use ptp_operator_upstream.Base.Text.{Text, codes, same}
use ptp_operator_upstream.Base.GoMap.{MapRange}
use ptp_operator_upstream.Api.PtpConfig.{PtpRecommend, MatchRule, PtpConfig}
use ptp_operator_upstream.Testing.Config.{
  ConfigStatus, discovery_success_status, discovery_failure_status, PtpMode, discovery, no_mode,
  TestConfig,
}
use ptp_operator_upstream.Testing.Discovery.{Pods, discover_mode}

-- The configurations under test so far, and the global configuration.
pub record Scan (P : Type 0) : Type 0 where
  pub under_test : List PtpConfig
  pub config : TestConfig P

-- The test program creates the grand master and the slaves in every other mode.
unfoldable creates_configs : PtpMode → Bool
creates_configs discovery = false
creates_configs no_mode = false
creates_configs _ = true

unfoldable is_failure : ConfigStatus → Bool
is_failure discovery_failure_status = true
is_failure _ = false

unfoldable is_success : ConfigStatus → Bool
is_success discovery_success_status = true
is_success _ = false

module _ {P : Type 0} where
  unfoldable scan_created : PtpConfig → Text → TestConfig P → TestConfig P
  scan_created found label g =
      if same label (codes "ptp/test-grandmaster")
      then record g { discovered_grand_master = some found }
      else if same label (codes "ptp/test-slave1")
      then record g { discovered_slave1 = some found }
      else if same label (codes "ptp/test-slave2")
      then record g { discovered_slave2 = some found }
      else g

  unfoldable scan_label : PtpConfig → Text → Scan P → Scan P
  scan_label found label s = record {
    under_test =
        if same label (codes "ptp/clock-under-test")
        then s.under_test ++ (found ∷ [])
        else s.under_test;
    config =
        if creates_configs s.config.ptp_mode_desired
        then scan_created found label s.config
        else s.config;
  }

  unfoldable scan_rules : PtpConfig → List MatchRule → Scan P → Scan P
  scan_rules found [] s = s
  scan_rules found (m ∷ ms) s = elim m.node_label [
    | none ↦ scan_rules found ms s
    | some label ↦ scan_rules found ms (scan_label found label s)
  ]

  unfoldable scan_recommends : PtpConfig → List PtpRecommend → Scan P → Scan P
  scan_recommends found [] s = s
  scan_recommends found (rec ∷ rest) s =
      scan_recommends found rest (scan_rules found rec.match_rules s)

  unfoldable scan_configs : List PtpConfig → Scan P → Scan P
  scan_configs [] s = s
  scan_configs (found ∷ rest) s = scan_configs rest (scan_recommends found found.spec.recommend s)

  unfoldable discover_ptp_configuration :
      {E : Type 0} → Pods P E → MapRange → List PtpConfig → TestConfig P → Go (TestConfig P)
  discover_ptp_configuration pods r configs g =
      let s = scan_configs configs (record { under_test = []; config = g }) in
      discover_mode pods r s.config s.under_test

  unfoldable get_full_discovered_config :
      {E : Type 0} → Pods P E → MapRange → List PtpConfig → Bool → TestConfig P → Go (TestConfig P)
  get_full_discovered_config pods r configs force_update g =
      if is_failure g.status || (is_success g.status && not force_update)
      then ret g
      else discover_ptp_configuration pods r configs g
