-- ===== src/Testing/Discovery.antt =====
-- `discoverPTPConfiguration` and `discoverMode` of test/pkg/testconfig/testconfig.go, with what
-- they use of test/pkg/ptphelper/ptphelper.go. The pods of the cluster and the test of a pod's role
-- are parameters; a dereferenced nil pointer panics.
pub mod Modes
pub mod Discovered
use ptp_operator_upstream.Base.{
  ℕ, suc, Bool, true, false, not, ◌&&◌, Option, none, some, List, [], ◌∷◌, ◌++◌, Go, ret, panic,
  ◌>>=◌, Result, ok, fail, length, leb, ◌==◌, if◌then◌else◌,
}
use ptp_operator_upstream.Base.Text.{Text, codes, same}
use ptp_operator_upstream.Base.GoMap.{MapRange}
use ptp_operator_upstream.Api.PtpConfig.{PtpProfile, PtpRecommend, MatchRule, PtpConfig}
use ptp_operator_upstream.Api.Interfaces.{PtpRole, master, slave, get_interfaces}
use ptp_operator_upstream.Testing.Config.{
  ConfigStatus, discovery_success_status, discovery_failure_status, PtpMode, ordinary_clock,
  boundary_clock, dual_nic_boundary_clock, telco_grand_master_clock, TestConfig,
}

-- `IsSecondaryBc`: no profile has options for phc2sys.
unfoldable pub are_secondary : List PtpProfile → Bool
are_secondary [] = true
are_secondary (p ∷ ps) = elim p.phc2sys_opts [ some _ ↦ false | none ↦ are_secondary ps ]

abbrev pub is_secondary_bc : PtpConfig → Bool
is_secondary_bc config = are_secondary config.spec.profile

-- `GetLabel`: the first label, or the empty string if it is none of the tests' labels.
unfoldable pub known_label : Text → Text
known_label label =
    if same label (codes "ptp/clock-under-test")
    then label
    else if same label (codes "ptp/test-grandmaster")
    then label
    else if same label (codes "ptp/test-slave1")
    then label
    else if same label (codes "ptp/test-slave2")
    then label
    else []

abbrev first_some {ℓ} : {A : Type ℓ} → Option A → Option A → Option A
first_some (some a) later = some a
first_some none later = later

unfoldable pub first_label : List MatchRule → Option Text
first_label [] = none
first_label (m ∷ ms) = elim m.node_label [
  | some label ↦ some (known_label label)
  | none ↦ first_label ms
]

unfoldable pub get_label : List PtpRecommend → Option Text
get_label [] = none
get_label (rec ∷ rest) = first_some (first_label rec.match_rules) (get_label rest)

unfoldable pub first_node : List MatchRule → Option Text
first_node [] = none
first_node (m ∷ ms) = first_some m.node_name (first_node ms)

unfoldable pub get_first_node : List PtpRecommend → Option Text
get_first_node [] = none
get_first_node (rec ∷ rest) = first_some (first_node rec.match_rules) (get_first_node rest)

-- The variables of the loop of `discoverMode`.
pub record Findings (P : Type 0) : Type 0 where
  pub config : TestConfig P
  pub num_bc : ℕ
  pub num_secondary_bc : ℕ

-- The shapes of a configuration, from the numbers of its master and slave interfaces.
abbrev pub is_oc_shape : ℕ → ℕ → ℕ → Bool
is_oc_shape masters slaves total = masters == 0 && (slaves == 1 && total == 1)

abbrev pub is_bc_shape : ℕ → ℕ → Bool
is_bc_shape masters slaves = leb 1 masters && leb 1 slaves

abbrev pub is_gm_shape : ℕ → ℕ → Bool
is_gm_shape masters slaves = leb 2 masters && slaves == 0

-- `!strings.EqualFold(*config.Spec.Profile[0].Ts2PhcConf, "")`.
unfoldable pub has_ts2phc : List PtpProfile → Go Bool
has_ts2phc [] = panic
has_ts2phc (p ∷ _) = elim p.ts2phc_conf [ none ↦ panic | some conf ↦ ret (not (same conf [])) ]

module _ {P : Type 0} where
  unfoldable pub found_oc : PtpConfig → Findings P → Findings P
  found_oc config f = record f {
    config = record f.config {
      ptp_mode_discovered = ordinary_clock;
      status = discovery_success_status;
      discovered_clock_under_test = some config;
    };
  }

  unfoldable pub found_bc : PtpConfig → Findings P → Findings P
  found_bc config f = record {
    config = record f.config {
      discovered_clock_under_test =
          if f.num_bc == 0 then some config else f.config.discovered_clock_under_test;
      discovered_clock_under_test_secondary =
          if f.num_bc == 1 then some config else f.config.discovered_clock_under_test_secondary;
    };
    num_bc = suc f.num_bc;
    num_secondary_bc =
        if is_secondary_bc config then suc f.num_secondary_bc else f.num_secondary_bc;
  }

  unfoldable pub found_gm : PtpConfig → Findings P → Findings P
  found_gm config f = record f {
    config = record f.config {
      discovered_clock_under_test = some config;
      ptp_mode_discovered = telco_grand_master_clock;
      status = discovery_success_status;
      discovered_grand_master = some config;
    };
  }

  -- The rest of a round, unless it has found an ordinary clock.
  unfoldable pub classify : PtpConfig → ℕ → ℕ → Findings P → Go (Findings P)
  classify config masters slaves f =
      let f' = if is_bc_shape masters slaves then found_bc config f else f in
      if is_gm_shape masters slaves
      then has_ts2phc config.spec.profile >>= (λ set. ret (if set then found_gm config f' else f'))
      else ret f'

  unfoldable pub discover_loop : MapRange → ℕ → Findings P → List PtpConfig → Go (Findings P)
  discover_loop r total f [] = ret f
  discover_loop r total f (config ∷ configs) = do
    masters ← get_interfaces r config master
    slaves ← get_interfaces r config slave
    if is_oc_shape (length masters) (length slaves) total
        then ret (found_oc config f)
        else classify config (length masters) (length slaves) f
          >>= (λ f'. discover_loop r total f' configs)

  -- What follows the loop, up to the search of the pod.
  unfoldable pub conclude : Findings P → TestConfig P
  conclude f =
      let c =
        if f.num_bc == 1
        then record f.config {
          ptp_mode_discovered = boundary_clock;
          status = discovery_success_status;
        }
        else f.config in
      if f.num_bc == 2 && f.num_secondary_bc == 1
      then record c {
        ptp_mode_discovered = dual_nic_boundary_clock;
        status = discovery_success_status;
      }
      else c

-- The pods of the operator's daemon, or an error of the client; `PodRole`; and the node of a pod.
pub record Pods (P E : Type 0) : Type 0 where
  pub list_pods : Result E (List P)
  pub pod_role : P → Text → Result E Bool
  pub node_of : P → Text

module _ {P E : Type 0} (pods : Pods P E) where
  -- `HasPodLabelOrNodeName`: `none` is an error. The node's name supersedes the label.
  unfoldable pub has_pod_label_or_node_name : P → Option Text → Option Text → Option Bool
  has_pod_label_or_node_name pod none none = none
  has_pod_label_or_node_name pod none (some wanted) = some (same (pods.node_of pod) wanted)
  has_pod_label_or_node_name pod (some label) wanted = elim (pods.pod_role pod label) [
    | fail _ ↦ none
    | ok result ↦ some (elim wanted [ none ↦ result | some n ↦ same (pods.node_of pod) n ])
  ]

  -- The loop of `GetPTPPodWithPTPConfig`. The message of an error dereferences the label.
  unfoldable pub find_pod : Option Text → Option Text → List P → Go (Option P)
  find_pod label wanted [] = ret none
  find_pod label wanted (pod ∷ rest) = elim (has_pod_label_or_node_name pod label wanted) [
    | some found ↦ if found then ret (some pod) else find_pod label wanted rest
    | none ↦ elim label [ none ↦ panic | some _ ↦ find_pod label wanted rest ]
  ]

  -- `GetPTPPodWithPTPConfig`, whose error is logged: a nil configuration is dereferenced.
  unfoldable pub get_ptp_pod : Option PtpConfig → Go (Option P)
  get_ptp_pod config = elim pods.list_pods [
    | fail _ ↦ ret none
    | ok l ↦ elim config [
      | none ↦ panic
      | some c ↦ find_pod (get_label c.spec.recommend) (get_first_node c.spec.recommend) l
    ]
  ]

  -- The clock under test's pod is the last thing to be discovered.
  unfoldable pub with_pod : TestConfig P → Go (TestConfig P)
  with_pod c = do
    pod ← get_ptp_pod c.discovered_clock_under_test
    ret (record c { discovered_clock_under_test_pod = pod })

  unfoldable pub discover_mode : MapRange → TestConfig P → List PtpConfig → Go (TestConfig P)
  discover_mode r g [] = ret (record g { status = discovery_failure_status })
  discover_mode r g (config ∷ configs) = do
    f ←
        discover_loop r (length (config ∷ configs))
          (record {
            config = record g { status = discovery_failure_status };
            num_bc = 0;
            num_secondary_bc = 0;
          })
          (config ∷ configs)
    with_pod (conclude f)
