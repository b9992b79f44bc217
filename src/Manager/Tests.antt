-- ===== src/Manager/Tests.antt =====
-- Runs of main.go, and its theorems at them.
use ptp_operator_upstream.Base.{
  ℕ, ◌+◌, ◌*◌, ◌≤◌, Bool, true, false, Option, none, some, List, [], ◌∷◌, ◌++◌, ◌≡◌, ◌≢◌, ◌↔◌, ◌⊎◌,
  refl, arith, Result, ok, fail, leb, if◌then◌else◌, Bool-cases, inl, inr, some-error≢none, ap,
}
use ptp_operator_upstream.Base.Text.{Text, codes}
use ptp_operator_upstream.Base.Distinct.{Has, Distinct}
use ptp_operator_upstream.Base.GoMap.{GoMap, keys}
use ptp_operator_upstream.Api.OperatorConfig.{PtpOperatorConfig}
use ptp_operator_upstream.Apply.Object.{existing, not_found}
use ptp_operator_upstream.Controllers.OperatorController.{join_commas}
use ptp_operator_upstream.Manager.Election.{
  ElectionLibrary, get_leader_election_config, blank_election,
}
use ptp_operator_upstream.Manager.Options.{
  default_flags, Flags, ManagerOptions, manager_options, watched_namespaces,
}
use ptp_operator_upstream.Manager.Options.Electable.{
  HasAcceptedDurations, manager_options-HasAcceptedDurations,
}
use ptp_operator_upstream.Manager.Options.Namespaces.{watched_namespaces-join_commas}
use ptp_operator_upstream.Manager.Default.{
  ConfigClient, create_default_operator_config, create_if_not_found, named_config,
}
use ptp_operator_upstream.Manager.Default.Settled.{
  get_default, StoresCreated, WasThereOrCreated, create_default_operator_config-Settles,
}
use ptp_operator_upstream.Manager.Setup.{Part, ptp_config_webhook, ManagerLibrary, set_up}
use ptp_operator_upstream.Manager.Setup.Order.{IsSetUp, set_up-IsSetUp}
use ptp_operator_upstream.Manager.Run.{
  serving, process, wait_returns, worker_goes_on, begins, goes_on, Reached, exits_with_success,
  exits_with_failure, waited,
}
use ptp_operator_upstream.Manager.Run.Gate.{Reached-creating}
use ptp_operator_upstream.Manager.Run.Race.{exit_status_undetermined}
use ptp_operator_upstream.Manager.Wait.{
  second, healthz_url, Waiter, WaitError, wait_for_webhook_server, wait_loop, after_check, since,
}
use ptp_operator_upstream.Manager.Wait.Ends.{IsOutcome, wait_for_webhook_server-IsOutcome}
use ptp_operator_upstream.Manager.Wait.Ready.{wait_for_webhook_server_ready}

-- The state is the clock. A check takes a tenth of a second and succeeds from the fifth second on.
abbrev started_after_five : Waiter ℕ Text Text
started_after_five = record {
  new_request = λ method url. ok url;
  check = λ q t. (t + 100000000, if leb (5 * second) t then none else some (codes "not started"));
  now = λ t. t;
  sleep = λ d t. t + d;
  check_time = λ q t. omega arith;
  sleep_time = λ d t. omega arith;
}

waits_five_seconds : wait_for_webhook_server started_after_five 32 0 ≡ some (5600000000, none)
unfolding wait_for_webhook_server wait_loop after_check since
waits_five_seconds = refl

wait_for_webhook_server-IsOutcome_example :
    (r : ℕ × Option (WaitError Text)) × (wait_for_webhook_server started_after_five 32 7 ≡ some r)
    × IsOutcome started_after_five 7 r (started_after_five.new_request (codes "GET") healthz_url)
wait_for_webhook_server-IsOutcome_example = wait_for_webhook_server-IsOutcome started_after_five 7

answers_from_five :
    (t : ℕ) → 5 * second ≤ t → (t' : ℕ) × (started_after_five.check healthz_url t ≡ (t', none))
answers_from_five t h = (t + 100000000, ground arith)

wait_for_webhook_server_ready_example :
    (t : ℕ) × (wait_for_webhook_server started_after_five 32 7 ≡ some (t, none))
    × ((v : ℕ) × (started_after_five.check healthz_url v ≡ (t, none)))
wait_for_webhook_server_ready_example =
    wait_for_webhook_server_ready started_after_five healthz_url (5 * second) second 7 refl
      answers_from_five (λ t. omega arith) (omega arith)

abbrev conventional : ElectionLibrary
conventional = record {
  leader_election_defaulting = λ le namespace name. record le {
    lease_duration = 137 * second;
    renew_deadline = 107 * second;
    retry_period = 26 * second;
  };
  leader_election_sno_config = λ le. record le {
    lease_duration = 270 * second;
    renew_deadline = 240 * second;
    retry_period = 60 * second;
  };
}

abbrev electing : Flags
electing = record default_flags { enable_leader_election = true }

abbrev on_a_single_node : ManagerOptions
on_a_single_node =
    manager_options electing
      (get_leader_election_config {E = Text} conventional (some (codes "SingleReplica"), none)
        electing.enable_leader_election)
      (codes "openshift-ptp")

manager_options-HasAcceptedDurations_example :
    HasAcceptedDurations {E = Text} electing (some (codes "SingleReplica"), none) on_a_single_node
unfolding blank_election
manager_options-HasAcceptedDurations_example =
    manager_options-HasAcceptedDurations {E = Text} conventional
      ((λ enabled. (refl, refl, refl)), (λ le. (refl, refl, refl))) electing
      (some (codes "SingleReplica"), none) (codes "openshift-ptp")

abbrev two_namespaces : List Text
two_namespaces = codes "openshift-ptp" ∷ codes "ptp" ∷ []

watched_namespaces-join_commas_example :
    (watched_namespaces [] ≡ none)
    × ((m : GoMap (Unit {0})) × (watched_namespaces (join_commas two_namespaces) ≡ some m)
        × Distinct (keys m)
        × ((n : Text) → (Has n (keys m)) ↔ (Has n two_namespaces)))
unfolding ptp_operator_upstream.Base.Text.contains join_commas
watched_namespaces-join_commas_example =
    watched_namespaces-join_commas (codes "openshift-ptp") (codes "ptp" ∷ []) (refl, (refl, tt))
      (λ e. cc)

-- A cluster with room for one configuration.
abbrev one_config : ConfigClient (Option PtpOperatorConfig) Text
one_config = record {
  get = λ s namespace name. elim s [ none ↦ not_found | some config ↦ existing config ];
  create = λ s config. elim s [
    | none ↦ (some config, none)
    | some old ↦ (some old, some (codes "exists"))
  ];
}

one_config-StoresCreated : StoresCreated one_config
one_config-StoresCreated none s' config h = rw⁻¹ (ap (λ p. p.0) h) refl
one_config-StoresCreated (some old) s' config h =
    absurd (some-error≢none (some old) s' (codes "exists") h)

creates_the_default :
    create_default_operator_config (ok one_config) none ≡ (some named_config, none)
unfolding create_default_operator_config create_if_not_found
creates_the_default = refl

create_default_operator_config-Settles_example :
    ((config : PtpOperatorConfig) × (get_default one_config (some named_config) ≡ existing config)
      × WasThereOrCreated one_config none (some named_config) config)
    × (create_default_operator_config (ok one_config) (some named_config)
        ≡ (some named_config, none))
create_default_operator_config-Settles_example =
    create_default_operator_config-Settles one_config one_config-StoresCreated none
      (some named_config) creates_the_default

-- The state is the list of the parts that were added; there is no certificate for the webhook.
abbrev fails_at_webhook : Part → Option Text
fails_at_webhook ptp_config_webhook = some (codes "no certificate")
fails_at_webhook _ = none

abbrev recorder : ManagerLibrary (List Part) (Unit {0}) Text
recorder = record {
  new_manager = λ options w. (w, ok tt);
  add_part = λ part m w. (w ++ part ∷ [], fails_at_webhook part);
}

set_up-IsSetUp_example : IsSetUp recorder on_a_single_node [] (set_up recorder on_a_single_node [])
set_up-IsSetUp_example = set_up-IsSetUp recorder on_a_single_node []

Reached-creating_example :
    (Path (Option Text) none none) ⊎ ((Path (Option Text) none none) × (serving ≢ serving))
Reached-creating_example =
    Reached-creating none none (some (codes "exists")) none serving
      (goes_on (goes_on begins (wait_returns tt)) (worker_goes_on tt))

exit_status_undetermined_example :
    Reached (some (codes "address in use")) none none (process none exits_with_success waited)
    × Reached none
        (some (codes "timeout"))
        none
        (process (some (codes "timeout")) exits_with_failure waited)
exit_status_undetermined_example =
    exit_status_undetermined (codes "address in use") (codes "timeout") none
