-- ===== src/Manager/Election.antt =====
-- `GetLeaderElectionConfig` of pkg/leaderelection/leaderelection.go. The configuration record is
-- that of the OpenShift API; its two default functions and the status of the cluster's
-- infrastructure are parameters.
use ptp_operator_upstream.Base.{ℕ, Bool, not, Option, none, some, [], if◌then◌else◌}
use ptp_operator_upstream.Base.Text.{Text, codes, same}

-- Durations are in nanoseconds.
pub record LeaderElection : Type 0 where
  pub disable : Bool
  pub namespace : Text
  pub name : Text
  pub lease_duration : ℕ
  pub renew_deadline : ℕ
  pub retry_period : ℕ

-- `LeaderElectionDefaulting` and `LeaderElectionSNOConfig`.
pub record ElectionLibrary : Type 0 where
  pub leader_election_defaulting : LeaderElection → Text → Text → LeaderElection
  pub leader_election_sno_config : LeaderElection → LeaderElection

-- The configuration that asks for every default.
unfoldable pub blank_election : Bool → LeaderElection
blank_election enabled = record {
  disable = not enabled;
  namespace = [];
  name = [];
  lease_duration = 0;
  renew_deadline = 0;
  retry_period = 0;
}

-- `SingleReplicaTopologyMode`.
abbrev pub single_replica_topology_mode : Text
single_replica_topology_mode = codes "SingleReplica"

-- What `GetClusterInfraStatus` answers: the topology in the status, if there is one, and the error.
abbrev pub InfraStatus : Type 0 → Type 0
InfraStatus E = Option Text × Option E

module _ {E : Type 0} (library : ElectionLibrary) where
  unfoldable pub adapt_to_topology : LeaderElection → InfraStatus E → LeaderElection
  adapt_to_topology election (some topology, none) =
      if same topology single_replica_topology_mode
      then library.leader_election_sno_config election
      else election
  adapt_to_topology election (some topology, some e) = election
  adapt_to_topology election (none, e) = election

  unfoldable pub get_leader_election_config : InfraStatus E → Bool → LeaderElection
  unfolding adapt_to_topology blank_election
  get_leader_election_config status enabled =
      let default_election = library.leader_election_defaulting (blank_election enabled) [] [] in
      if enabled then adapt_to_topology default_election status else default_election
