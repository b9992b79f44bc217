-- ===== src/Manager/Options/Electable.antt =====
-- The durations of the leader election.
use ptp_operator_upstream.Base.{
  ℕ, ◌*◌, ◌<◌, Bool, true, false, Option, none, some, [], ◌≡◌, ◌⊎◌, refl, sym, ap, arith,
  Bool-cases, inl, inr,
}
use ptp_operator_upstream.Base.Text.{Text, same, same_iff}
use ptp_operator_upstream.Manager.Election.{
  LeaderElection, ElectionLibrary, InfraStatus, blank_election, single_replica_topology_mode,
  adapt_to_topology, get_leader_election_config,
}
use ptp_operator_upstream.Manager.Options.{Flags, ManagerOptions, manager_options}
use ptp_operator_upstream.Manager.Wait.{second}

-- The lease, the deadline of its renewal and the retry period.
abbrev Durations : Type 0
Durations = ℕ × ℕ × ℕ

abbrev durations_of : LeaderElection → Durations
durations_of le = (le.lease_duration, le.renew_deadline, le.retry_period)

abbrev HasDurations : ℕ → ℕ → ℕ → Durations → Type 0
HasDurations lease renew retry d =
    (d.0 ≡ lease * second) × (d.1 ≡ renew * second) × (d.2 ≡ retry * second)

-- The documented values: 137, 107 and 26 seconds where no duration is given, and 270, 240 and 60
-- seconds on a single node.
abbrev FollowsConventions : ElectionLibrary → Type 0
FollowsConventions library =
    ((enabled : Bool)
      → HasDurations 137 107 26
          (durations_of (library.leader_election_defaulting (blank_election enabled) [] [])))
    × ((le : LeaderElection)
        → HasDurations 270 240 60 (durations_of (library.leader_election_sno_config le)))

-- What the election client accepts: the lease outlives the deadline of its renewal, which outlives
-- a retry period that is stretched by a fifth, and no duration is zero.
abbrev IsElectable : Durations → Type 0
IsElectable d = (d.1 < d.0) × (6 * d.2 < 5 * d.1) × (0 < d.2)

-- The cluster has told, without an error, that its control plane is a single replica.
abbrev IsSingleReplica : {E : Type 0} → InfraStatus E → Type 0
IsSingleReplica status = status ≡ (some single_replica_topology_mode, none)

abbrev OnSingleReplica : {E : Type 0} → Bool → InfraStatus E → Type 0
OnSingleReplica enabled status = (enabled ≡ true) × IsSingleReplica status

-- The long durations for an election on a single replica, and the short ones in every other case.
abbrev HasFittingDurations : {E : Type 0} → Bool → InfraStatus E → Durations → Type 0
HasFittingDurations enabled status d =
    (OnSingleReplica enabled status × HasDurations 270 240 60 d)
    ⊎ ((¬ OnSingleReplica enabled status) × HasDurations 137 107 26 d)

-- The options have the durations that fit the flags and the cluster, and the election client accepts
-- them.
abbrev pub HasAcceptedDurations : {E : Type 0} → Flags → InfraStatus E → ManagerOptions → Type 0
HasAcceptedDurations flags status o =
    let d : Durations = (o.lease_duration, o.renew_deadline, o.retry_period) in
    HasFittingDurations flags.enable_leader_election status d × IsElectable d

topology_of : {E : Type 0} → InfraStatus E → Text
topology_of status = elim status.0 [ none ↦ [] | some topology ↦ topology ]

other_topology :
    {E : Type 0} (topology : Text)
    → same topology single_replica_topology_mode ≡ false
    → ¬ IsSingleReplica {E = E} (some topology, none)
unfolding topology_of
other_topology {E = E} topology other h =
    let named : topology ≡ single_replica_topology_mode = ap (λ x. topology_of {E = E} x) h in
    cc (other, (same_iff topology single_replica_topology_mode).1 named)

not_none : {E : Type 0} (e : E) → Path (Option E) (some e) none → ⊥
not_none e h = ground (arith, h)

module _ {E : Type 0} (library : ElectionLibrary) (conventions : FollowsConventions library) where
  adapt-HasFittingDurations :
      (le : LeaderElection) (status : InfraStatus E)
      → HasDurations 137 107 26 (durations_of le)
      → HasFittingDurations true status (durations_of (adapt_to_topology library le status))
  unfolding adapt_to_topology
  adapt-HasFittingDurations le (some topology, none) h =
      elim (Bool-cases (same topology single_replica_topology_mode)) [
        | inl e ↦
            rw e (inl ((refl, ap (λ t. (some t, none)) ((same_iff _ _).0 e)), conventions.1 le))
        | inr e ↦ rw e (inr ((λ on. other_topology topology e on.1), h))
      ]
  adapt-HasFittingDurations le (some topology, some e) h =
      inr ((λ on. not_none e (ap (λ x. x.1) on.1)), h)
  adapt-HasFittingDurations le (none, e) h =
      inr ((λ on. not_none single_replica_topology_mode (sym (ap (λ x. x.0) on.1))), h)

  election-HasFittingDurations :
      (enabled : Bool) (status : InfraStatus E)
      → HasFittingDurations enabled status
          (durations_of (get_leader_election_config library status enabled))
  unfolding get_leader_election_config
  election-HasFittingDurations true status =
      adapt-HasFittingDurations (library.leader_election_defaulting (blank_election true) [] [])
        status (conventions.0 true)
  election-HasFittingDurations false status = inr ((λ on. cc (on.0)), conventions.0 false)

HasFittingDurations-IsElectable :
    {E : Type 0} (enabled : Bool) (status : InfraStatus E) (d : Durations)
    → HasFittingDurations enabled status d
    → IsElectable d
HasFittingDurations-IsElectable enabled status d (inl (_, h)) =
    (omega (arith, h.0, h.1), omega (arith, h.1, h.2), omega (arith, h.2))
HasFittingDurations-IsElectable enabled status d (inr (_, h)) =
    (omega (arith, h.0, h.1), omega (arith, h.1, h.2), omega (arith, h.2))

-- If the library follows its documented conventions, the manager is set up with 270, 240 and 60 seconds
-- if the flags ask for an election and the cluster has told, without an error, that its control plane
-- is a single replica. In every other case, that of an infrastructure that cannot be read included, it
-- is with 137, 107 and 26 seconds. Either way the election client accepts the three durations.
pub manager_options-HasAcceptedDurations :
    {E : Type 0} (library : ElectionLibrary)
    → FollowsConventions library
    → (flags : Flags) (status : InfraStatus E) (watch_namespace : Text)
    → HasAcceptedDurations flags status (
        manager_options flags
          (get_leader_election_config library status flags.enable_leader_election)
          watch_namespace)
unfolding manager_options
manager_options-HasAcceptedDurations library conventions flags status watch_namespace =
    let fitting =
      election-HasFittingDurations library conventions flags.enable_leader_election status in
    let d = durations_of (get_leader_election_config library status flags.enable_leader_election) in
    (fitting, HasFittingDurations-IsElectable flags.enable_leader_election status d fitting)
