-- ===== src/Manager/Options.antt =====
-- The options that `main` of main.go makes the manager and the webhook server with, from the flags,
-- the leader election and the environment variable WATCH_NAMESPACE.
pub mod Electable
pub mod Namespaces
use ptp_operator_upstream.Base.{
  ℕ, Bool, true, false, Option, none, some, List, [], ◌∷◌, if◌then◌else◌,
}
use ptp_operator_upstream.Base.Text.{Text, codes, same, split}
use ptp_operator_upstream.Base.GoMap.{GoMap, put}
use ptp_operator_upstream.Manager.Election.{LeaderElection}

-- What `flag.Parse` fills.
pub record Flags : Type 0 where
  pub enable_http2 : Bool
  pub metrics_addr : Text
  pub probe_addr : Text
  pub enable_leader_election : Bool

-- The values of the flags that no argument sets.
abbrev pub default_flags : Flags
default_flags = record {
  enable_http2 = false;
  metrics_addr = codes ":8080";
  probe_addr = codes ":8081";
  enable_leader_election = false;
}

-- The protocols that a TLS server offers; the rest of `tls.Config` is left as it is.
pub record TlsConfig : Type 0 where
  pub next_protos : List Text

unfoldable disable_http2 : Flags → TlsConfig → TlsConfig
disable_http2 flags c =
    if flags.enable_http2 then c else record c { next_protos = codes "http/1.1" ∷ [] }

pub record WebhookOptions : Type 0 where
  pub tls_opts : List (TlsConfig → TlsConfig)
  pub port : ℕ

unfoldable webhook_server_options : Flags → WebhookOptions
unfolding disable_http2
webhook_server_options flags = record { tls_opts = disable_http2 flags ∷ []; port = 9443 }

unfoldable pub add_namespaces : GoMap (Unit {0}) → List Text → GoMap (Unit {0})
add_namespaces m [] = m
add_namespaces m (namespace ∷ rest) = add_namespaces (put namespace tt m) rest

-- The namespaces that the cache is restricted to, if it is: the keys of `defaultNamespaces`.
unfoldable pub watched_namespaces : Text → Option (GoMap (Unit {0}))
unfolding add_namespaces
watched_namespaces namespace =
    if same namespace [] then none else some (add_namespaces [] (split b',' namespace))

pub record ManagerOptions : Type 0 where
  pub health_probe_bind_address : Text
  pub leader_election : Bool
  pub lease_duration : ℕ
  pub renew_deadline : ℕ
  pub retry_period : ℕ
  pub leader_election_id : Text
  pub leader_election_release_on_cancel : Bool
  pub metrics_bind_address : Text
  pub webhook_server : WebhookOptions
  pub default_namespaces : Option (GoMap (Unit {0}))

unfoldable pub manager_options : Flags → LeaderElection → Text → ManagerOptions
unfolding webhook_server_options watched_namespaces
manager_options flags le watch_namespace = record {
  health_probe_bind_address = flags.probe_addr;
  leader_election = flags.enable_leader_election;
  lease_duration = le.lease_duration;
  renew_deadline = le.renew_deadline;
  retry_period = le.retry_period;
  leader_election_id = codes "ptp.openshift.io";
  leader_election_release_on_cancel = true;
  metrics_bind_address = flags.metrics_addr;
  webhook_server = webhook_server_options flags;
  default_namespaces = watched_namespaces watch_namespace;
}
