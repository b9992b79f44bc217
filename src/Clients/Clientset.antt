-- ===== src/Clients/Clientset.antt =====
-- The constructors of the clients: pkg/client/clientset/versioned/clientset.go and ptp_client.go of
-- its typed clients. The REST and discovery clients and the rate limiter are parameters.
pub mod Made
use ptp_operator_upstream.Base.{
  ℕ, Bool, true, false, not, ◌&&◌, Option, none, some, [], Result, ok, fail, ◌then◌, Go, ret, panic,
  ◌>>=◌, if◌then◌else◌,
}
use ptp_operator_upstream.Base.Int.{ℤ, pos, lt_ℤ}
use ptp_operator_upstream.Base.Text.{Text, codes, same}

-- The fields of `rest.Config` that the code reads or sets; `X` is the rest of it, `G` the type of a
-- limiter, `Q` that of the queries per second, `N` that of a serializer.
pub record RestConfig (G Q N X : Type 0) : Type 0 where
  pub rate_limiter : Option G
  pub qps : Q
  pub burst : ℤ
  pub user_agent : Text
  pub group_version : Option (Text × Text)
  pub api_path : Text
  pub negotiated_serializer : Option N
  pub others : X

-- The vendored constructors, with the test `QPS > 0` on a floating-point number.
pub record RestLibrary (G Q N X R D E : Type 0) : Type 0 where
  pub is_positive : Q → Bool
  pub new_token_bucket_rate_limiter : Q → ℤ → G
  pub default_kubernetes_user_agent : Text
  pub codecs_without_conversion : N
  pub rest_client_for : RestConfig G Q N X → Result E R
  pub new_discovery_client_for_config : RestConfig G Q N X → Result E D

-- `PtpV1Client`.
pub record PtpV1Client (R : Type 0) : Type 0 where
  pub rest_client : R

pub record Clientset (R D : Type 0) : Type 0 where
  pub discovery_client : D
  pub ptp_v1 : PtpV1Client R

pub data ClientsetError (E : Type 0) : Type 0 where
  burst_required : ClientsetError E
  no_ptp_client no_discovery_client : E → ClientsetError E

-- `RESTClient`, which a nil client answers with nil.
unfoldable rest_client_of : {R : Type 0} → Option (PtpV1Client R) → Option R
rest_client_of none = none
rest_client_of (some c) = some c.rest_client

module _ {G Q N X R D E : Type 0} (k : RestLibrary G Q N X R D E) where
  unfoldable pub set_config_defaults : RestConfig G Q N X → RestConfig G Q N X
  set_config_defaults config = record config {
    group_version = some (codes "ptp.openshift.io", codes "v1");
    api_path = codes "/apis";
    negotiated_serializer = some k.codecs_without_conversion;
    user_agent =
        if same config.user_agent [] then k.default_kubernetes_user_agent else config.user_agent;
  }

  -- `NewForConfig` of the typed client.
  unfoldable pub new_ptp_client : RestConfig G Q N X → Result E (PtpV1Client R)
  unfolding set_config_defaults
  new_ptp_client c =
      k.rest_client_for (set_config_defaults c) then λ r. ok (record { rest_client = r })

  abbrev pub is_nil : Option G → Bool
  is_nil none = true
  is_nil (some g) = false

  -- A limiter, if there is none and one is asked for.
  unfoldable pub limit_rate : RestConfig G Q N X → Result (ClientsetError E) (RestConfig G Q N X)
  limit_rate c =
      if is_nil c.rate_limiter && k.is_positive c.qps
      then if not (lt_ℤ (pos 0) c.burst)
        then fail burst_required
        else ok (record c { rate_limiter = some (k.new_token_bucket_rate_limiter c.qps c.burst) })
      else ok c

  abbrev pub or_error :
      {A : Type 0} → (E → ClientsetError E) → Result E A → Result (ClientsetError E) A
  or_error f (ok a) = ok a
  or_error f (fail e) = fail (f e)

  -- `NewForConfig`.
  unfoldable pub new_clientset : RestConfig G Q N X → Result (ClientsetError E) (Clientset R D)
  unfolding limit_rate new_ptp_client
  new_clientset c = limit_rate c then λ c'. or_error no_ptp_client (new_ptp_client c') then λ p.
      or_error no_discovery_client (k.new_discovery_client_for_config c') then λ d.
      ok (record { discovery_client = d; ptp_v1 = p })

  abbrev or_die : {A : Type 0} → Result E A → Go A
  or_die (ok a) = ret a
  or_die (fail e) = panic

  -- `NewForConfigOrDie`, which makes no limiter of its own.
  unfoldable new_clientset_or_die : RestConfig G Q N X → Go (Clientset R D)
  unfolding new_ptp_client
  new_clientset_or_die c = or_die (new_ptp_client c) >>= λ p.
      or_die (k.new_discovery_client_for_config c) >>= λ d.
      ret (record { discovery_client = d; ptp_v1 = p })
