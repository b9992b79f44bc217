-- ===== src/Clients/Tests.antt =====
-- Runs of the clients of pkg/client, and their theorems at them.
use ptp_operator_upstream.Base.{ℕ, ◌^◌, ◌<◌, Bool, refl, none, some, [], ◌∷◌, ◌≡◌, arith, ok, ltb}
use ptp_operator_upstream.Base.Int.{ℤ, pos}
use ptp_operator_upstream.Base.Text.{Text, codes, same}
use ptp_operator_upstream.Clients.Types.{OptionTypes, ListOptions, new_delete_action}
use ptp_operator_upstream.Clients.Typed.{request_timeout}
use ptp_operator_upstream.Clients.Fakes.{
  group_version_resource, fake_client, fake_ptp_configs, ObjectList, matching, list_result,
}
use ptp_operator_upstream.Clients.Clientset.{RestConfig, RestLibrary, new_clientset}
use ptp_operator_upstream.Clients.Clientset.Made.{IsMade, new_clientset-IsMade}

-- The options are nothing, but for selectors by a label.
abbrev plain_options : OptionTypes
plain_options = record {
  get_options = Unit {0};
  create_options = Unit {0};
  update_options = Unit {0};
  delete_options = Unit {0};
  patch_options = Unit {0};
  selectors = Text;
}

-- An object is its name with a label.
abbrev name_of : Text × Text → Text
name_of o = o.0

-- `Watch` is given its own field `Watch` once unset and once set: the requests are the same.
abbrev watch_options : Bool → ListOptions plain_options
watch_options b = record { timeout_seconds = some 60; watch = b; selector = codes "edge" }

abbrev two_objects : ObjectList Text (Text × Text)
two_objects = record {
  list_meta = codes "7";
  items = (codes "a", codes "edge") ∷ (codes "b", codes "core") ∷ [];
}

abbrev selects : Text → Text × Text → Bool
selects label o = same o.1 label

run_list_result :
    (list_result {E = Text} selects (some (codes "edge")) (some two_objects, none)
      ≡ (some (record two_objects { items = (codes "a", codes "edge") ∷ [] }), none))
    × (list_result {E = Text} selects none (some two_objects, none) ≡ (some two_objects, none))
    × (list_result {L = Text} {E = Text} selects (some (codes "edge")) (none, none) ≡ (none, none))
unfolding list_result matching same
run_list_result = (refl, refl, refl)

-- A fake passes on the name alone of a call to delete.
run_fake_delete :
    (fake_ptp_configs {v = plain_options} {O = Text × Text} (codes "ptp")).delete_object
      (codes "a")
      tt
    ≡ new_delete_action (group_version_resource (codes "ptpconfigs")) (codes "ptp") (codes "a")
unfolding fake_ptp_configs fake_client
run_fake_delete = refl

-- One second more, and the duration is negative.
overflows : 2 ^ 63 < request_timeout (some 9223372037)
unfolding request_timeout
overflows = omega arith

-- The queries per second are a number of thousandths; a limiter is its two numbers.
abbrev Config : Type 0
Config = RestConfig (ℕ × ℤ) ℕ Text Text

abbrev five_per_second : Config
five_per_second = record {
  rate_limiter = none;
  qps = 5000;
  burst = pos 10;
  user_agent = [];
  group_version = none;
  api_path = [];
  negotiated_serializer = none;
  others = codes "https://api.example";
}

abbrev local_library : RestLibrary (ℕ × ℤ) ℕ Text Text Config Config Text
local_library = record {
  is_positive = λ q. ltb 0 q;
  new_token_bucket_rate_limiter = λ q b. (q, b);
  default_kubernetes_user_agent = codes "ptp-operator";
  codecs_without_conversion = codes "json";
  rest_client_for = λ c. ok c;
  new_discovery_client_for_config = λ c. ok c;
}

new_clientset-IsMade_example :
    IsMade local_library five_per_second (new_clientset local_library five_per_second)
new_clientset-IsMade_example = new_clientset-IsMade local_library five_per_second
