-- ===== src/Api/OperatorConfig.antt =====
-- api/v1/ptpoperatorconfig_types.go, and the admission webhook of
-- api/v1/ptpoperatorconfig_webhook.go. The version parser of the semver library is the argument
-- `parses`; a plugin's settings are the raw bytes of a JSON value, or a nil pointer.
use ptp_operator_upstream.Base.{
  Bool, true, false, not, ◌&&◌, Option, none, some, [], ◌≡◌, ◌↔◌, ◌⊎◌, inl, inr, refl, arith,
  Bool-cases, if◌then◌else◌,
}
use ptp_operator_upstream.Base.Text.{Text, codes, same, same_iff}
use ptp_operator_upstream.Base.GoMap.{GoMap}

pub record PtpEventConfig : Type 0 where
  pub enable_event_publisher : Bool
  pub transport_host : Text
  pub storage_type : Text
  pub api_version : Text

pub record PtpOperatorConfigSpec : Type 0 where
  pub daemon_node_selector : GoMap Text
  pub event_config : Option PtpEventConfig
  pub enabled_plugins : Option (GoMap (Option Text))

pub record PtpOperatorConfig : Type 0 where
  pub name : Text
  pub namespace : Text
  pub spec : PtpOperatorConfigSpec

pub data OperatorConfigError : Type 0 where
  not_the_default : OperatorConfigError
  invalid_version : Text → OperatorConfigError

-- `isValidVersion` is `parses`.
unfoldable pub check_event_config :
    (Text → Bool) → Option PtpEventConfig → Option OperatorConfigError
check_event_config parses none = none
check_event_config parses (some c) =
    if c.enable_event_publisher
    then if not (same c.api_version []) && not (parses c.api_version)
      then some (invalid_version c.api_version)
      else none
    else none

unfoldable validate_operator_config : (Text → Bool) → PtpOperatorConfig → Option OperatorConfigError
validate_operator_config parses config =
    if not (same config.name (codes "default"))
    then some not_the_default
    else check_event_config parses config.spec.event_config

unfoldable pub validate_operator_create :
    (Text → Bool) → PtpOperatorConfig → Option OperatorConfigError
unfolding validate_operator_config
validate_operator_create parses config = validate_operator_config parses config

unfoldable pub validate_operator_update :
    (Text → Bool) → PtpOperatorConfig → PtpOperatorConfig → Option OperatorConfigError
unfolding validate_operator_config
validate_operator_update parses config old = validate_operator_config parses config

unfoldable validate_operator_delete : PtpOperatorConfig → Option OperatorConfigError
validate_operator_delete config = none

-- A publisher that is on has no version set, or a valid one.
abbrev pub HasValidVersion : (Text → Bool) → Option PtpEventConfig → Type 0
HasValidVersion parses none = Unit
HasValidVersion parses (some c) =
    (c.enable_event_publisher ≡ false) ⊎ ((c.api_version ≡ []) ⊎ (parses c.api_version ≡ true))

check_event_config_iff :
    (parses : Text → Bool) (event : Option PtpEventConfig)
    → (check_event_config parses event ≡ none) ↔ HasValidVersion parses event
unfolding check_event_config
check_event_config_iff parses none = ((λ h. tt), (λ h. refl))
check_event_config_iff parses (some c) = ground (arith, same_iff c.api_version [])

validate_operator_config_iff :
    (parses : Text → Bool) (config : PtpOperatorConfig)
    → (validate_operator_config parses config ≡ none)
      ↔ ((config.name ≡ codes "default") × HasValidVersion parses config.spec.event_config)
unfolding validate_operator_config
validate_operator_config_iff parses config =
    let name_iff = same_iff config.name (codes "default") in
    let event_iff = check_event_config_iff parses config.spec.event_config in
    elim (Bool-cases (same config.name (codes "default"))) [
      | inl e ↦ rw e ((λ h. (name_iff.0 e, event_iff.0 h)), (λ p. event_iff.1 p.1))
      | inr e ↦ rw e ((λ h. absurd (ground (arith, h))), (λ p. cc (e, name_iff.1 p.0)))
    ]

-- The webhook admits an operator configuration, at its creation and at every update, if and only if
-- it is named "default" and, where its event publisher is on, its API version is empty or valid.
pub validate_operator_create_iff :
    (parses : Text → Bool) (config old : PtpOperatorConfig)
    → ((validate_operator_create parses config ≡ none)
        ↔ ((config.name ≡ codes "default") × HasValidVersion parses config.spec.event_config))
      × ((validate_operator_update parses config old ≡ none)
          ↔ ((config.name ≡ codes "default") × HasValidVersion parses config.spec.event_config))
unfolding validate_operator_create validate_operator_update
validate_operator_create_iff parses config old =
    (validate_operator_config_iff parses config, validate_operator_config_iff parses config)
