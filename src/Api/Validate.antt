-- ===== src/Api/Validate.antt =====
-- `PtpConfig.validate` of api/v1/ptpconfig_webhook.go and the admission handlers that call it.
-- An error is a constructor with the values that its message quotes. `regexp.Compile` is the
-- argument `compiles`; a `range` over a map goes in the order of `r`.
pub mod Checks
pub mod Accepted
use ptp_operator_upstream.Base.{
  ℕ, Bool, true, false, not, ◌&&◌, Option, none, some, List, [], ◌∷◌, ◌++◌, Go, ret, ◌>>=◌,
  if◌then◌else◌,
}
use ptp_operator_upstream.Base.Text.{Text, codes, same, to_lower}
use ptp_operator_upstream.Base.GoMap.{GoMap, keys, MapRange}
use ptp_operator_upstream.Api.Ptp4lConf.{
  Sections, Ptp4lConfSection, ConfError, populate_ptp4l_conf, global_section,
}
use ptp_operator_upstream.Api.HaProfiles.{is_profile_list}
use ptp_operator_upstream.Api.PtpConfig.{PtpProfile, PtpConfig}

pub data ValidateError : Type 0 where
  section_not_allowed : Text → ValidateError
  priority_not_set : ValidateError
  stdout_filter_invalid : Text → ValidateError
  log_reduce_invalid : Text → ValidateError
  ha_profiles_invalid : Text → ValidateError
  not_configurable : Text → ValidateError

-- The interface's own section: `"[" + *profile.Interface + "]"`.
abbrev pub own_section : Text → Text
own_section interface = codes "[" ++ (interface ++ codes "]")

unfoldable pub allows_section : Text → Text → Bool
allows_section interface section =
    if not (same section global_section) then same section (own_section interface) else true

unfoldable pub check_sections : Text → List Text → Option ValidateError
check_sections interface [] = none
check_sections interface (section ∷ rest) =
    let later = check_sections interface rest in
    if allows_section interface section then later else some (section_not_allowed section)

-- An interface that is set and not empty admits no section of another one.
unfoldable pub check_interface : Option Text → List Text → Option ValidateError
check_interface none sections = none
check_interface (some interface) sections =
    if same interface [] then none else check_sections interface sections

unfoldable pub is_fifo : Option Text → Bool
is_fifo none = false
is_fifo (some policy) = same policy (codes "SCHED_FIFO")

unfoldable pub check_scheduling : PtpProfile → Option ValidateError
check_scheduling p =
    if is_fifo p.ptp_scheduling_policy
    then elim p.ptp_scheduling_priority [ none ↦ some priority_not_set | some _ ↦ none ]
    else none

unfoldable pub check_setting : (Text → Bool) → Text × Text → Option ValidateError
check_setting compiles (k, v) =
    if same k (codes "stdoutFilter")
    then if compiles v then none else some (stdout_filter_invalid v)
    else if same k (codes "logReduce")
    then if not (same (to_lower v) (codes "true")) && not (same (to_lower v) (codes "false"))
      then some (log_reduce_invalid (to_lower v))
      else none
    else if same k (codes "haProfiles")
    then if not (is_profile_list v) then some (ha_profiles_invalid v) else none
    else some (not_configurable k)

-- `if err != nil { return err }` in front of what follows.
infixr 6 ◌or_else◌
abbrev pub ◌or_else◌ {ℓ} : {E : Type ℓ} → Option E → Option E → Option E
none or_else later = later
some e or_else later = some e

unfoldable pub check_settings : (Text → Bool) → GoMap Text → Option ValidateError
check_settings compiles [] = none
check_settings compiles (kv ∷ rest) = check_setting compiles kv or_else check_settings compiles rest

-- The body of the loop over the profiles. The error of `populatePtp4lConf` is dropped.
unfoldable pub validate_profile : MapRange → (Text → Bool) → PtpProfile → Go (Option ValidateError)
validate_profile r compiles p = do
  (sections, _) ← populate_ptp4l_conf p.ptp4l_conf
  ret (
      check_interface p.interface (keys (r.range Ptp4lConfSection sections))
      or_else check_scheduling p
      or_else check_settings compiles (r.range Text p.ptp_settings))

unfoldable pub validate_profiles :
    MapRange → (Text → Bool) → List PtpProfile → Go (Option ValidateError)
validate_profiles r compiles [] = ret none
validate_profiles r compiles (p ∷ ps) = do
  error ← validate_profile r compiles p
  elim error [ some e ↦ ret (some e) | none ↦ validate_profiles r compiles ps ]

unfoldable pub validate : MapRange → (Text → Bool) → PtpConfig → Go (Option ValidateError)
unfolding validate_profiles
validate r compiles config = validate_profiles r compiles config.spec.profile

-- `ValidateCreate`, `ValidateUpdate` (which does not look at the old object) and `ValidateDelete`,
-- without their warnings, of which there are none.
unfoldable pub validate_create : MapRange → (Text → Bool) → PtpConfig → Go (Option ValidateError)
unfolding validate
validate_create r compiles config = validate r compiles config

unfoldable validate_update :
    MapRange → (Text → Bool) → PtpConfig → PtpConfig → Go (Option ValidateError)
unfolding validate
validate_update r compiles config old = validate r compiles config

unfoldable validate_delete : PtpConfig → Go (Option ValidateError)
validate_delete config = ret none
