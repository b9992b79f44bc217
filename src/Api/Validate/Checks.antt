-- ===== src/Api/Validate/Checks.antt =====
-- What each check of `validate` accepts.
use mathlib.Core.List.Permᴰ
use ptp_operator_upstream.Base.{
  Bool, true, Option, none, some, List, [], ◌∷◌, ◌≡◌, ◌≢◌, ◌↔◌, ◌⊎◌, inl, inr, refl, arith, All,
  All-perm, Bool-cases, Option-cases,
}
use ptp_operator_upstream.Base.Text.{Text, codes, same, same_iff, to_lower}
use ptp_operator_upstream.Base.GoMap.{GoMap}
use ptp_operator_upstream.Api.Ptp4lConf.{global_section}
use ptp_operator_upstream.Api.HaProfiles.Regex.{Matches}
use ptp_operator_upstream.Api.HaProfiles.Pattern.{profile_reg_ex}
use ptp_operator_upstream.Api.HaProfiles.Matching.{is_profile_list_iff}
use ptp_operator_upstream.Api.PtpConfig.{PtpProfile}
use ptp_operator_upstream.Api.Validate.{
  own_section, allows_section, check_sections, check_interface, is_fifo, check_scheduling,
  check_setting, check_settings,
}

pub data IsSetting (compiles : Text → Bool) : Text × Text → Type 0 where
  stdout_filter :
      {k v : Text} → k ≡ codes "stdoutFilter" → compiles v ≡ true → IsSetting compiles (k, v)
  log_reduce :
      {k v : Text}
      → k ≡ codes "logReduce"
      → (to_lower v ≡ codes "true") ⊎ (to_lower v ≡ codes "false")
      → IsSetting compiles (k, v)
  ha_profiles :
      {k v : Text} → k ≡ codes "haProfiles" → Matches profile_reg_ex v → IsSetting compiles (k, v)

-- Every section of the configuration is "[global]" or the profile's own interface.
abbrev pub AllowsSections : Option Text → List Text → Type 0
AllowsSections none sections = Unit
AllowsSections (some interface) sections =
    (interface ≡ [])
    ⊎ All (λ section. (section ≡ global_section) ⊎ (section ≡ own_section interface)) sections

allows_section_iff :
    (interface section : Text)
    → (allows_section interface section ≡ true)
      ↔ ((section ≡ global_section) ⊎ (section ≡ own_section interface))
unfolding allows_section
allows_section_iff interface section =
    ground (arith, same_iff section global_section, same_iff section (own_section interface))

check_sections_iff :
    (interface : Text) (sections : List Text)
    → (check_sections interface sections ≡ none)
      ↔ All (λ section. (section ≡ global_section) ⊎ (section ≡ own_section interface)) sections
unfolding check_sections
check_sections_iff interface [] = (λ _. tt, λ _. refl)
check_sections_iff interface (section ∷ rest) =
    ground (arith, allows_section_iff interface section, check_sections_iff interface rest)

pub check_interface_iff :
    (interface : Option Text) (sections : List Text)
    → (check_interface interface sections ≡ none) ↔ AllowsSections interface sections
unfolding check_interface
check_interface_iff none sections = (λ _. tt, λ _. refl)
check_interface_iff (some i) sections = ground (arith, same_iff i [], check_sections_iff i sections)

pub check_scheduling_iff :
    (p : PtpProfile)
    → (check_scheduling p ≡ none)
      ↔ (p.ptp_scheduling_policy ≡ some (codes "SCHED_FIFO") → p.ptp_scheduling_priority ≢ none)
unfolding check_scheduling is_fifo
check_scheduling_iff p = elim (Option-cases p.ptp_scheduling_policy) [
  | inl e ↦ ground arith
  | inr (t, e) ↦ ground (arith, same_iff t (codes "SCHED_FIFO"))
]

check_setting-IsSetting :
    (compiles : Text → Bool) (k v : Text)
    → check_setting compiles (k, v) ≡ none
    → IsSetting compiles (k, v)
unfolding check_setting
check_setting-IsSetting compiles k v h = elim (Bool-cases (same k (codes "stdoutFilter"))) [
  | inl e ↦ stdout_filter ((same_iff k _).0 e) (ground arith)
  | inr e ↦ elim (Bool-cases (same k (codes "logReduce"))) [
    | inl f ↦ log_reduce ((same_iff k _).0 f) (
        ground (arith, same_iff (to_lower v) (codes "true"), same_iff (to_lower v) (codes "false")))
    | inr f ↦ elim (Bool-cases (same k (codes "haProfiles"))) [
      | inl g ↦ ha_profiles ((same_iff k _).0 g) ((is_profile_list_iff v).0 (ground arith))
      | inr g ↦ absurd (ground arith)
    ]
  ]
]

IsSetting-check_setting :
    {compiles : Text → Bool} {kv : Text × Text}
    → IsSetting compiles kv
    → check_setting compiles kv ≡ none
unfolding check_setting
IsSetting-check_setting (stdout_filter {k} {v} e c) =
    ground (arith, same_iff k (codes "stdoutFilter"))
IsSetting-check_setting (log_reduce {k} {v} e c) = ground (
  arith,
  same_iff k (codes "stdoutFilter"),
  same_iff k (codes "logReduce"),
  same_iff (to_lower v) (codes "true"),
  same_iff (to_lower v) (codes "false"),
)
IsSetting-check_setting (ha_profiles {k} {v} e m) = ground (
  arith,
  same_iff k (codes "stdoutFilter"),
  same_iff k (codes "logReduce"),
  same_iff k (codes "haProfiles"),
  (is_profile_list_iff v).1 m,
)

pub check_settings_iff :
    (compiles : Text → Bool) (settings : GoMap Text)
    → (check_settings compiles settings ≡ none) ↔ All (IsSetting compiles) settings
unfolding check_settings
check_settings_iff compiles [] = (λ _. tt, λ _. refl)
check_settings_iff compiles (kv ∷ rest) = (
  λ h. (
    check_setting-IsSetting compiles kv.0 kv.1 (ground arith),
    (check_settings_iff compiles rest).0 (ground arith),
  ),
  λ h. rw (IsSetting-check_setting h.0) ((check_settings_iff compiles rest).1 h.1),
)

pub AllowsSections-perm :
    (interface : Option Text) {xs ys : List Text}
    → Permᴰ.Permᴰ xs ys
    → AllowsSections interface xs
    → AllowsSections interface ys
AllowsSections-perm none p h = tt
AllowsSections-perm (some i) p (inl e) = inl e
AllowsSections-perm (some i) p (inr h) = inr (All-perm _ p h)
