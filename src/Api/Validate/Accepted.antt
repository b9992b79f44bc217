-- ===== src/Api/Validate/Accepted.antt =====
-- Which resources `validate` accepts.
use mathlib.Core.List.Permᴰ
use ptp_operator_upstream.Base.{
  Bool, Option, none, some, List, [], ◌∷◌, ◌≡◌, ◌≢◌, ◌↔◌, inl, inr, refl, Go, ret, panic, arith,
  All, All-perm, Option-cases,
}
use ptp_operator_upstream.Base.Text.{Text, codes}
use ptp_operator_upstream.Base.GoMap.{keys, keys-perm, MapRange}
use ptp_operator_upstream.Api.Ptp4lConf.{Sections, Ptp4lConfSection, ConfError, populate_ptp4l_conf}
use ptp_operator_upstream.Api.Ptp4lConf.Outcome.{error_of, populate_ptp4l_conf-conf_error}
use ptp_operator_upstream.Api.PtpConfig.{PtpProfile, PtpConfig}
use ptp_operator_upstream.Api.Validate.{
  ValidateError, check_interface, check_scheduling, check_settings, ◌or_else◌, validate_profile,
  validate_profiles, validate_create,
}
use ptp_operator_upstream.Api.Validate.Checks.{
  AllowsSections, AllowsSections-perm, IsSetting, check_interface_iff, check_scheduling_iff,
  check_settings_iff,
}

sections_in : Go (Sections × Option ConfError) → Sections
sections_in (ret (m, e)) = m
sections_in panic = []

-- The sections that the parser leaves, whether or not it reports an error.
unfoldable pub sections_of : Option Text → Sections
unfolding sections_in
sections_of config = sections_in (populate_ptp4l_conf config)

pub record IsAccepted (compiles : Text → Bool) (p : PtpProfile) : Type 0 where
  pub interface_sections : AllowsSections p.interface (keys (sections_of p.ptp4l_conf))
  pub fifo_has_priority :
      p.ptp_scheduling_policy ≡ some (codes "SCHED_FIFO") → p.ptp_scheduling_priority ≢ none
  pub settings_known : All (IsSetting compiles) p.ptp_settings

sections_in-ret :
    (r : Go (Sections × Option ConfError)) (e : Option ConfError)
    → error_of r ≡ ret e
    → (r ≡ ret (sections_in r, e))
unfolding sections_in error_of
sections_in-ret (ret (m, f)) e h = ground arith
sections_in-ret panic e h = cc

populate-sections_of :
    (config : Option Text)
    → (e : Option ConfError) × (populate_ptp4l_conf config ≡ ret (sections_of config, e))
unfolding sections_of
populate-sections_of config = (_, sections_in-ret _ _ (populate_ptp4l_conf-conf_error config))

module _ (r : MapRange) (compiles : Text → Bool) where
  profile_error : PtpProfile → Option ValidateError
  profile_error p =
      check_interface p.interface (keys (r.range Ptp4lConfSection (sections_of p.ptp4l_conf)))
      or_else check_scheduling p
      or_else check_settings compiles (r.range Text p.ptp_settings)

  validate_profile-error : (p : PtpProfile) → validate_profile r compiles p ≡ ret (profile_error p)
  unfolding validate_profile profile_error
  validate_profile-error p = rw (populate-sections_of p.ptp4l_conf).1

  profile_error_iff : (p : PtpProfile) → (profile_error p ≡ none) ↔ IsAccepted compiles p
  unfolding profile_error
  profile_error_iff p =
      let sections = sections_of p.ptp4l_conf in
      let moved = keys-perm (r.range_perm Ptp4lConfSection sections) in
      let settings = r.range_perm Text p.ptp_settings in
      (
        λ h. record {
          interface_sections =
              AllowsSections-perm p.interface moved
                ((check_interface_iff p.interface _).0 (ground arith));
          fifo_has_priority = (check_scheduling_iff p).0 (ground arith);
          settings_known = All-perm _ settings ((check_settings_iff compiles _).0 (ground arith));
        },
        λ a.
            rw
              (
                (check_interface_iff p.interface _).1
                    (AllowsSections-perm p.interface (Permᴰ.symm moved) a.interface_sections),
                (check_scheduling_iff p).1 a.fifo_has_priority,
              )
              ((check_settings_iff compiles _).1
                (All-perm _ (Permᴰ.symm settings) a.settings_known)),
      )

  validate_profiles-none :
      (ps : List PtpProfile)
      → (validate_profiles r compiles ps ≡ ret none) ↔ All (IsAccepted compiles) ps
  unfolding validate_profiles
  validate_profiles-none [] = (λ _. tt, λ _. refl)
  validate_profiles-none (p ∷ ps) = elim (Option-cases (profile_error p)) [
    | inl e ↦
        rw (validate_profile-error p, e)
          (
            λ h. ((profile_error_iff p).0 e, (validate_profiles-none ps).0 h),
            λ h. (validate_profiles-none ps).1 h.1,
          )
    | inr (x, e) ↦
        rw (validate_profile-error p, e) (λ h. cc, λ h. cc (e, (profile_error_iff p).1 h.0))
  ]

  validate_profiles_returns :
      (ps : List PtpProfile)
      → (e : Option ValidateError) × (validate_profiles r compiles ps ≡ ret e)
  unfolding validate_profiles
  validate_profiles_returns [] = (none, refl)
  validate_profiles_returns (p ∷ ps) = elim (Option-cases (profile_error p)) [
    | inl e ↦ rw (validate_profile-error p, e) (validate_profiles_returns ps)
    | inr (x, e) ↦ rw (validate_profile-error p, e) (some x, refl)
  ]

-- Whatever the order in which the maps are met, the webhook answers a create request without a
-- panic, and it admits the resource exactly if for every profile: an interface that is set and not
-- empty is the only one that the configuration has a section of, beside "[global]"; the policy
-- SCHED_FIFO comes with a priority; and every setting is a stdoutFilter that compiles, a logReduce
-- that is true or false in any case, or an haProfiles that the pattern of profile names matches.
pub validate_create-IsAccepted :
    (r : MapRange) (compiles : Text → Bool) (config : PtpConfig)
    → ((e : Option ValidateError) × (validate_create r compiles config ≡ ret e))
      × ((validate_create r compiles config ≡ ret none)
          ↔ All (IsAccepted compiles) config.spec.profile)
unfolding validate_create
validate_create-IsAccepted r compiles config = (
  validate_profiles_returns r compiles config.spec.profile,
  validate_profiles-none r compiles config.spec.profile,
)
