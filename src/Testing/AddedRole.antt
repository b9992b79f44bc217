-- ===== src/Testing/AddedRole.antt =====
-- `AddInterface` of test/pkg/testconfig/testconfig.go, against `GetInterfaces` of the webhook.
use mathlib.Core.List.{append_assoc}
use ptp_operator_upstream.Base.{
  ap, true, false, Option, none, some, List, ◌∷◌, ◌++◌, ◌≡◌, refl, ◌∙◌, subst, ret,
}
use ptp_operator_upstream.Base.Distinct.{Has}
use ptp_operator_upstream.Base.Text.{Text, codes, same, same_refl, contains, trim_space}
use ptp_operator_upstream.Base.GoMap.{lookup, MapRange}
use ptp_operator_upstream.Api.PtpConfig.{PtpProfile, PtpConfig}
use ptp_operator_upstream.Api.Ptp4lConf.{Sections, Ptp4lConfSection, populate_ptp4l_conf}
use ptp_operator_upstream.Api.Ptp4lConf.Reading.{get_option, option_in}
use ptp_operator_upstream.Api.Validate.{own_section}
use ptp_operator_upstream.Api.Interfaces.{
  PtpRole, slave, master, role_digit, has_role, bare_name, get_interfaces,
}
use ptp_operator_upstream.Api.Interfaces.Roles.{get_profile_interfaces-Has}
use ptp_operator_upstream.Testing.AddInterface.{
  master_only_line, add_interface, populate_ptp4l_conf-add_interface,
}

digit-has_role :
    (role : PtpRole) (section : Ptp4lConfSection)
    → lookup (codes "masterOnly") section.options ≡ some (role_digit role)
    → has_role role section ≡ true
unfolding has_role trim_space
digit-has_role slave section h = rw h (same_refl (codes "0"))
digit-has_role master section h = rw h (same_refl (codes "1"))

option_in-section :
    (opt : Text) (found : Option Ptp4lConfSection) {value : Text}
    → option_in opt found ≡ some value
    → (section : Ptp4lConfSection) × (found ≡ some section)
      × (lookup opt section.options ≡ some value)
option_in-section opt none h = cc
option_in-section opt (some section) h = (section, refl, h)

added_option :
    (conf interface : Text) (role : PtpRole) {m m' : Sections}
    → contains b'\n' interface ≡ false
    → contains b']' interface ≡ false
    → populate_ptp4l_conf (some conf) ≡ ret (m, none)
    → populate_ptp4l_conf (some (add_interface conf interface role)) ≡ ret (m', none)
    → get_option (own_section interface) (codes "masterOnly") m' ≡ some (role_digit role)
unfolding same
added_option conf interface role line bracket read read' =
    populate_ptp4l_conf-add_interface conf interface role (own_section interface)
      (codes "masterOnly") line bracket read read'
    ∙ rw (same_refl (own_section interface)) refl

-- `fmt.Sprintf("%s\n[%s]\nmasterOnly %d", ptpConfig, iface, masterOnly)`, with 0 for a slave port.
abbrev pub with_port : Text → Text → PtpRole → Text
with_port conf interface slave = conf ++ (codes "\n[" ++ (interface ++ codes "]\nmasterOnly 0"))
with_port conf interface master = conf ++ (codes "\n[" ++ (interface ++ codes "]\nmasterOnly 1"))

added_text :
    (conf interface : Text) (role : PtpRole)
    → add_interface conf interface role ≡ with_port conf interface role
unfolding add_interface master_only_line
added_text conf interface slave =
    ap (λ t. conf ++ (codes "\n[" ++ t))
      (append_assoc interface (codes "]") (codes "\nmasterOnly 0"))
added_text conf interface master =
    ap (λ t. conf ++ (codes "\n[" ++ t))
      (append_assoc interface (codes "]") (codes "\nmasterOnly 1"))

-- A port that `AddInterface` appends to a configuration in a role is one that `GetInterfaces` finds in
-- that role, in whatever order it meets the sections, where the first profile of a resource has the
-- resulting text. The text ends in the digit 0 for a slave port and 1 for a master port. That is if both texts are read without an error, if the name is not "global", and if
-- it has no bracket, no line break and no surrounding space: it is what is left of its header.
pub get_interfaces-add_interface :
    (r : MapRange) (config : PtpConfig) (p : PtpProfile) (ps : List PtpProfile)
    (conf interface : Text) (role : PtpRole) {m m' : Sections}
    → config.spec.profile ≡ p ∷ ps
    → p.ptp4l_conf ≡ some (add_interface conf interface role)
    → contains b'\n' interface ≡ false
    → contains b']' interface ≡ false
    → bare_name (bare_name (own_section interface)) ≡ interface
    → same interface (codes "global") ≡ false
    → populate_ptp4l_conf (some conf) ≡ ret (m, none)
    → populate_ptp4l_conf (some (add_interface conf interface role)) ≡ ret (m', none)
    → (add_interface conf interface role ≡ with_port conf interface role)
      × ((l : List Text) × (get_interfaces r config role ≡ ret l) × Has interface l)
unfolding get_interfaces
get_interfaces-add_interface r config p ps conf interface role {m} {m'} first text line bracket bare
      other read read' =
    let (section, found, digit) =
      option_in-section (codes "masterOnly") (lookup (own_section interface) m')
        (added_option conf interface role line bracket read read') in
    let (l, e, has) =
      get_profile_interfaces-Has r p ps role (own_section interface) section {e = none}
        (rw text read') found (digit-has_role role section digit) (rw bare other) in
    (added_text conf interface role, (l, rw first e, subst (λ t. Has t l) bare has))
