-- ===== src/Api/Interfaces.antt =====
-- `getInterfaces` and `GetInterfaces` of api/v1/ptpconfig_webhook.go: the interfaces of a clock in
-- one role. The warnings that the source logs are left out.
pub mod Roles
use ptp_operator_upstream.Base.{
  ℕ, Bool, true, false, ◌&&◌, Option, none, some, List, [], ◌∷◌, ◌++◌, Go, ret, ◌>>=◌,
  if◌then◌else◌,
}
use ptp_operator_upstream.Base.Text.{Text, codes, same, trim_space, remove_all}
use ptp_operator_upstream.Base.GoMap.{GoMap, lookup, MapRange}
use ptp_operator_upstream.Api.Ptp4lConf.{Sections, Ptp4lConfSection, ConfError, populate_ptp4l_conf}
use ptp_operator_upstream.Api.PtpConfig.{PtpProfile, PtpConfig}

-- `PtpRole`: Slave is 0 and Master is 1.
pub data PtpRole : Type 0 where
  slave master : PtpRole

-- `strconv.Itoa(int(mode))`.
abbrev pub role_digit : PtpRole → Text
role_digit slave = codes "0"
role_digit master = codes "1"

-- `strings.ReplaceAll(strings.ReplaceAll(s, "[", ""), "]", "")`, trimmed.
unfoldable pub bare_name : Text → Text
bare_name index = trim_space (remove_all b']' (remove_all b'[' index))

-- A missing key of a Go map reads as the empty string.
abbrev pub or_empty : Option Text → Text
or_empty none = []
or_empty (some v) = v

unfoldable pub has_role : PtpRole → Ptp4lConfSection → Bool
has_role mode section =
    same (trim_space (or_empty (lookup (codes "masterOnly") section.options))) (role_digit mode)

unfoldable pub select_interfaces : PtpRole → GoMap Ptp4lConfSection → List Text
select_interfaces mode [] = []
select_interfaces mode ((index, section) ∷ rest) =
    let later = select_interfaces mode rest in
    if has_role mode section then bare_name (bare_name index) ∷ later else later

-- `getInterfaces`.
unfoldable pub get_section_interfaces : MapRange → Sections → PtpRole → List Text
get_section_interfaces r sections mode = select_interfaces mode (r.range Ptp4lConfSection sections)

abbrev pub to_list {ℓ} : {A : Type ℓ} → Option A → List A
to_list none = []
to_list (some a) = a ∷ []

-- "global" stands for the profile's own interface, if it has one.
unfoldable pub replace_global : Option Text → List Text → List Text
replace_global interface [] = []
replace_global interface (name ∷ rest) =
    (if same name (codes "global") then to_list interface else name ∷ [])
    ++ replace_global interface rest

-- With no interface found, a slave falls back on the profile's own one.
unfoldable pub fallback : PtpRole → Option Text → List Text → List Text
fallback slave interface [] = to_list interface
fallback _ interface _ = []

-- `GetInterfaces`. Only the first profile counts.
unfoldable pub get_profile_interfaces : MapRange → List PtpProfile → PtpRole → Go (List Text)
get_profile_interfaces r [] mode = ret []
get_profile_interfaces r (p ∷ _) mode = do
  (sections, _) ← populate_ptp4l_conf p.ptp4l_conf
  let interfaces = get_section_interfaces r sections mode
  ret (replace_global p.interface interfaces ++ fallback mode p.interface interfaces)

unfoldable pub get_interfaces : MapRange → PtpConfig → PtpRole → Go (List Text)
unfolding get_profile_interfaces
get_interfaces r config mode = get_profile_interfaces r config.spec.profile mode
