-- ===== src/Testing/AddInterface.antt =====
-- `AddInterface` of test/pkg/testconfig/testconfig.go, against the parser of the webhook. The
-- callers of the source pass 0 or 1 for `masterOnly`, the two roles of a port.
use ptp_operator_upstream.Base.{
  Bool, true, false, ◌&&◌, Option, none, some, List, [], ◌∷◌, ◌++◌, ◌≡◌, refl, sym, ap, ◌∙◌, ret,
  if◌then◌else◌,
}
use ptp_operator_upstream.Base.Text.{
  Text, codes, same, starts_with, contains, until, after, split, trim_space,
}
use ptp_operator_upstream.Base.Text.Split.{split-append, split_whole, contains-append, until-append}
use ptp_operator_upstream.Api.Ptp4lConf.{Sections, populate_ptp4l_conf, config_text}
use ptp_operator_upstream.Api.Ptp4lConf.Rounds.{header_name, is_option}
use ptp_operator_upstream.Api.Ptp4lConf.Reading.{
  get_option, enters, updates, scan, populate_ptp4l_conf-scan,
}
use ptp_operator_upstream.Api.Validate.{own_section}
use ptp_operator_upstream.Api.Interfaces.{PtpRole, master, slave, role_digit}

unfoldable pub master_only_line : PtpRole → Text
master_only_line role = codes "masterOnly " ++ role_digit role

unfoldable pub add_interface : Text → Text → PtpRole → Text
unfolding master_only_line
add_interface conf interface role =
    conf ++ (codes "\n" ++ (own_section interface ++ (codes "\n" ++ master_only_line role)))

-- Whether the lines after these stand in section `sec`.
abbrev enters_all : Text → Bool → List Text → Bool
enters_all sec here [] = here
enters_all sec here (line ∷ lines) = enters_all sec (enters sec here line) lines

scan-append :
    (sec opt : Text) (here : Bool) (value : Option Text) (l k : List Text)
    → scan sec opt here value (l ++ k)
      ≡ scan sec opt (enters_all sec here l) (scan sec opt here value l) k
unfolding scan
scan-append sec opt here value [] k = refl
scan-append sec opt here value (line ∷ l) k =
    scan-append sec opt (enters sec here line) (updates sec opt here value line) l k

own_section_unbroken :
    (interface : Text)
    → contains b'\n' interface ≡ false
    → contains b'\n' (own_section interface) ≡ false
unfolding contains
own_section_unbroken interface h = contains-append b'\n' interface (codes "]") h

master_only_line_unbroken : (role : PtpRole) → contains b'\n' (master_only_line role) ≡ false
unfolding contains master_only_line
master_only_line_unbroken slave = refl
master_only_line_unbroken master = refl

-- The lines that are added.
own_section_lines :
    (conf interface : Text) (role : PtpRole)
    → contains b'\n' interface ≡ false
    → split b'\n' (add_interface conf interface role)
      ≡ split b'\n' conf ++ (own_section interface ∷ master_only_line role ∷ [])
unfolding add_interface
own_section_lines conf interface role h =
    split-append b'\n' conf (own_section interface ++ (b'\n' ∷ master_only_line role))
    ∙ ap (λ l. split b'\n' conf ++ l)
        (split-append b'\n' (own_section interface) (master_only_line role)
          ∙ rw
              (
                split_whole b'\n' (own_section interface) (own_section_unbroken interface h),
                split_whole b'\n' (master_only_line role) (master_only_line_unbroken role),
              )
              refl)

own_section-header_name :
    (interface : Text)
    → contains b']' interface ≡ false
    → header_name (own_section interface) ≡ own_section interface
unfolding contains until
own_section-header_name interface h =
    ap (λ t. b'[' ∷ (t ++ codes "]")) (until-append b']' interface [] h)

added_option :
    (in_section is_option' : Bool) (value digit : Option Text)
    → (if in_section && (true && is_option') then digit else if in_section then none else value)
      ≡ (if in_section then (if is_option' then digit else none) else value)
added_option true true value digit = refl
added_option true false value digit = refl
added_option false is_option' value digit = refl

scan-own_section :
    (sec opt : Text) (here : Bool) (value : Option Text) (interface : Text) (role : PtpRole)
    → contains b']' interface ≡ false
    → scan sec opt here value (own_section interface ∷ master_only_line role ∷ []) ≡ (
        if same (own_section interface) sec
        then (if same (codes "masterOnly") opt then some (role_digit role) else none)
        else value)
unfolding scan starts_with master_only_line is_option contains until after trim_space
scan-own_section sec opt here value interface slave h = rw (own_section-header_name interface h) (
    added_option (same (own_section interface) sec) (same (codes "masterOnly") opt) value
      (some (role_digit slave)))
scan-own_section sec opt here value interface master h = rw (own_section-header_name interface h) (
    added_option (same (own_section interface) sec) (same (codes "masterOnly") opt) value
      (some (role_digit master)))

-- The text with an added interface reads as the text before, but for the interface's own section,
-- which has the option masterOnly with the role's digit and no other. That is for an interface
-- without a bracket or a line break in its name, and where both texts are read without an error.
pub populate_ptp4l_conf-add_interface :
    (conf interface : Text) (role : PtpRole) (sec opt : Text) {m m' : Sections}
    → contains b'\n' interface ≡ false
    → contains b']' interface ≡ false
    → populate_ptp4l_conf (some conf) ≡ ret (m, none)
    → populate_ptp4l_conf (some (add_interface conf interface role)) ≡ ret (m', none)
    → get_option sec opt m' ≡ (
        if same (own_section interface) sec
        then (if same (codes "masterOnly") opt then some (role_digit role) else none)
        else get_option sec opt m)
populate_ptp4l_conf-add_interface conf interface role sec opt line bracket read read' =
    populate_ptp4l_conf-scan (some (add_interface conf interface role)) sec opt read'
    ∙ unfold config_text in
      (ap (scan sec opt false none) (own_section_lines conf interface role line)
        ∙ scan-append sec opt false none (split b'\n' conf) _
        ∙ scan-own_section sec opt _ _ interface role bracket
        ∙ ap
            (λ v.
              if same (own_section interface) sec
              then (if same (codes "masterOnly") opt then some (role_digit role) else none)
              else v)
            (sym (populate_ptp4l_conf-scan (some conf) sec opt read)))
