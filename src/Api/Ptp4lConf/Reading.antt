-- ===== src/Api/Ptp4lConf/Reading.antt =====
-- What the map that `populatePtp4lConf` fills holds, told from the lines alone.
use ptp_operator_upstream.Base.{
  Bool, true, false, ◌&&◌, ◌||◌, Option, none, some, List, [], ◌∷◌, ◌≡◌, inl, inr, refl, Go, ret,
  panic, arith, if◌then◌else◌, Bool-cases, Option-cases,
}
use ptp_operator_upstream.Base.Text.{Text, same, same_iff, same_refl, starts_with, contains, split}
use ptp_operator_upstream.Base.GoMap.{lookup, put, lookup-put}
use ptp_operator_upstream.Api.Ptp4lConf.Rounds.{
  header_name, is_option, option_key, option_value, current_section-assigned, opened, assigned,
  parse_lines-header, parse_lines-broken, parse_lines-outside, parse_lines-inside,
}
use ptp_operator_upstream.Api.Ptp4lConf.Outcome.{IsOpen, opened-IsOpen, assigned-IsOpen}
use ptp_operator_upstream.Api.Ptp4lConf.{
  Sections, Ptp4lConfSection, ConfError, ParseState, parse_lines, initial, with_global,
  populate_ptp4l_conf, config_text, global_section, add_global,
}

abbrev pub option_in : Text → Option Ptp4lConfSection → Option Text
option_in opt none = none
option_in opt (some section) = lookup opt section.options

-- `sections[sec].options[opt]`.
abbrev pub get_option : Text → Text → Sections → Option Text
get_option sec opt m = option_in opt (lookup sec m)

abbrev pub is_present {ℓ} : {A : Type ℓ} → Option A → Bool
is_present none = false
is_present (some _) = true

-- Whether the lines behind this one stand in section `sec`.
abbrev pub enters : Text → Bool → Text → Bool
enters sec here line = if starts_with b'[' line then same (header_name line) sec else here

-- The value of `opt` in `sec` behind this line: a header of `sec` forgets it, and an assignment
-- in `sec` replaces it.
abbrev pub updates : Text → Text → Bool → Option Text → Text → Option Text
updates sec opt here value line =
    if starts_with b'[' line
    then (if same (header_name line) sec then none else value)
    else if here && (is_option line && same (option_key line) opt)
    then some (option_value line)
    else value

-- The value of one option after the lines, with no map.
unfoldable pub scan : Text → Text → Bool → Option Text → List Text → Option Text
scan sec opt here value [] = value
scan sec opt here value (line ∷ lines) =
    scan sec opt (enters sec here line) (updates sec opt here value line) lines

-- Some line is a header of section `sec`.
unfoldable pub any_header : Text → List Text → Bool
any_header sec [] = false
any_header sec (line ∷ lines) =
    (starts_with b'[' line && same (header_name line) sec) || any_header sec lines

module _ (sec opt : Text) (s : ParseState) (line : Text) where
  opened-get_option :
      get_option sec opt (opened s line).sections
      ≡ (if same (header_name line) sec then none else get_option sec opt s.sections)
  unfolding opened lookup
  opened-get_option = rw lookup-put (ground arith)

  assigned-get_option :
      (o : IsOpen s)
      → get_option sec opt (assigned s line o.section).sections ≡ (
          if same s.current_section sec && (is_option line && same (option_key line) opt)
          then some (option_value line)
          else get_option sec opt s.sections)
  unfolding assigned
  assigned-get_option o =
      let options = put (option_key line) (option_value line) o.section.options in
      ground (
        arith,
        o.found,
        lookup-put s.current_section sec (record o.section { options = options }) s.sections,
        lookup-put (option_key line) opt (option_value line) o.section.options,
        same_iff s.current_section sec,
      )

-- The loop from inside a section.
parse_lines-get_option :
    (sec opt : Text) (lines : List Text) (s : ParseState) {m : Sections}
    → IsOpen s
    → parse_lines s lines ≡ ret (m, none)
    → get_option sec opt m
      ≡ scan sec opt (same s.current_section sec) (get_option sec opt s.sections) lines
unfolding scan
parse_lines-get_option sec opt [] s o e = unfold parse_lines in ground arith
parse_lines-get_option sec opt (line ∷ lines) s {m} o e =
    elim (Bool-cases (starts_with b'[' line)) [
      | inl h ↦ elim (Bool-cases (contains b']' line)) [
        | inl c ↦
            let rest = rw (parse_lines-header s line lines h c) at e in
            rw
              (
                parse_lines-get_option sec opt lines (opened s line) (opened-IsOpen s line) rest,
                h,
                opened-get_option sec opt s line,
              )
              (unfold opened in refl)
        | inr c ↦ cc (parse_lines-broken s line lines h c)
      ]
      | inr h ↦
          let rest = rw (parse_lines-inside s line lines o.section h o.named o.found) at e in
          rw (
            parse_lines-get_option sec opt lines (assigned s line o.section)
                (assigned-IsOpen s line o) rest,
            h,
            assigned-get_option sec opt s line o,
            current_section-assigned,
          )
    ]

-- The loop from the start.
initial-get_option :
    (sec opt : Text) (lines : List Text) {m : Sections}
    → parse_lines initial lines ≡ ret (m, none)
    → get_option sec opt m ≡ scan sec opt false none lines
unfolding scan
initial-get_option sec opt [] e = unfold parse_lines lookup in ground arith
initial-get_option sec opt (line ∷ lines) {m} e = elim (Bool-cases (starts_with b'[' line)) [
  | inl h ↦ elim (Bool-cases (contains b']' line)) [
    | inl c ↦
        let rest = rw (parse_lines-header initial line lines h c) at e in
        rw
          (
            parse_lines-get_option sec opt lines (opened initial line) (opened-IsOpen initial line)
                rest,
            h,
            opened-get_option sec opt initial line,
          )
          (unfold opened lookup in refl)
    | inr c ↦ cc (parse_lines-broken initial line lines h c)
  ]
  | inr h ↦ cc (parse_lines-outside initial line lines h (same_refl []))
]

-- The "[global]" section that is added at the end has no options.
get_option-add_global :
    (sec opt : Text) (m : Sections)
    → get_option sec opt (add_global m (lookup global_section m)) ≡ get_option sec opt m
unfolding add_global
get_option-add_global sec opt m = elim (Option-cases (lookup global_section m)) [
  | inl e ↦ rw (e, lookup-put) (unfold lookup in ground (arith, e, same_iff global_section sec))
  | inr (g, e) ↦ rw e
]

pub with_global-none :
    (r : Go (Sections × Option ConfError)) {m : Sections}
    → with_global r ≡ ret (m, none)
    → (n : Sections) × (r ≡ ret (n, none)) × (m ≡ add_global n (lookup global_section n))
unfolding with_global
with_global-none (ret (n, none)) e = (n, refl, cc)
with_global-none (ret (n, some x)) e = cc
with_global-none panic e = cc

-- If `populatePtp4lConf` reports no error, then every option of every section has the value that
-- the lines give it: the trimmed text behind the first space of the last line that assigns it
-- below the last header of that section, and none if no such line is left.
pub populate_ptp4l_conf-scan :
    (config : Option Text) (sec opt : Text) {m : Sections}
    → populate_ptp4l_conf config ≡ ret (m, none)
    → get_option sec opt m ≡ scan sec opt false none (split b'\n' (config_text config))
unfolding populate_ptp4l_conf
populate_ptp4l_conf-scan config sec opt {m} e =
    let (n, loop, added) =
      with_global-none (parse_lines initial (split b'\n' (config_text config))) e in
    rw (added, get_option-add_global) (initial-get_option sec opt _ loop)
